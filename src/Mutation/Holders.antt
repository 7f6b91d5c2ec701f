-- ===== src/Mutation/Holders.antt =====
-- The templates that the selectors of the control plane and of the workers choose, and the order of
-- the mutators.
use cluster_api_runtime_exte.Prelude.{
  ◌≡◌, refl, true, false, List, [], ◌∷◌, ◌++◌, Option, none, some, Text, codes, text_eq,
  text_eq_iff, Bool-cases, ◌⊎◌, inl, inr, arith,
}
use cluster_api_runtime_exte.Prism.{Answer}
use cluster_api_runtime_exte.Mutation.{
  Mutator, run_mutators, after_mutator, HolderReference, matches_control_plane,
  matches_machine_deployment_class,
}

control_plane_paths :
    (kind path : Text)
    → kind ≡ codes "MachineDeployment"
    → (path ≡ codes "spec.template.spec.bootstrap.configRef")
      ⊎ (path ≡ codes "spec.template.spec.infrastructureRef")
    → matches_control_plane (record { kind = kind; field_path = path }) ≡ false
unfolding matches_control_plane codes text_eq
control_plane_paths kind path k (inl p) = rw (k, p) refl
control_plane_paths kind path k (inr p) = rw (k, p) refl

module _ (quote unquote : Text → Text) where
  -- A template that a selector of classes chooses is not one of the control plane, so that no template
  -- is changed as one of a worker and as one of the control plane.
  pub matches_machine_deployment_class-control_plane :
      (h : HolderReference) (names : List Text) (class : Answer Text)
      → matches_machine_deployment_class quote unquote h names class ≡ true
      → matches_control_plane h ≡ false
  unfolding matches_machine_deployment_class
  matches_machine_deployment_class-control_plane h names class m =
      let is_kind : text_eq h.kind (codes "MachineDeployment") ≡ true = ground (arith, m) in
      let kind = (text_eq_iff h.kind (codes "MachineDeployment")).0 is_kind in
      elim (Bool-cases (text_eq h.field_path (codes "spec.template.spec.bootstrap.configRef"))) [
        | inl e ↦
            control_plane_paths h.kind h.field_path kind (
              inl ((text_eq_iff h.field_path (codes "spec.template.spec.bootstrap.configRef")).0 e))
        | inr e ↦
            let machines : text_eq h.field_path (codes "spec.template.spec.infrastructureRef")
                ≡ true =
              ground (arith, m, e) in
            control_plane_paths h.kind h.field_path kind (
              inr (
                (text_eq_iff h.field_path (codes "spec.template.spec.infrastructureRef")).0
                  machines))
      ]

abbrev pub then_run : {Obj : Type 0} → List (Mutator Obj) → Option Text × Obj → Option Text × Obj
then_run ns (none, o) = run_mutators ns o
then_run ns (some e, o) = (some e, o)

after_append :
    {Obj : Type 0} (r : Option Text × Obj) (ms ns : List (Mutator Obj))
    → ((o : Obj) → run_mutators (ms ++ ns) o ≡ then_run ns (run_mutators ms o))
    → after_mutator (λ x. run_mutators (ms ++ ns) x) r
      ≡ then_run ns (after_mutator (λ x. run_mutators ms x) r)
unfolding after_mutator
after_append (none, o) ms ns rest = rest o
after_append (some e, o) ms ns rest = refl

-- A pipeline that is put together from two runs the second on the object that the first leaves, and
-- only if the first has no error; else it ends with that error and object.
pub run_mutators-append :
    {Obj : Type 0} (ms ns : List (Mutator Obj)) (o : Obj)
    → run_mutators (ms ++ ns) o ≡ then_run ns (run_mutators ms o)
unfolding run_mutators
run_mutators-append [] ns o = refl
run_mutators-append (m ∷ ms) ns o = after_append (m o) ms ns (λ x. run_mutators-append ms ns x)
