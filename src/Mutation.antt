-- ===== src/Mutation.antt =====
-- common/pkg/capi/clustertopology: the mutation pipeline of handlers/mutation/meta.go, the matchers of
-- patches/matchers/match.go and the selectors of patches/selectors/selectors.go. An API version is the
-- text of group and version; the walk over the templates and the variables is Cluster API's.
pub mod Names
pub mod Holders
pub mod Tests
use cluster_api_runtime_exte.Prelude.{
  ℕ, Bool, true, false, ◌&&◌, ◌||◌, List, [], ◌∷◌, ◌++◌, Option, none, some, Text, codes, text_eq,
  any, ◌==◌, if◌then◌else◌,
}
use cluster_api_runtime_exte.Prism.{Answer, ok, err}

-- A mutator changes the object in place, and returns an error or none.
abbrev pub Mutator : Type 0 → Type 0
Mutator Obj = Obj → Option Text × Obj

after_mutator : {Obj : Type 0} → (Obj → Option Text × Obj) → Option Text × Obj → Option Text × Obj
after_mutator rest (some e, o) = (some e, o)
after_mutator rest (none, o) = rest o

-- The function that GeneratePatches gives to WalkTemplates.
unfoldable pub run_mutators : {Obj : Type 0} → List (Mutator Obj) → Obj → Option Text × Obj
unfolding after_mutator
run_mutators [] o = (none, o)
run_mutators (m ∷ ms) o = after_mutator (λ x. run_mutators ms x) (m o)

pub record HolderReference : Type 0 where
  pub kind : Text
  pub field_path : Text

-- `names` is none for a nil MachineDeploymentClass; a nil Boolean is false.
pub record PatchSelector : Type 0 where
  pub api_version : Text
  pub kind : Text
  pub infrastructure_cluster : Bool
  pub control_plane : Bool
  pub names : Option (List Text)

pub record ObjectType : Type 0 where
  pub api_version : Text
  pub kind : Text

unfoldable pub matches_gvk : Text → Text → ObjectType → Bool
matches_gvk api_version kind obj = text_eq obj.api_version api_version && text_eq obj.kind kind

unfoldable pub matches_infrastructure : HolderReference → Bool
matches_infrastructure h =
    text_eq h.kind (codes "Cluster") && text_eq h.field_path (codes "spec.infrastructureRef")

unfoldable pub matches_control_plane : HolderReference → Bool
matches_control_plane h =
    (text_eq h.kind (codes "Cluster") && text_eq h.field_path (codes "spec.controlPlaneRef"))
    || (text_eq h.field_path (codes "spec.machineTemplate.infrastructureRef")
        || (text_eq h.field_path (codes "spec.machineTemplate.spec.infrastructureRef")
            || (text_eq h.field_path (codes "spec.template.spec.infrastructureRef")
                && (text_eq h.kind (codes "KubeadmControlPlaneTemplate")
                    || text_eq h.kind (codes "KubeadmControlPlane")))))

unfoldable pub has_prefix : Text → Text → Bool
has_prefix [] s = true
has_prefix (c ∷ p) [] = false
has_prefix (c ∷ p) (d ∷ s) = c == d && has_prefix p s

unfoldable pub has_suffix : Text → Text → Bool
has_suffix t [] = text_eq [] t
has_suffix t (c ∷ s) = text_eq (c ∷ s) t || has_suffix t s

abbrev pub star : ℕ
star = 42

-- What stands behind a first star.
unfoldable pub after_star : Text → Option Text
after_star [] = none
after_star (c ∷ t) = if c == star then some t else none

with_head : ℕ → Option Text → Option Text
with_head c none = none
with_head c (some t) = some (c ∷ t)

-- What stands before a last star.
unfoldable pub before_star : Text → Option Text
unfolding with_head
before_star [] = none
before_star (c ∷ []) = if c == star then some [] else none
before_star (c ∷ d ∷ t) = with_head c (before_star (d ∷ t))

abbrev pub ends_with : Text → Option Text → Bool
ends_with s none = false
ends_with s (some t) = has_suffix t s

abbrev pub starts_with : Text → Option Text → Bool
starts_with s none = false
starts_with s (some p) = has_prefix p s

-- `quote` and `unquote` are those of strconv, `unquote` with the empty text for an error.
module _ (quote unquote : Text → Text) where
  unfoldable pub matches_name : Text → Text → Bool
  unfolding after_star before_star has_prefix has_suffix
  matches_name raw n =
      (text_eq n (codes "*") || text_eq raw (quote n))
      || (ends_with (unquote raw) (after_star n) || starts_with (unquote raw) (before_star n))

  class_matches : List Text → Answer Text → Bool
  unfolding matches_name
  class_matches names (err e) = false
  class_matches names (ok raw) = any (matches_name raw) names

  -- `class` is the variable builtin.machineDeployment.class, the JSON text, or the error of reading it.
  unfoldable pub matches_machine_deployment_class : HolderReference → List Text → Answer Text → Bool
  unfolding class_matches
  matches_machine_deployment_class h names class =
      (text_eq h.kind (codes "MachineDeployment")
        && (text_eq h.field_path (codes "spec.template.spec.bootstrap.configRef")
            || text_eq h.field_path (codes "spec.template.spec.infrastructureRef")))
      && class_matches names class

  class_selected : HolderReference → Option (List Text) → Answer Text → Bool
  unfolding matches_machine_deployment_class
  class_selected h none class = false
  class_selected h (some names) class = matches_machine_deployment_class h names class

  unfoldable pub matches_selector :
      PatchSelector → ObjectType → HolderReference → Answer Text → Bool
  unfolding matches_gvk matches_infrastructure matches_control_plane class_selected
  matches_selector s obj h class =
      matches_gvk s.api_version s.kind obj
      && ((s.infrastructure_cluster && matches_infrastructure h)
          || ((s.control_plane && matches_control_plane h) || class_selected h s.names class))

abbrev every : Option (List Text)
every = some (codes "*" ∷ [])

abbrev pub infrastructure_version : Text → Text
infrastructure_version v = codes "infrastructure.cluster.x-k8s.io/" ++ v

-- The selectors; `control_plane_version` and `bootstrap_version` are the GroupVersions of Cluster API.
unfoldable pub control_plane_selector : Text → PatchSelector
control_plane_selector control_plane_version = record {
  api_version = control_plane_version;
  kind = codes "KubeadmControlPlaneTemplate";
  infrastructure_cluster = false;
  control_plane = true;
  names = none;
}

unfoldable pub workers_config_template_selector : Text → Text → PatchSelector
workers_config_template_selector version kind = record {
  api_version = version;
  kind = kind;
  infrastructure_cluster = false;
  control_plane = false;
  names = every;
}

unfoldable pub workers_kubeadm_config_template_selector : Text → PatchSelector
unfolding workers_config_template_selector
workers_kubeadm_config_template_selector bootstrap_version =
    workers_config_template_selector bootstrap_version (codes "KubeadmConfigTemplate")

unfoldable pub infrastructure_cluster_selector : Text → Text → PatchSelector
infrastructure_cluster_selector version kind = record {
  api_version = infrastructure_version version;
  kind = kind;
  infrastructure_cluster = true;
  control_plane = false;
  names = none;
}

unfoldable pub infrastructure_worker_machine_templates : Text → Text → PatchSelector
unfolding workers_config_template_selector
infrastructure_worker_machine_templates version kind =
    workers_config_template_selector (infrastructure_version version) kind

unfoldable pub infrastructure_control_plane_machines : Text → Text → PatchSelector
infrastructure_control_plane_machines version kind = record {
  api_version = infrastructure_version version;
  kind = kind;
  infrastructure_cluster = false;
  control_plane = true;
  names = none;
}
