-- ===== src/NamespaceSync/Copy/Total.antt =====
-- Without faults a reconciliation of sound sources returns no error.
use cluster_api_runtime_exte.Prelude.{
  ℕ, ◌≡◌, refl, false, List, [], ◌∷◌, Option-cases, Text, All, is_empty, inl, inr,
}
use cluster_api_runtime_exte.NamespaceSync.Objects.{
  Key, Ref, Body, cluster_class, template, Object, copy_object_for_create, references, body_refs,
  ref_key,
}
use cluster_api_runtime_exte.NamespaceSync.Objects.Keys.{find}
use cluster_api_runtime_exte.NamespaceSync.Server.{
  World, Fault, no_fault, Result, ok, err, called, answer, get, created, create, reference_of,
  get_reference, create_missing, create_if_not_exists,
}
use cluster_api_runtime_exte.NamespaceSync.Copy.{
  copy_template, walk_references, copy_class, copy_body, copy_all, in_namespace, list_answer,
  list_source_classes, reconcile,
}
use cluster_api_runtime_exte.NamespaceSync.Copy.Rules.{Ends, Ensures, Extends, bind-Ensures}
use cluster_api_runtime_exte.NamespaceSync.Copy.Keeps.{Extends-of, template-Stands, body-Stands}
use cluster_api_runtime_exte.NamespaceSync.Copy.Complete.{
  Has, HasAll, HasAll-stays, Anything, CopiedAll, reconcile_complete,
}

abbrev pub working : ℕ → Fault
working n = no_fault

abbrev Never : World → Type 0
Never w = ⊥

-- The templates of a class are in its own namespace.
abbrev pub Sound : Object → World → Type 0
Sound o w = HasAll o.key.namespace (body_refs o.body) w

abbrev pub SoundAll : List Object → World → Type 0
SoundAll os w = All (λ o. Sound o w) os

SoundAll-stays : (os : List Object) (w v : World) → Extends w v → SoundAll os w → SoundAll os v
SoundAll-stays [] w v more h = tt
SoundAll-stays (o ∷ os) w v more h = (
  HasAll-stays working o.key.namespace (body_refs o.body) w v more h.0,
  SoundAll-stays os w v more h.1,
)

reference_succeeds : (k : Key) → Ensures (Has k) Never (λ t. Anything) (get_reference working k)
unfolding get_reference get reference_of answer
reference_succeeds k w h = rw h.1 tt

create_succeeds :
    (n : Object) → Ensures Anything Never (λ u. Anything) (create_if_not_exists working n)
unfolding create_if_not_exists get create_missing create answer created
create_succeeds n w p = elim (Option-cases (find n.key w.objects)) [
  | inl e ↦ rw (e, e) tt
  | inr (o, e) ↦ rw e tt
]

template_succeeds :
    (source target : Text) (r : Ref)
    → Ensures (Has (ref_key source r)) Never (λ u. Anything) (copy_template working source target r)
unfolding copy_template
template_succeeds source target r =
    bind-Ensures (Has (ref_key source r)) Never (λ t. Anything) (λ u. Anything)
      (get_reference working (ref_key source r))
      (λ t. create_if_not_exists working (copy_object_for_create t t.key.name target))
      (reference_succeeds (ref_key source r))
      (λ t. create_succeeds (copy_object_for_create t t.key.name target))

kept :
    (P : World → Type 0) (r : Result (Unit {0})) (w : World)
    → P w
    → Ends Never (λ u. Anything) r w
    → Ends Never (λ u. P) r w
kept P (ok u) w p h = p
kept P (err e) w p h = h

template_then :
    (source target : Text) (r : Ref) (rs : List Ref)
    → Ensures
        (HasAll source (r ∷ rs))
        Never
        (λ u. HasAll source rs)
        (copy_template working source target r)
template_then source target r rs w h =
    kept (HasAll source rs) (copy_template working source target r w).0
      (copy_template working source target r w).1
      (HasAll-stays working source rs w (copy_template working source target r w).1
        (Extends-of working (copy_template working source target r)
          (λ k x. template-Stands working k x source target r) w)
        h.1)
      (template_succeeds source target r w h.0)

walk_succeeds :
    (source target : Text) (rs : List Ref)
    → Ensures (HasAll source rs) Never (λ u. Anything) (walk_references working source target rs)
unfolding walk_references
walk_succeeds source target [] = λ w h. tt
walk_succeeds source target (r ∷ rs) =
    bind-Ensures (HasAll source (r ∷ rs)) Never (λ u. HasAll source rs) (λ u. Anything)
      (copy_template working source target r) (λ u. walk_references working source target rs)
      (template_then source target r rs) (λ u. walk_succeeds source target rs)

body_succeeds :
    (target : Text) (o : Object) (b : Body)
    → Ensures
        (HasAll o.key.namespace (body_refs b))
        Never
        (λ u. Anything)
        (copy_body working target o b)
unfolding copy_body copy_class
body_succeeds target o (template t) = λ w h. tt
body_succeeds target o (cluster_class c) =
    bind-Ensures (HasAll o.key.namespace (references c)) Never (λ u. Anything) (λ u. Anything)
      (walk_references working o.key.namespace target (references c))
      (λ u. create_if_not_exists working (copy_object_for_create o o.key.name target))
      (walk_succeeds o.key.namespace target (references c))
      (λ u. create_succeeds (copy_object_for_create o o.key.name target))

all_succeed :
    (target : Text) (os : List Object)
    → Ensures (SoundAll os) Never (λ u. Anything) (copy_all working target os)
unfolding copy_all
all_succeed target [] = λ w h. tt
all_succeed target (o ∷ os) =
    bind-Ensures (SoundAll (o ∷ os)) Never (λ u. SoundAll os) (λ u. Anything)
      (copy_body working target o o.body) (λ u. copy_all working target os)
      (λ w h.
        kept (SoundAll os) (copy_body working target o o.body w).0
          (copy_body working target o o.body w).1
          (SoundAll-stays os w (copy_body working target o o.body w).1
            (Extends-of working (copy_body working target o o.body)
              (λ k x. body-Stands working k x target o o.body) w)
            h.1)
          (body_succeeds target o o.body w h.0))
      (λ u. all_succeed target os)

succeeded : (r : Result (Unit {0})) (w : World) → Ends Never (λ u. Anything) r w → r ≡ ok tt
succeeded (ok u) w h = refl
succeeded (err e) w h = absurd h

-- If no call fails and no cache is stale, and the templates of every class of the source namespace are
-- there, a reconciliation returns no error, and then the target namespace has all classes of the
-- source namespace and all their templates.
pub reconcile_total :
    (source target : Text) (w : World)
    → is_empty source ≡ false
    → SoundAll (in_namespace working source w.objects) w
    → ((reconcile working source target w).0 ≡ ok tt)
      × CopiedAll target
          (in_namespace working source w.objects)
          (reconcile working source target w).1
unfolding reconcile list_source_classes list_answer
reconcile_total source target w named sound =
    let os = in_namespace working source w.objects in
    let listed : (list_source_classes working source w).0 ≡ ok os = rw named refl in
    let done : (reconcile working source target w).0 ≡ ok tt = rw named (
      succeeded (copy_all working target os (called w)).0 (copy_all working target os (called w)).1
        (all_succeed target os (called w) (SoundAll-stays os w (called w) (λ k o h. h) sound))) in
    (done, reconcile_complete working source target w os listed done)
