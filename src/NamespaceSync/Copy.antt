-- ===== src/NamespaceSync/Copy.antt =====
-- copyClusterClassAndTemplates of copy.go and `Reconcile` of controller.go.
pub mod Rules
pub mod Keeps
pub mod Complete
pub mod Closed
pub mod Total
use cluster_api_runtime_exte.Prelude.{
  ℕ, ◌+◌, ◌≡◌, Bool, ◌&&◌, List, [], ◌∷◌, ◌++◌, Option, none, some, Text, codes, text_eq, is_empty,
  if◌then◌else◌,
}
use cluster_api_runtime_exte.NamespaceSync.Objects.{
  Key, Ref, ClassSpec, Body, cluster_class, template, Object, class_kind, ref_key, references,
  copy_object_for_create,
}
use cluster_api_runtime_exte.NamespaceSync.Server.{
  World, Fault, no_fault, stale, call_error, Result, ok, err, M, pure, ◌>>=◌, called, get_reference,
  create_if_not_exists,
}

module _ (fault : ℕ → Fault) where
  -- The function that walkReferences is given.
  unfoldable pub copy_template : Text → Text → Ref → M (Unit {0})
  copy_template source target r = do
    t ← get_reference fault (ref_key source r)
    create_if_not_exists fault (copy_object_for_create t t.key.name target)

  -- The first error ends the walk.
  unfoldable pub walk_references : Text → Text → List Ref → M (Unit {0})
  unfolding copy_template
  walk_references source target [] = pure tt
  walk_references source target (r ∷ rs) = do
    u ← copy_template source target r
    walk_references source target rs

  unfoldable pub copy_class : Text → Object → ClassSpec → M (Unit {0})
  unfolding walk_references
  copy_class target o c = do
    u ← walk_references o.key.namespace target (references c)
    create_if_not_exists fault (copy_object_for_create o o.key.name target)

  unfoldable pub copy_body : Text → Object → Body → M (Unit {0})
  unfolding copy_class
  copy_body target o (cluster_class c) = copy_class target o c
  copy_body target o (template t) = pure tt

  -- The loop over the source classes.
  unfoldable pub copy_all : Text → List Object → M (Unit {0})
  unfolding copy_body
  copy_all target [] = pure tt
  copy_all target (o ∷ os) = do u ← copy_body target o o.body; copy_all target os

  unfoldable pub is_source : Text → Object → Bool
  is_source namespace o = text_eq o.key.kind class_kind && text_eq o.key.namespace namespace

  unfoldable pub in_namespace : Text → List Object → List Object
  unfolding is_source
  in_namespace namespace [] = []
  in_namespace namespace (o ∷ os) =
      let rest = in_namespace namespace os in if is_source namespace o then o ∷ rest else rest

  -- A stale cache lists no class.
  unfoldable pub list_answer : List Object → Fault → Result (List Object)
  list_answer os no_fault = ok os
  list_answer os stale = ok []
  list_answer os (call_error e) = err (codes "failed to list source ClusterClasses: " ++ e)

  -- The empty namespace lists nothing, and makes no call.
  unfoldable pub list_source_classes : Text → M (List Object)
  unfolding in_namespace list_answer
  list_source_classes namespace w =
      if is_empty namespace
      then (ok [], w)
      else (list_answer (in_namespace namespace w.objects) (fault w.calls), called w)

  unfoldable pub reconcile : Text → Text → M (Unit {0})
  unfolding list_source_classes copy_all
  reconcile source target = do classes ← list_source_classes source; copy_all target classes
