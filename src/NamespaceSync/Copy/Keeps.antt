-- ===== src/NamespaceSync/Copy/Keeps.antt =====
-- No object is changed or deleted.
use cluster_api_runtime_exte.Prelude.{
  ℕ, ◌≡◌, List, [], ◌∷◌, Option, none, some, inl, inr, Text, Bool-cases, is_empty,
}
use cluster_api_runtime_exte.NamespaceSync.Objects.{
  Key, Ref, Body, cluster_class, template, Object, copy_object_for_create, references, ref_key,
}
use cluster_api_runtime_exte.NamespaceSync.Objects.Keys.{find, find-append_found}
use cluster_api_runtime_exte.NamespaceSync.Server.{
  World, Fault, no_fault, stale, call_error, Result, ok, err, M, called, Got, found, not_found,
  get_failed, answer, get, created, create, reference_of, get_reference, create_missing,
  create_if_not_exists,
}
use cluster_api_runtime_exte.NamespaceSync.Copy.{
  copy_template, walk_references, copy_class, copy_body, copy_all, in_namespace, list_answer,
  list_source_classes, reconcile,
}
use cluster_api_runtime_exte.NamespaceSync.Copy.Rules.{Ends, Keeps, Extends, bind-Ensures}

module _ (fault : ℕ → Fault) (k : Key) (o : Object) where
  abbrev pub Stands : World → Type 0
  Stands w = find k w.objects ≡ some o

  ended-Stands : {A : Type 0} (r : Result A) (w : World) → Ends Stands (λ u. Stands) r w → Stands w
  ended-Stands (ok u) w h = h
  ended-Stands (err e) w h = h

  created-Stands :
      (n : Object) (w : World) (old : Option Object) (f : Fault)
      → Stands w
      → Ends Stands (λ u. Stands) (created n w old f).0 (created n w old f).1
  unfolding created
  created-Stands n w none no_fault h = find-append_found k w.objects n o h
  created-Stands n w none stale h = find-append_found k w.objects n o h
  created-Stands n w none (call_error e) h = h
  created-Stands n w (some old) no_fault h = h
  created-Stands n w (some old) stale h = h
  created-Stands n w (some old) (call_error e) h = h

  missing-Stands : (n : Object) (g : Got) → Keeps Stands (create_missing fault n g)
  unfolding create_missing create
  missing-Stands n (found old) w h = h
  missing-Stands n not_found w h = created-Stands n w (find n.key w.objects) (fault w.calls) h
  missing-Stands n (get_failed e) w h = h

  pub create-Stands : (n : Object) → Keeps Stands (create_if_not_exists fault n)
  unfolding create_if_not_exists get
  create-Stands n w h =
      missing-Stands n (answer (find n.key w.objects) (fault w.calls)) (called w) h

  reference_of-Stands :
      (g : Got) (w : World) → Stands w → Ends Stands (λ u. Stands) (reference_of fault g) w
  unfolding reference_of
  reference_of-Stands (found t) w h = h
  reference_of-Stands not_found w h = h
  reference_of-Stands (get_failed e) w h = h

  reference-Stands : (l : Key) → Keeps Stands (get_reference fault l)
  unfolding get_reference get
  reference-Stands l w h =
      reference_of-Stands (answer (find l w.objects) (fault w.calls)) (called w) h

  pub template-Stands :
      (source target : Text) (r : Ref) → Keeps Stands (copy_template fault source target r)
  unfolding copy_template
  template-Stands source target r =
      bind-Ensures Stands Stands (λ t. Stands) (λ u. Stands)
        (get_reference fault (ref_key source r))
        (λ t. create_if_not_exists fault (copy_object_for_create t t.key.name target))
        (reference-Stands (ref_key source r))
        (λ t. create-Stands (copy_object_for_create t t.key.name target))

  pub walk-Stands :
      (source target : Text) (rs : List Ref) → Keeps Stands (walk_references fault source target rs)
  unfolding walk_references
  walk-Stands source target [] = λ w h. h
  walk-Stands source target (r ∷ rs) =
      bind-Ensures Stands Stands (λ u. Stands) (λ u. Stands) (copy_template fault source target r)
        (λ u. walk_references fault source target rs) (template-Stands source target r)
        (λ u. walk-Stands source target rs)

  pub body-Stands :
      (target : Text) (x : Object) (b : Body) → Keeps Stands (copy_body fault target x b)
  unfolding copy_body copy_class
  body-Stands target x (template t) = λ w h. h
  body-Stands target x (cluster_class c) =
      bind-Ensures Stands Stands (λ u. Stands) (λ u. Stands)
        (walk_references fault x.key.namespace target (references c))
        (λ u. create_if_not_exists fault (copy_object_for_create x x.key.name target))
        (walk-Stands x.key.namespace target (references c))
        (λ u. create-Stands (copy_object_for_create x x.key.name target))

  pub all-Stands : (target : Text) (xs : List Object) → Keeps Stands (copy_all fault target xs)
  unfolding copy_all
  all-Stands target [] = λ w h. h
  all-Stands target (x ∷ xs) =
      bind-Ensures Stands Stands (λ u. Stands) (λ u. Stands) (copy_body fault target x x.body)
        (λ u. copy_all fault target xs) (body-Stands target x x.body) (λ u. all-Stands target xs)

  listed-Stands : (r : Result (List Object)) (w : World) → Stands w → Ends Stands (λ u. Stands) r w
  listed-Stands (ok xs) w h = h
  listed-Stands (err e) w h = h

  list-Stands : (source : Text) → Keeps Stands (list_source_classes fault source)
  unfolding list_source_classes
  list-Stands source w h = elim (Bool-cases (is_empty source)) [
    | inl e ↦ rw e h
    | inr e ↦ rw e (
        listed-Stands (list_answer fault (in_namespace fault source w.objects) (fault w.calls))
          (called w) h)
  ]

  reconcile-Stands : (source target : Text) → Keeps Stands (reconcile fault source target)
  unfolding reconcile
  reconcile-Stands source target =
      bind-Ensures Stands Stands (λ u. Stands) (λ u. Stands) (list_source_classes fault source)
        (λ classes. copy_all fault target classes) (list-Stands source)
        (λ classes. all-Stands target classes)

  -- An object that is there before a reconciliation is there after it, unchanged, whichever calls
  -- fail and whether or not the reconciliation does.
  pub reconcile_keeps :
      (source target : Text) (w : World)
      → find k w.objects ≡ some o
      → find k (reconcile fault source target w).1.objects ≡ some o
  reconcile_keeps source target w h =
      ended-Stands (reconcile fault source target w).0 (reconcile fault source target w).1
        (reconcile-Stands source target w h)

-- Every action only adds objects.
module _ (fault : ℕ → Fault) where
  pub Extends-of :
      {A : Type 0} (m : M A)
      → ((k : Key) (o : Object) → Keeps (λ w. find k w.objects ≡ some o) m)
      → (w : World) → Extends w (m w).1
  Extends-of m keeps w k o h = ended-Stands fault k o (m w).0 (m w).1 (keeps k o w h)

  pub walk-Extends :
      (source target : Text) (rs : List Ref) (w : World)
      → Extends w (walk_references fault source target rs w).1
  walk-Extends source target rs =
      Extends-of (walk_references fault source target rs)
        (λ k o. walk-Stands fault k o source target rs)

  pub create-Extends : (n : Object) (w : World) → Extends w (create_if_not_exists fault n w).1
  create-Extends n = Extends-of (create_if_not_exists fault n) (λ k o. create-Stands fault k o n)

  pub all-Extends :
      (target : Text) (xs : List Object) (w : World) → Extends w (copy_all fault target xs w).1
  all-Extends target xs =
      Extends-of (copy_all fault target xs) (λ k o. all-Stands fault k o target xs)
