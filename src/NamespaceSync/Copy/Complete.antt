-- ===== src/NamespaceSync/Copy/Complete.antt =====
-- A reconciliation that returns no error leaves copies of the classes and of all their templates.
use cluster_api_runtime_exte.Prelude.{
  ℕ, ◌≡◌, refl, ap, subst, ◌∙◌, List, [], ◌∷◌, Option, none, some, Text, All,
}
use cluster_api_runtime_exte.NamespaceSync.Objects.{
  Key, Ref, Body, cluster_class, template, Object, copy_object_for_create, references, ref_key,
}
use cluster_api_runtime_exte.NamespaceSync.Objects.Keys.{
  find, find-key, find-append_none, key_eq_refl,
}
use cluster_api_runtime_exte.NamespaceSync.Server.{
  World, Fault, no_fault, stale, call_error, Result, ok, err, called, Got, found, not_found,
  get_failed, answer, get, created, create, reference_of, get_reference, create_missing,
  create_if_not_exists,
}
use cluster_api_runtime_exte.NamespaceSync.Copy.{
  copy_template, walk_references, copy_class, copy_body, copy_all, list_source_classes, reconcile,
}
use cluster_api_runtime_exte.NamespaceSync.Copy.Rules.{
  Ends, Ensures, Extends, bind-Ensures, frame-Ensures, weaker_ends,
}
use cluster_api_runtime_exte.NamespaceSync.Copy.Keeps.{create-Extends, walk-Extends, all-Extends}

-- The store has an object with the key.
abbrev pub Has : Key → World → Type 0
Has k w = (o : Object) × (find k w.objects ≡ some o)

abbrev pub Anything : World → Type 0
Anything w = Unit {0}

-- The key of an object's copy.
abbrev pub copy_key : Text → Object → Key
copy_key target o = record o.key { namespace = target }

abbrev pub HasAll : Text → List Ref → World → Type 0
HasAll target rs w = All (λ r. Has (ref_key target r) w) rs

-- The copies of a class and of its templates stand in the target namespace.
abbrev pub Copied : Text → Object → Body → World → Type 0
Copied target o (cluster_class c) w = HasAll target (references c) w × Has (copy_key target o) w
Copied target o (template t) w = Unit {0}

abbrev pub CopiedAll : Text → List Object → World → Type 0
CopiedAll target os w = All (λ o. Copied target o o.body w) os

answer-found :
    (k : Key) (w : World) (f : Fault) (o : Option Object) (x : Object)
    → find k w.objects ≡ o
    → answer o f ≡ found x
    → find k w.objects ≡ some x
unfolding answer
answer-found k w no_fault none x e h = absurd (cc h)
answer-found k w no_fault (some o) x e h = e ∙ cc h
answer-found k w stale o x e h = absurd (cc h)
answer-found k w (call_error t) o x e h = absurd (cc h)

module _ (fault : ℕ → Fault) where
  created-Has :
      (n : Object) (w : World) (f : Fault) (old : Option Object)
      → find n.key w.objects ≡ old
      → Ends Anything (λ u. Has n.key) (created n w old f).0 (created n w old f).1
  unfolding created
  created-Has n w no_fault none h =
      (n, find-append_none n.key w.objects n h ∙ rw (key_eq_refl n.key) refl)
  created-Has n w stale none h =
      (n, find-append_none n.key w.objects n h ∙ rw (key_eq_refl n.key) refl)
  created-Has n w (call_error e) none h = tt
  created-Has n w no_fault (some old) h = tt
  created-Has n w stale (some old) h = tt
  created-Has n w (call_error e) (some old) h = tt

  missing-Has :
      (n : Object) (g : Got) (w : World)
      → ((x : Object) → g ≡ found x → Has n.key w)
      → Ends Anything (λ u. Has n.key) (create_missing fault n g w).0 (create_missing fault n g w).1
  unfolding create_missing create
  missing-Has n (found old) w known = known old refl
  missing-Has n not_found w known = created-Has n w (fault w.calls) (find n.key w.objects) refl
  missing-Has n (get_failed e) w known = tt

  pub create-Has :
      (n : Object) → Ensures Anything Anything (λ u. Has n.key) (create_if_not_exists fault n)
  unfolding create_if_not_exists get
  create-Has n w p =
      missing-Has n (answer (find n.key w.objects) (fault w.calls)) (called w)
        (λ x h. (x, answer-found n.key w (fault w.calls) (find n.key w.objects) x refl h))

  -- The object that a reference points to is in the store.
  abbrev pub Read : Key → Object → World → Type 0
  Read k o w = find k w.objects ≡ some o

  reference_of-Read :
      (k : Key) (g : Got) (w : World)
      → ((x : Object) → g ≡ found x → Read k x w)
      → Ends Anything (Read k) (reference_of fault g) w
  unfolding reference_of
  reference_of-Read k (found t) w known = known t refl
  reference_of-Read k not_found w known = tt
  reference_of-Read k (get_failed e) w known = tt

  pub reference-Read : (k : Key) → Ensures Anything Anything (Read k) (get_reference fault k)
  unfolding get_reference get
  reference-Read k w p =
      reference_of-Read k (answer (find k w.objects) (fault w.calls)) (called w)
        (λ x h. answer-found k w (fault w.calls) (find k w.objects) x refl h)

  copied-Has :
      (source target : Text) (r : Ref) (t : Object)
      → Ensures
          (Read (ref_key source r) t)
          Anything
          (λ u. Has (ref_key target r))
          (create_if_not_exists fault (copy_object_for_create t t.key.name target))
  unfolding copy_object_for_create
  copied-Has source target r t w read =
      let k = find-key (ref_key source r) w.objects t read in
      let same : copy_key target t ≡ ref_key target r =
        ap (λ (l : Key). record l { namespace = target }) k in
      weaker_ends Anything Anything (λ u. Has (copy_key target t)) (λ u. Has (ref_key target r))
        (λ v e. e) (λ u v h. subst (λ (l : Key). Has l v) same h)
        (create_if_not_exists fault (copy_object_for_create t t.key.name target) w).0
        (create_if_not_exists fault (copy_object_for_create t t.key.name target) w).1
        (create-Has (copy_object_for_create t t.key.name target) w tt)

  pub template-Has :
      (source target : Text) (r : Ref)
      → Ensures Anything Anything
          (λ u. Has (ref_key target r))
          (copy_template fault source target r)
  unfolding copy_template
  template-Has source target r =
      bind-Ensures Anything Anything (Read (ref_key source r)) (λ u. Has (ref_key target r))
        (get_reference fault (ref_key source r))
        (λ t. create_if_not_exists fault (copy_object_for_create t t.key.name target))
        (reference-Read (ref_key source r)) (copied-Has source target r)

  pub Has-stays : (k : Key) (w v : World) → Extends w v → Has k w → Has k v
  Has-stays k w v more h = (h.0, more k h.0 h.1)

  pub HasAll-stays :
      (target : Text) (rs : List Ref) (w v : World)
      → Extends w v
      → HasAll target rs w
      → HasAll target rs v
  HasAll-stays target [] w v more h = tt
  HasAll-stays target (r ∷ rs) w v more h =
      (Has-stays (ref_key target r) w v more h.0, HasAll-stays target rs w v more h.1)

  pub walk-HasAll :
      (source target : Text) (rs : List Ref)
      → Ensures Anything Anything (λ u. HasAll target rs) (walk_references fault source target rs)
  unfolding walk_references
  walk-HasAll source target [] = λ w p. tt
  walk-HasAll source target (r ∷ rs) =
      bind-Ensures Anything Anything (λ u. Has (ref_key target r)) (λ u. HasAll target (r ∷ rs))
        (copy_template fault source target r) (λ u. walk_references fault source target rs)
        (template-Has source target r)
        (λ u.
          frame-Ensures (Has (ref_key target r)) Anything (λ v. HasAll target rs)
            (walk_references fault source target rs) (walk-Extends fault source target rs)
            (Has-stays (ref_key target r)) (λ w h. walk-HasAll source target rs w tt))

  Copied-stays :
      (target : Text) (o : Object) (b : Body) (w v : World)
      → Extends w v
      → Copied target o b w
      → Copied target o b v
  Copied-stays target o (cluster_class c) w v more h =
      (HasAll-stays target (references c) w v more h.0, Has-stays (copy_key target o) w v more h.1)
  Copied-stays target o (template t) w v more h = tt

  body-Copied :
      (target : Text) (o : Object) (b : Body)
      → Ensures Anything Anything (λ u. Copied target o b) (copy_body fault target o b)
  unfolding copy_body copy_class copy_object_for_create
  body-Copied target o (template t) = λ w p. tt
  body-Copied target o (cluster_class c) =
      let n = copy_object_for_create o o.key.name target in
      bind-Ensures Anything Anything (λ u. HasAll target (references c))
        (λ u. Copied target o (cluster_class c))
        (walk_references fault o.key.namespace target (references c))
        (λ u. create_if_not_exists fault n) (walk-HasAll o.key.namespace target (references c))
        (λ u.
          frame-Ensures (HasAll target (references c)) Anything (λ v. Has (copy_key target o))
            (create_if_not_exists fault n) (create-Extends fault n)
            (HasAll-stays target (references c)) (λ w h. create-Has n w tt))

  all-CopiedAll :
      (target : Text) (os : List Object)
      → Ensures Anything Anything (λ u. CopiedAll target os) (copy_all fault target os)
  unfolding copy_all
  all-CopiedAll target [] = λ w p. tt
  all-CopiedAll target (o ∷ os) =
      bind-Ensures Anything Anything (λ u. Copied target o o.body) (λ u. CopiedAll target (o ∷ os))
        (copy_body fault target o o.body) (λ u. copy_all fault target os)
        (body-Copied target o o.body)
        (λ u.
          frame-Ensures (Copied target o o.body) Anything (λ v. CopiedAll target os)
            (copy_all fault target os) (all-Extends fault target os) (Copied-stays target o o.body)
            (λ w h. all-CopiedAll target os w tt))

  ended_ok :
      (Q : World → Type 0) (r : Result (Unit {0})) (w : World)
      → Ends Anything (λ u. Q) r w
      → r ≡ ok tt
      → Q w
  ended_ok Q (ok u) w h e = h
  ended_ok Q (err t) w h e = absurd (cc e)

  -- If the source classes can be listed and the reconciliation returns no error, then the target
  -- namespace has an object for each of them and for every template that one of them refers to,
  -- whatever calls failed or were answered from a stale cache on the way.
  pub reconcile_complete :
      (source target : Text) (w : World) (os : List Object)
      → (list_source_classes fault source w).0 ≡ ok os
      → (reconcile fault source target w).0 ≡ ok tt
      → CopiedAll target os (reconcile fault source target w).1
  unfolding reconcile
  reconcile_complete source target w os listed done =
      let v = (list_source_classes fault source w).1 in
      let same : reconcile fault source target w ≡ copy_all fault target os v = rw listed refl in
      rw same (
        ended_ok (CopiedAll target os) (copy_all fault target os v).0 (copy_all fault target os v).1
          (all-CopiedAll target os v tt) (rw same at done))
