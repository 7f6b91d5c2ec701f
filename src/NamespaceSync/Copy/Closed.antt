-- ===== src/NamespaceSync/Copy/Closed.antt =====
-- The invariant of the target namespace: a class stands there only with all its templates.
use cluster_api_runtime_exte.Prelude.{
  ℕ, ◌+◌, ◌≡◌, ◌≢◌, refl, sym, ap, ◌∙◌, subst, List, [], ◌∷◌, ◌++◌, Option, none, some, Text,
  Bool-cases, inl, inr, All, is_empty,
}
use cluster_api_runtime_exte.NamespaceSync.Objects.{
  Key, Ref, ClassSpec, Body, cluster_class, template, Object, class_kind, copy_object_for_create,
  references, body_refs, ref_key, key_eq,
}
use cluster_api_runtime_exte.NamespaceSync.Objects.Keys.{find, find-key, find-append_found}
use cluster_api_runtime_exte.NamespaceSync.Server.{
  World, Fault, no_fault, stale, call_error, Result, ok, err, called, Got, found, not_found,
  get_failed, answer, get, created, create, reference_of, get_reference, create_missing,
  create_if_not_exists,
}
use cluster_api_runtime_exte.NamespaceSync.Copy.{
  copy_template, walk_references, copy_class, copy_body, copy_all, is_source, in_namespace,
  list_answer, list_source_classes, reconcile,
}
use cluster_api_runtime_exte.NamespaceSync.Copy.Rules.{
  Ends, Ensures, Extends, bind-Ensures, both-Ensures, weaker_ends,
}
use cluster_api_runtime_exte.NamespaceSync.Copy.Complete.{
  HasAll, HasAll-stays, Anything, Read, reference-Read, walk-HasAll,
}

-- Only a ClusterClass has references, and none to a ClusterClass.
pub record IsTyped (o : Object) : Type 0 where
  pub plain : o.key.kind ≢ class_kind → body_refs o.body ≡ []
  pub flat : All (λ r. r.kind ≢ class_kind) (body_refs o.body)

pub record IsGood (target : Text) (w : World) (o : Object) : Type 0 where
  pub typed : IsTyped o
  pub complete : o.key.namespace ≡ target → HasAll target (body_refs o.body) w

abbrev pub IsValid : Text → World → Type 0
IsValid target w = All (IsGood target w) w.objects

module _ {P Q : Object → Type 0} (f : (o : Object) → P o → Q o) where
  All-map : (os : List Object) → All P os → All Q os
  All-map [] h = tt
  All-map (o ∷ os) h = (f o h.0, All-map os h.1)

All-snoc :
    (P : Object → Type 0) (os : List Object) (n : Object) → All P os → P n → All P (os ++ (n ∷ []))
All-snoc P [] n h p = (p, tt)
All-snoc P (o ∷ os) n h p = (h.0, All-snoc P os n h.1 p)

some_injective : (x o : Object) → some x ≡ some o → x ≡ o
some_injective x o h = cc h

find-All :
    (P : Object → Type 0) (k : Key) (os : List Object) (o : Object)
    → All P os
    → find k os ≡ some o
    → P o
unfolding find
find-All P k [] o a h = absurd (cc h)
find-All P k (x ∷ os) o a h = elim (Bool-cases (key_eq x.key k)) [
  | inl e ↦ subst P (some_injective x o (rw e at h)) a.0
  | inr e ↦ find-All P k os o a.1 (rw e at h)
]

module _ (fault : ℕ → Fault) (target : Text) where
  Good_stays : (w v : World) → Extends w v → (o : Object) → IsGood target w o → IsGood target v o
  Good_stays w v more o g = record {
    typed = g.typed;
    complete = λ e. HasAll-stays fault target (body_refs o.body) w v more (g.complete e);
  }

  -- An object that may be created.
  abbrev Fits : Object → World → Type 0
  Fits n w = IsTyped n × HasAll target (body_refs n.body) w

  called-IsValid : (w : World) → IsValid target w → IsValid target (called w)
  called-IsValid w v = All-map (Good_stays w (called w) (λ k o h. h)) w.objects v

  grown-IsValid :
      (n : Object) (w : World)
      → IsValid target w
      → Fits n w
      → IsValid target (record { objects = w.objects ++ (n ∷ []); calls = w.calls + 1 })
  grown-IsValid n w v fits =
      let w' : World = record { objects = w.objects ++ (n ∷ []); calls = w.calls + 1 } in
      let more : Extends w w' = λ k o h. find-append_found k w.objects n o h in
      All-snoc (IsGood target w') w.objects n (All-map (Good_stays w w' more) w.objects v) (record {
        typed = fits.0;
        complete = λ e. HasAll-stays fault target (body_refs n.body) w w' more fits.1;
      })

  created-IsValid :
      (n : Object) (w : World) (old : Option Object) (f : Fault)
      → IsValid target w
      → Fits n w
      → Ends (IsValid target) (λ u. IsValid target) (created n w old f).0 (created n w old f).1
  unfolding created
  created-IsValid n w none no_fault v fits = grown-IsValid n w v fits
  created-IsValid n w none stale v fits = grown-IsValid n w v fits
  created-IsValid n w none (call_error e) v fits = called-IsValid w v
  created-IsValid n w (some old) no_fault v fits = called-IsValid w v
  created-IsValid n w (some old) stale v fits = called-IsValid w v
  created-IsValid n w (some old) (call_error e) v fits = called-IsValid w v

  missing-IsValid :
      (n : Object) (g : Got) (w : World)
      → IsValid target w
      → Fits n w
      → Ends
          (IsValid target)
          (λ u. IsValid target)
          (create_missing fault n g w).0
          (create_missing fault n g w).1
  unfolding create_missing create
  missing-IsValid n (found old) w v fits = v
  missing-IsValid n not_found w v fits =
      created-IsValid n w (find n.key w.objects) (fault w.calls) v fits
  missing-IsValid n (get_failed e) w v fits = v

  create-IsValid :
      (n : Object)
      → Ensures
          (λ w. IsValid target w × Fits n w)
          (IsValid target)
          (λ u. IsValid target)
          (create_if_not_exists fault n)
  unfolding create_if_not_exists get
  create-IsValid n w h =
      missing-IsValid n (answer (find n.key w.objects) (fault w.calls)) (called w)
        (called-IsValid w h.0)
        (h.1.0, HasAll-stays fault target (body_refs n.body) w (called w) (λ k o e. e) h.1.1)

  Read-IsValid :
      (k : Key) (r : Result Object) (w : World)
      → IsValid target w
      → Ends Anything (Read fault k) r w
      → Ends (IsValid target) (λ t w. IsValid target w × Read fault k t w) r w
  Read-IsValid k (ok t) w v h = (v, h)
  Read-IsValid k (err e) w v h = v

  reference-IsValid :
      (k : Key)
      → Ensures
          (IsValid target)
          (IsValid target)
          (λ t w. IsValid target w × Read fault k t w)
          (get_reference fault k)
  unfolding get_reference get
  reference-IsValid k w v =
      Read-IsValid k (reference_of fault (answer (find k w.objects) (fault w.calls))) (called w)
        (called-IsValid w v) (reference-Read fault k w tt)

  copied-Fits :
      (source : Text) (r : Ref) (t : Object) (w : World)
      → r.kind ≢ class_kind
      → IsValid target w
      → Read fault (ref_key source r) t w
      → Fits (copy_object_for_create t t.key.name target) w
  unfolding copy_object_for_create
  copied-Fits source r t w other v read =
      let typed = (find-All (IsGood target w) (ref_key source r) w.objects t v read).typed in
      let kind : t.key.kind ≡ r.kind =
        ap (λ (k : Key). k.kind) (find-key (ref_key source r) w.objects t read) in
      let none_there : body_refs t.body ≡ [] = typed.plain (λ e. other (sym kind ∙ e)) in
      (record { plain = typed.plain; flat = typed.flat }, rw none_there tt)

  template-IsValid :
      (source : Text) (r : Ref)
      → r.kind ≢ class_kind
      → Ensures
          (IsValid target)
          (IsValid target)
          (λ u. IsValid target)
          (copy_template fault source target r)
  unfolding copy_template
  template-IsValid source r other =
      bind-Ensures (IsValid target) (IsValid target)
        (λ t w. IsValid target w × Read fault (ref_key source r) t w) (λ u. IsValid target)
        (get_reference fault (ref_key source r))
        (λ t. create_if_not_exists fault (copy_object_for_create t t.key.name target))
        (reference-IsValid (ref_key source r))
        (λ t w h.
          create-IsValid (copy_object_for_create t t.key.name target) w
            (h.0, copied-Fits source r t w other h.0 h.1))

  walk-IsValid :
      (source : Text) (rs : List Ref)
      → All (λ r. r.kind ≢ class_kind) rs
      → Ensures
          (IsValid target)
          (IsValid target)
          (λ u. IsValid target)
          (walk_references fault source target rs)
  unfolding walk_references
  walk-IsValid source [] flat = λ w v. v
  walk-IsValid source (r ∷ rs) flat =
      bind-Ensures (IsValid target) (IsValid target) (λ u. IsValid target) (λ u. IsValid target)
        (copy_template fault source target r) (λ u. walk_references fault source target rs)
        (template-IsValid source r flat.0) (λ u. walk-IsValid source rs flat.1)

  walk-both :
      (source : Text) (rs : List Ref)
      → All (λ r. r.kind ≢ class_kind) rs
      → Ensures
          (IsValid target)
          (IsValid target)
          (λ u w. IsValid target w × HasAll target rs w)
          (walk_references fault source target rs)
  walk-both source rs flat w v =
      weaker_ends (λ w. IsValid target w × Anything w) (IsValid target)
        (λ u w. IsValid target w × HasAll target rs w)
        (λ u w. IsValid target w × HasAll target rs w) (λ w h. h.0) (λ u w h. h)
        (walk_references fault source target rs w).0 (walk_references fault source target rs w).1
        (both-Ensures (IsValid target) Anything (IsValid target) Anything (λ u. IsValid target)
          (λ u. HasAll target rs) (walk_references fault source target rs)
          (walk-IsValid source rs flat) (walk-HasAll fault source target rs) w (v, tt))

  class-IsValid :
      (o : Object) (c : ClassSpec)
      → o.body ≡ cluster_class c
      → IsTyped o
      → Ensures
          (IsValid target)
          (IsValid target)
          (λ u. IsValid target)
          (copy_class fault target o c)
  unfolding copy_class copy_object_for_create
  class-IsValid o c e typed =
      let refs : body_refs o.body ≡ references c = ap body_refs e in
      bind-Ensures (IsValid target) (IsValid target)
        (λ u w. IsValid target w × HasAll target (references c) w) (λ u. IsValid target)
        (walk_references fault o.key.namespace target (references c))
        (λ u. create_if_not_exists fault (copy_object_for_create o o.key.name target))
        (walk-both o.key.namespace (references c)
          (subst (λ (rs : List Ref). All (λ r. r.kind ≢ class_kind) rs) refs typed.flat))
        (λ u w h. create-IsValid (copy_object_for_create o o.key.name target) w (
          h.0,
          (
            record { plain = typed.plain; flat = typed.flat },
            subst (λ (rs : List Ref). HasAll target rs w) (sym refs) h.1,
          ),
        ))

  body-IsValid :
      (o : Object) (b : Body)
      → o.body ≡ b
      → IsTyped o
      → Ensures (IsValid target) (IsValid target) (λ u. IsValid target) (copy_body fault target o b)
  unfolding copy_body
  body-IsValid o (cluster_class c) e typed = class-IsValid o c e typed
  body-IsValid o (template t) e typed = λ w v. v

  All-IsValid :
      (os : List Object)
      → All IsTyped os
      → Ensures (IsValid target) (IsValid target) (λ u. IsValid target) (copy_all fault target os)
  unfolding copy_all
  All-IsValid [] typed = λ w v. v
  All-IsValid (o ∷ os) typed =
      bind-Ensures (IsValid target) (IsValid target) (λ u. IsValid target) (λ u. IsValid target)
        (copy_body fault target o o.body) (λ u. copy_all fault target os)
        (body-IsValid o o.body refl typed.0) (λ u. All-IsValid os typed.1)

  sources-IsTyped :
      (source : Text) (os : List Object)
      → All IsTyped os
      → All IsTyped (in_namespace fault source os)
  unfolding in_namespace
  sources-IsTyped source [] h = tt
  sources-IsTyped source (o ∷ os) h = elim (Bool-cases (is_source fault source o)) [
    | inl e ↦ rw e (h.0, sources-IsTyped source os h.1)
    | inr e ↦ rw e (sources-IsTyped source os h.1)
  ]

  answer-IsTyped :
      (os : List Object) (f : Fault) (w : World)
      → IsValid target w
      → All IsTyped os
      → Ends (IsValid target) (λ xs w. IsValid target w × All IsTyped xs) (list_answer fault os f) w
  unfolding list_answer
  answer-IsTyped os no_fault w v h = (v, h)
  answer-IsTyped os stale w v h = (v, tt)
  answer-IsTyped os (call_error e) w v h = v

  list-IsTyped :
      (source : Text)
      → Ensures
          (IsValid target)
          (IsValid target)
          (λ xs w. IsValid target w × All IsTyped xs)
          (list_source_classes fault source)
  unfolding list_source_classes
  list-IsTyped source w v = elim (Bool-cases (is_empty source)) [
    | inl e ↦ rw e (v, tt)
    | inr e ↦ rw e (
        answer-IsTyped (in_namespace fault source w.objects) (fault w.calls) (called w)
          (called-IsValid w v)
          (sources-IsTyped source w.objects (All-map (λ o g. g.typed) w.objects v)))
  ]

  ended-IsValid :
      (r : Result (Unit {0})) (w : World)
      → Ends (IsValid target) (λ u. IsValid target) r w
      → IsValid target w
  ended-IsValid (ok u) w h = h
  ended-IsValid (err e) w h = h

  -- A class of the target namespace has all its templates there, before and after a reconciliation,
  -- also after one that fails at any call: a class is created only once its templates are there.
  pub reconcile-IsValid :
      (source : Text) (w : World)
      → IsValid target w
      → IsValid target (reconcile fault source target w).1
  unfolding reconcile
  reconcile-IsValid source w v =
      ended-IsValid (reconcile fault source target w).0 (reconcile fault source target w).1 (
        bind-Ensures (IsValid target) (IsValid target) (λ xs w. IsValid target w × All IsTyped xs)
          (λ u. IsValid target) (list_source_classes fault source) (λ xs. copy_all fault target xs)
          (list-IsTyped source) (λ xs w h. All-IsValid xs h.1 w h.0) w v)
