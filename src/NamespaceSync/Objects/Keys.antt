-- ===== src/NamespaceSync/Objects/Keys.antt =====
-- Equality of keys, and looking an object up in the store.
use cluster_api_runtime_exte.Prelude.{
  ◌≡◌, refl, true, List, [], ◌∷◌, ◌++◌, Option, none, some, text_eq_iff, text_eq_refl,
  if◌then◌else◌, arith,
}
use cluster_api_runtime_exte.NamespaceSync.Objects.{Key, Object, key_eq}

pub key_eq_refl : (k : Key) → key_eq k k ≡ true
unfolding key_eq
key_eq_refl k = rw (text_eq_refl k.kind, text_eq_refl k.namespace, text_eq_refl k.name) refl

pub key_eq→eq : (k l : Key) → key_eq k l ≡ true → k ≡ l
unfolding key_eq
key_eq→eq k l h = ground (
  arith,
  text_eq_iff k.kind l.kind,
  text_eq_iff k.namespace l.namespace,
  text_eq_iff k.name l.name,
)

unfoldable pub find : Key → List Object → Option Object
find k [] = none
find k (o ∷ os) = if key_eq o.key k then some o else find k os

pub find-key : (k : Key) (os : List Object) (o : Object) → find k os ≡ some o → o.key ≡ k
unfolding find
find-key k [] o h = absurd (cc h)
find-key k (x ∷ os) o h = ground (arith, key_eq→eq x.key k, find-key k os o)

pub find-append_found :
    (k : Key) (os : List Object) (n o : Object)
    → find k os ≡ some o
    → find k (os ++ (n ∷ [])) ≡ some o
unfolding find
find-append_found k [] n o h = absurd (cc h)
find-append_found k (x ∷ os) n o h = ground (arith, find-append_found k os n o)

pub find-append_none :
    (k : Key) (os : List Object) (n : Object)
    → find k os ≡ none
    → find k (os ++ (n ∷ [])) ≡ (if key_eq n.key k then some n else none)
unfolding find
find-append_none k [] n h = refl
find-append_none k (x ∷ os) n h = ground (arith, find-append_none k os n)
