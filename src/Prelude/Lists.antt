-- ===== src/Prelude/Lists.antt =====
-- Lists measured by native numbers, Boolean folds over lists, and predicates by recursion.
use Prim.Native.Nat.{ℕ, suc, ◌+◌}
use mathlib.Core.Path.{◌≡◌, refl}
use mathlib.Core.Logic.{◌⊎◌, inl, inr}
use mathlib.Core.Bool.{Bool, true, false, ◌&&◌, ◌||◌}
use mathlib.Core.List.{List, [], ◌∷◌, ◌++◌, map, append_assoc}
use native.Mathlib.Omega.{arith}

module _ {ℓ} {A : Type ℓ} where
  abbrev pub length : List A → ℕ
  length [] = 0
  length (x ∷ xs) = suc (length xs)

  abbrev pub any : (A → Bool) → List A → Bool
  any p [] = false
  any p (x ∷ xs) = p x || any p xs

  abbrev pub all : (A → Bool) → List A → Bool
  all p [] = true
  all p (x ∷ xs) = p x && all p xs

  abbrev pub filter_by : (A → Bool) → List A → List A
  filter_by p [] = []
  filter_by p (x ∷ xs) = let rest = filter_by p xs in elim (p x) [ true ↦ x ∷ rest | false ↦ rest ]

  abbrev pub concat : List (List A) → List A
  concat [] = []
  concat (xs ∷ xss) = xs ++ concat xss

  -- An entry of the list, with the proof that `P` holds of it.
  abbrev pub Any : (A → Type 0) → List A → Type 0
  Any P [] = ⊥
  Any P (x ∷ xs) = P x ⊎ Any P xs

  abbrev pub All {κ} : (A → Type κ) → List A → Type κ
  All P [] = Unit
  All P (x ∷ xs) = P x × All P xs

module _ {ℓ} {A : Type ℓ} where
  pub length-append : (xs ys : List A) → length (xs ++ ys) ≡ length xs + length ys
  length-append [] ys = omega arith
  length-append (x ∷ xs) ys = omega (arith, length-append xs ys)

  pub any-append : (p : A → Bool) (xs ys : List A) → any p (xs ++ ys) ≡ (any p xs || any p ys)
  any-append p [] ys = refl
  any-append p (x ∷ xs) ys = ground (arith, any-append p xs ys)

  pub all-append : (p : A → Bool) (xs ys : List A) → all p (xs ++ ys) ≡ (all p xs && all p ys)
  all-append p [] ys = refl
  all-append p (x ∷ xs) ys = ground (arith, all-append p xs ys)

  pub all-concat : (p : A → Bool) (xss : List (List A)) → all p (concat xss) ≡ all (all p) xss
  all-concat p [] = refl
  all-concat p (xs ∷ xss) = rw (all-append p xs (concat xss), all-concat p xss) refl

  pub any-concat : (p : A → Bool) (xss : List (List A)) → any p (concat xss) ≡ any (any p) xss
  any-concat p [] = refl
  any-concat p (xs ∷ xss) = rw (any-append p xs (concat xss), any-concat p xss) refl

  pub any→Any : (p : A → Bool) (xs : List A) → any p xs ≡ true → Any (λ x. p x ≡ true) xs
  any→Any p [] h = cc
  any→Any p (x ∷ xs) h = ground (arith, any→Any p xs)

  pub Any→any : (p : A → Bool) (xs : List A) → Any (λ x. p x ≡ true) xs → any p xs ≡ true
  Any→any p [] h = absurd h
  Any→any p (x ∷ xs) (inl h) = ground arith
  Any→any p (x ∷ xs) (inr h) = ground (arith, Any→any p xs h)

  pub all→All : (p : A → Bool) (xs : List A) → all p xs ≡ true → All (λ x. p x ≡ true) xs
  all→All p [] h = tt
  all→All p (x ∷ xs) h = (ground arith, all→All p xs (ground arith))

  pub All→all : (p : A → Bool) (xs : List A) → All (λ x. p x ≡ true) xs → all p xs ≡ true
  All→all p [] h = refl
  All→all p (x ∷ xs) h = ground (arith, All→all p xs h.1)

module _ {ℓ κ} {A : Type ℓ} {B : Type κ} where
  -- The results of `f` on the entries, one after the other.
  abbrev pub concat_map : (A → List B) → List A → List B
  concat_map f [] = []
  concat_map f (x ∷ xs) = f x ++ concat_map f xs

  pub concat_map-append :
      (f : A → List B) (xs ys : List A)
      → concat_map f (xs ++ ys) ≡ concat_map f xs ++ concat_map f ys
  concat_map-append f [] ys = refl
  concat_map-append f (x ∷ xs) ys =
      rw (concat_map-append f xs ys) (rw (append_assoc (f x) (concat_map f xs) (concat_map f ys)))

  pub all-map : (p : B → Bool) (f : A → B) (xs : List A) → all p (map f xs) ≡ all (λ x. p (f x)) xs
  all-map p f [] = refl
  all-map p f (x ∷ xs) = rw (all-map p f xs)

  pub any-map : (p : B → Bool) (f : A → B) (xs : List A) → any p (map f xs) ≡ any (λ x. p (f x)) xs
  any-map p f [] = refl
  any-map p f (x ∷ xs) = rw (any-map p f xs)
