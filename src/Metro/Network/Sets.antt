-- ===== src/Metro/Network/Sets.antt =====
-- Membership in the lists that stand for Go's sets of texts.
use cluster_api_runtime_exte.Prelude.{
  suc, ◌≤◌, ◌≡◌, ◌↔◌, refl, sym, subst, true, List, [], ◌∷◌, some, Text, text_eq, text_eq_iff,
  length, all, All, lookup, ◌==◌, ==_iff, Bool-cases, inl, inr, arith,
}
use cluster_api_runtime_exte.Metro.Domains.{insert_name, text_ltb, member}
use cluster_api_runtime_exte.Metro.Elements.Distinct.{In, Distinct, member-In, In-member}
use cluster_api_runtime_exte.Metro.Network.{string_set_equal, equal_subnet_profile_sets}

pub In-insert_self : (x : Text) (xs : List Text) → In x (insert_name x xs)
unfolding insert_name
In-insert_self x [] = inl refl
In-insert_self x (y ∷ ys) = elim (Bool-cases (text_eq x y)) [
  | inl e ↦ rw (insert_name, e) (inl ((text_eq_iff x y).0 e))
  | inr e ↦ elim (Bool-cases (text_ltb x y)) [
    | inl l ↦ rw (insert_name, e, l) (inl refl)
    | inr l ↦ rw (insert_name, e, l) (inr (In-insert_self x ys))
  ]
]

pub In-insert_old : (z x : Text) (xs : List Text) → In z xs → In z (insert_name x xs)
unfolding insert_name
In-insert_old z x [] a = absurd a
In-insert_old z x (y ∷ ys) a = elim (Bool-cases (text_eq x y)) [
  | inl e ↦ rw (insert_name, e) a
  | inr e ↦ elim (Bool-cases (text_ltb x y)) [
    | inl l ↦ rw (insert_name, e, l) (inr a)
    | inr l ↦ elim a [
      | inl s ↦ rw (insert_name, e, l) (inl s)
      | inr later ↦ rw (insert_name, e, l) (inr (In-insert_old z x ys later))
    ]
  ]
]

-- A list without one occurrence of an entry of it.
without : (x : Text) (ys : List Text) → In x ys → List Text
without x [] a = []
without x (y ∷ ys) (inl e) = ys
without x (y ∷ ys) (inr a) = y ∷ without x ys a

length-without :
    (x : Text) (ys : List Text) (a : In x ys) → length ys ≡ suc (length (without x ys a))
unfolding without
length-without x [] a = absurd a
length-without x (y ∷ ys) (inl e) = refl
length-without x (y ∷ ys) (inr a) = ground (arith, length-without x ys a)

In-without :
    (x z : Text) (ys : List Text) (a : In x ys) → In z ys → (x ≡ z → ⊥) → In z (without x ys a)
unfolding without
In-without x z [] a b apart = absurd a
In-without x z (y ∷ ys) (inl e) (inl p) apart = absurd (apart (cc (e, p)))
In-without x z (y ∷ ys) (inl e) (inr b) apart = b
In-without x z (y ∷ ys) (inr a) (inl p) apart = inl p
In-without x z (y ∷ ys) (inr a) (inr b) apart = inr (In-without x z ys a b apart)

length-subset :
    (xs ys : List Text) → Distinct xs → ((x : Text) → In x xs → In x ys) → length xs ≤ length ys
length-subset [] ys d sub = ground arith
length-subset (x ∷ xs) ys d sub =
    let a = sub x (inl refl) in
    let rest = length-subset xs (without x ys a) d.1 (λ z b.
      In-without x z ys a (sub z (inr b)) (λ e. d.0 (subst (λ (v : Text). In v xs) (sym e) b))) in
    ground (arith, rest, length-without x ys a)

-- A set within another of the same size is all of it.
subset_back :
    (xs ys : List Text)
    → Distinct xs
    → ((x : Text) → In x xs → In x ys)
    → length xs ≡ length ys
    → (y : Text) → In y ys
    → In y xs
subset_back xs ys d sub len y b = elim (Bool-cases (member y xs)) [
  | inl e ↦ member-In y xs e
  | inr e ↦
      let more =
        length-subset (y ∷ xs) ys ((λ a. absurd (cc (In-member y xs a, e))), d)
          (λ z a. elim a [ inl p ↦ subst (λ (v : Text). In v ys) (sym p) b | inr c ↦ sub z c ]) in
      ground (arith, more, len)
]

members-In : (xs ys : List Text) → all (λ x. member x ys) xs ≡ true → (x : Text) → In x xs → In x ys
members-In [] ys h x a = absurd a
members-In (y ∷ xs) ys h x (inl e) =
    let here : member y ys ≡ true = ground (arith, h) in
    subst (λ (v : Text). In v ys) (sym e) (member-In y ys here)
members-In (y ∷ xs) ys h x (inr a) = members-In xs ys (ground (arith, h)) x a

In-members :
    (xs ys : List Text) → ((x : Text) → In x xs → In x ys) → all (λ x. member x ys) xs ≡ true
In-members [] ys sub = refl
In-members (y ∷ xs) ys sub =
    let here = In-member y ys (sub y (inl refl)) in
    let rest = In-members xs ys (λ x a. sub x (inr a)) in ground (arith, here, rest)

pub set_equal-In :
    (xs ys : List Text)
    → Distinct xs
    → string_set_equal xs ys ≡ true
    → (x : Text) → (In x xs ↔ In x ys)
unfolding string_set_equal
set_equal-In xs ys d h x =
    let len : (length xs == length ys) ≡ true = ground (arith, h) in
    let within = members-In xs ys (ground (arith, h)) in
    (within x, subset_back xs ys d within ((==_iff (length xs) (length ys)).0 len) x)

some_injective : (a b : List Text) → some a ≡ some b → a ≡ b
some_injective a b h = cc h

entry-In :
    (base : List Text) (m : List (Text × List Text)) (fd : Text) (ps : List Text)
    → Distinct base
    → all (λ (p : Text × List Text). string_set_equal base p.1) m ≡ true
    → lookup fd m ≡ some ps
    → (x : Text) → (In x base ↔ In x ps)
unfolding lookup
entry-In base [] fd ps d h l x = absurd (cc l)
entry-In base ((j, qs) ∷ m) fd ps d h l x = elim (Bool-cases (text_eq j fd)) [
  | inl e ↦
      let same : qs ≡ ps = some_injective qs ps (rw (e, lookup) at l) in
      rw same at (set_equal-In base qs d (ground (arith, h)) x)
  | inr e ↦ entry-In base m fd ps d (ground (arith, h)) (rw (e, lookup) at l) x
]

set_equal_refl : (xs : List Text) → string_set_equal xs xs ≡ true
unfolding string_set_equal
set_equal_refl xs =
    let len = (==_iff (length xs) (length xs)).1 refl in
    let within = In-members xs xs (λ x a. a) in ground (arith, len, within)

base_all :
    (base : List Text) (m : List (Text × List Text)) (j : Text)
    → Distinct base
    → all (λ (p : Text × List Text). string_set_equal base p.1) m ≡ true
    → all (λ (p : Text × List Text). string_set_equal base p.1) ((j, base) ∷ m) ≡ true
base_all base m j d h = ground (arith, h, set_equal_refl base)

-- Where the failure domains' profile sets are equal, so are those of any two of them.
pub profiles-In :
    (m : List (Text × List Text)) (fd fe : Text) (ps qs : List Text)
    → All (λ (p : Text × List Text). Distinct p.1) m
    → equal_subnet_profile_sets m ≡ true
    → lookup fd m ≡ some ps
    → lookup fe m ≡ some qs
    → (x : Text) → In x ps
    → In x qs
unfolding equal_subnet_profile_sets lookup
profiles-In [] fd fe ps qs d h l k x a = absurd (cc l)
profiles-In ((j, base) ∷ m) fd fe ps qs d h l k x a =
    let whole = base_all base m j d.0 h in
    (entry-In base ((j, base) ∷ m) fe qs d.0 whole k x).0
      ((entry-In base ((j, base) ∷ m) fd ps d.0 whole l x).1 a)
