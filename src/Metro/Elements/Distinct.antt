-- ===== src/Metro/Elements/Distinct.antt =====
-- Lists of Prism Element UUIDs in which every entry stands once, as the loops over the failure domains
-- build them.
use cluster_api_runtime_exte.Prelude.{
  ◌≡◌, ◌≢◌, refl, sym, ◌∙◌, true, List, [], ◌∷◌, ◌++◌, Text, text_eq, text_eq_iff, length, Any,
  Bool-cases, ◌⊎◌, inl, inr, arith,
}
use cluster_api_runtime_exte.Metro.Domains.{member}
use cluster_api_runtime_exte.Metro.Elements.{add_element}

abbrev pub In : Text → List Text → Type 0
In x = Any (λ y. x ≡ y)

abbrev pub Distinct : List Text → Type 0
Distinct [] = Unit {0}
Distinct (x ∷ xs) = (In x xs → ⊥) × Distinct xs

pub member-In : (x : Text) (xs : List Text) → member x xs ≡ true → In x xs
unfolding member
member-In x [] h = absurd (cc h)
member-In x (y ∷ ys) h = elim (Bool-cases (text_eq y x)) [
  | inl e ↦ inl (sym ((text_eq_iff y x).0 e))
  | inr e ↦ inr (member-In x ys (rw e at h))
]

pub In-member : (x : Text) (xs : List Text) → In x xs → member x xs ≡ true
unfolding member
In-member x [] a = absurd a
In-member x (y ∷ ys) (inl e) = let same = (text_eq_iff y x).1 (sym e) in rw same refl
In-member x (y ∷ ys) (inr a) = ground (arith, In-member x ys a)

pub In-append_left : (x : Text) (xs ys : List Text) → In x xs → In x (xs ++ ys)
In-append_left x [] ys a = absurd a
In-append_left x (y ∷ xs) ys (inl e) = inl e
In-append_left x (y ∷ xs) ys (inr a) = inr (In-append_left x xs ys a)

pub In-append_right : (x : Text) (xs ys : List Text) → In x ys → In x (xs ++ ys)
In-append_right x [] ys a = a
In-append_right x (y ∷ xs) ys a = inr (In-append_right x xs ys a)

pub In-append : (x : Text) (xs ys : List Text) → In x (xs ++ ys) → In x xs ⊎ In x ys
In-append x [] ys a = inr a
In-append x (y ∷ xs) ys (inl e) = inl (inl e)
In-append x (y ∷ xs) ys (inr a) = elim (In-append x xs ys a) [ inl b ↦ inl (inr b) | inr b ↦ inr b ]

pub Distinct-snoc :
    (xs : List Text) (u : Text) → Distinct xs → (In u xs → ⊥) → Distinct (xs ++ (u ∷ []))
Distinct-snoc [] u d out = (λ a. a, tt)
Distinct-snoc (x ∷ xs) u d out = (
  λ a. elim (In-append x xs (u ∷ []) a) [
    | inl b ↦ d.0 b
    | inr b ↦ elim b [ inl e ↦ out (inl (sym e)) | inr c ↦ absurd c ]
  ],
  Distinct-snoc xs u d.1 (λ a. out (inr a)),
)

pub add-Distinct : (xs : List Text) (u : Text) → Distinct xs → Distinct (add_element xs u)
unfolding add_element
add-Distinct xs u d = elim (Bool-cases (member u xs)) [
  | inl e ↦ rw e d
  | inr e ↦ rw e (Distinct-snoc xs u d (λ a. absurd (cc (In-member u xs a, e))))
]

pub In-add_self : (xs : List Text) (u : Text) → In u (add_element xs u)
unfolding add_element
In-add_self xs u = elim (Bool-cases (member u xs)) [
  | inl e ↦ rw e (member-In u xs e)
  | inr e ↦ rw e (In-append_right u xs (u ∷ []) (inl refl))
]

pub In-add_old : (x : Text) (xs : List Text) (u : Text) → In x xs → In x (add_element xs u)
unfolding add_element
In-add_old x xs u a = elim (Bool-cases (member u xs)) [
  | inl e ↦ rw e a
  | inr e ↦ rw e (In-append_left x xs (u ∷ []) a)
]

pub In-add : (x : Text) (xs : List Text) (u : Text) → In x (add_element xs u) → In x xs ⊎ (x ≡ u)
unfolding add_element
In-add x xs u a = elim (Bool-cases (member u xs)) [
  | inl e ↦ inl (rw e at a)
  | inr e ↦ elim (In-append x xs (u ∷ []) (rw e at a)) [
    | inl b ↦ inl b
    | inr b ↦ elim b [ inl s ↦ inr s | inr c ↦ absurd c ]
  ]
]

-- Three texts among two are not distinct.
pub two_of :
    (x y z : Text) (a b : Text)
    → (x ≡ a) ⊎ (x ≡ b)
    → (y ≡ a) ⊎ (y ≡ b)
    → (z ≡ a) ⊎ (z ≡ b)
    → (x ≡ y) ⊎ ((x ≡ z) ⊎ (y ≡ z))
two_of x y z a b (inl p) (inl q) r = inl (p ∙ sym q)
two_of x y z a b (inr p) (inr q) r = inl (p ∙ sym q)
two_of x y z a b (inl p) (inr q) (inl r) = inr (inl (p ∙ sym r))
two_of x y z a b (inl p) (inr q) (inr r) = inr (inr (q ∙ sym r))
two_of x y z a b (inr p) (inl q) (inl r) = inr (inr (q ∙ sym r))
two_of x y z a b (inr p) (inl q) (inr r) = inr (inl (p ∙ sym r))

pub length_two :
    (xs : List Text) (a b : Text)
    → Distinct xs
    → ((x : Text) → In x xs → (x ≡ a) ⊎ (x ≡ b))
    → a ≢ b
    → In a xs
    → In b xs
    → length xs ≡ 2
length_two [] a b d only apart ha hb = absurd ha
length_two (x ∷ []) a b d only apart (inl p) (inl q) = absurd (apart (p ∙ sym q))
length_two (x ∷ []) a b d only apart (inl p) (inr q) = absurd q
length_two (x ∷ []) a b d only apart (inr p) hb = absurd p
length_two (x ∷ y ∷ []) a b d only apart ha hb = refl
length_two (x ∷ y ∷ z ∷ zs) a b d only apart ha hb =
    elim (two_of x y z a b (only x (inl refl)) (only y (inr (inl refl)))
      (only z (inr (inr (inl refl))))) [
        | inl p ↦ absurd (d.0 (inl p))
        | inr r ↦ elim r [ inl p ↦ absurd (d.0 (inr (inl p))) | inr p ↦ absurd (d.1.0 (inl p)) ]
      ]
