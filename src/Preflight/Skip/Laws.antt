-- ===== src/Preflight/Skip/Laws.antt =====
-- What the skip annotation means: which names `For` and `ForAll` accept.
use cluster_api_runtime_exte.Prelude.{
  ℕ, ◌≡◌, refl, ◌↔◌, ◌⊎◌, inl, inr, true, ◌&&◌, ◌||◌, List, [], ◌∷◌, Option, some, none, ◌≢◌, All,
  arith, Text, text_eq_iff, text_eq_refl, is_empty, is_space, lower, to_lower, trim_left,
  trim_right, trim_space, split_on, lookup, length, Any, or_split, or_left, or_right, ◌==◌,
  if◌then◌else◌,
}
use cluster_api_runtime_exte.Preflight.Skip.{
  Evaluator, skip_annotation_key, skip_all_value, normalize, contains, collect, from_value,
  evaluate, new, skips, skips_all,
}

lower_idem : (c : ℕ) → lower (lower c) ≡ lower c
unfolding lower
lower_idem c = ground arith

is_space-lower : (c : ℕ) → is_space (lower c) ≡ is_space c
unfolding is_space lower
is_space-lower c = ground arith

to_lower_idem : (s : Text) → to_lower (to_lower s) ≡ to_lower s
unfolding to_lower
to_lower_idem [] = refl
to_lower_idem (c ∷ s) = cc (lower_idem c, to_lower_idem s)

is_empty-to_lower : (s : Text) → is_empty (to_lower s) ≡ is_empty s
unfolding to_lower
is_empty-to_lower [] = refl
is_empty-to_lower (c ∷ s) = refl

trim_left-to_lower : (s : Text) → trim_left (to_lower s) ≡ to_lower (trim_left s)
unfolding trim_left to_lower
trim_left-to_lower [] = refl
trim_left-to_lower (c ∷ s) = rw (is_space-lower c) (ground (arith, trim_left-to_lower s))

trim_right-to_lower : (s : Text) → trim_right (to_lower s) ≡ to_lower (trim_right s)
unfolding trim_right to_lower
trim_right-to_lower [] = refl
trim_right-to_lower (c ∷ s) =
    rw (is_space-lower c) (ground (arith, trim_right-to_lower s, is_empty-to_lower (trim_right s)))

trim_space-to_lower : (s : Text) → trim_space (to_lower s) ≡ to_lower (trim_space s)
unfolding trim_space
trim_space-to_lower s = rw (trim_left-to_lower s) (trim_right-to_lower (trim_left s))

trim_right_idem : (s : Text) → trim_right (trim_right s) ≡ trim_right s
unfolding trim_right
trim_right_idem [] = refl
trim_right_idem (c ∷ s) = ground (arith, trim_right_idem s)

trim_left-trim_right : (s : Text) → trim_left (trim_right (trim_left s)) ≡ trim_right (trim_left s)
unfolding trim_left trim_right
trim_left-trim_right [] = refl
trim_left-trim_right (c ∷ s) = ground (arith, trim_left-trim_right s)

trim_space_idem : (s : Text) → trim_space (trim_space s) ≡ trim_space s
unfolding trim_space
trim_space_idem s = rw (trim_left-trim_right s) (trim_right_idem (trim_left s))

-- A name is normalised once and for all.
pub normalize_idem : (s : Text) → normalize (normalize s) ≡ normalize s
unfolding normalize
normalize_idem s =
    rw (← trim_space-to_lower (to_lower s), to_lower_idem s) (trim_space_idem (to_lower s))

-- The names that an annotation's value asks for: its pieces between commas, without the empty ones.
unfoldable pub requested : List Text → List Text
requested [] = []
requested (p ∷ ps) = let rest = requested ps in if is_empty p then rest else normalize p ∷ rest

contains_iff : (k : Text) (names : List Text) → (contains k names ≡ true) ↔ Any (λ n. k ≡ n) names
unfolding contains
contains_iff k [] = (λ h. cc, λ h. absurd h)
contains_iff k (n ∷ ns) = ground (arith, text_eq_iff k n, contains_iff k ns)

contains-collect :
    (k : Text) (names pieces : List Text)
    → contains k (collect names pieces) ≡ (contains k names || contains k (requested pieces))
unfolding collect requested contains
contains-collect k names [] = ground arith
contains-collect k names (p ∷ ps) = ground (
  arith,
  contains-collect k (if is_empty p then names else (normalize p ∷ names)) ps,
  contains-collect k names ps,
  text_eq_iff k (normalize p),
)

-- The names that the annotation asks for; none, if the cluster has no such annotation.
abbrev pub asked : Option Text → List Text
asked none = []
asked (some value) = requested (split_on b',' value)

abbrev pub asked_of : List (Text × Text) → List Text
asked_of annotations = asked (lookup skip_annotation_key annotations)

-- Every name that is asked for is "all", and there is one.
abbrev pub IsAllOnly : List Text → Type 0
IsAllOnly names = (names ≢ []) × All (λ n. n ≡ skip_all_value) names

All-of_contains :
    (x : Text) (names : List Text)
    → ((n : Text) → Any (λ m. n ≡ m) names → n ≡ x)
    → All (λ n. n ≡ x) names
All-of_contains x [] h = tt
All-of_contains x (n ∷ ns) h = (h n (inl refl), All-of_contains x ns (λ m a. h m (inr a)))

collect-All_again :
    (x : Text) (ps : List Text) → All (λ n. n ≡ x) (requested ps) → collect (x ∷ []) ps ≡ x ∷ []
unfolding collect requested contains
collect-All_again x [] h = refl
collect-All_again x (p ∷ ps) h = ground (arith, collect-All_again x ps, text_eq_iff (normalize p) x)

collect-All :
    (x : Text) (ps : List Text)
    → requested ps ≢ []
    → All (λ n. n ≡ x) (requested ps)
    → collect [] ps ≡ x ∷ []
unfolding collect requested contains
collect-All x [] ne h = absurd (ne refl)
collect-All x (p ∷ ps) ne h =
    ground (arith, collect-All x ps, collect-All_again x ps, text_eq_iff (normalize p) x)

singleton_of_contains :
    (x : Text) (names : List Text) → (contains x names && length names == 1) ≡ true → names ≡ x ∷ []
unfolding contains
singleton_of_contains x [] h = cc
singleton_of_contains x (n ∷ []) h = ground (arith, text_eq_iff x n)
singleton_of_contains x (n ∷ m ∷ ns) h = ground arith

module _ (x : Text) (ps : List Text) (only : collect [] ps ≡ x ∷ []) where
  contains_singleton : (n : Text) → contains n (requested ps) ≡ true → n ≡ x
  unfolding contains
  contains_singleton n h = ground (arith, rw only at (contains-collect n [] ps), text_eq_iff n x)

  requested_nonempty : requested ps ≢ []
  unfolding contains
  requested_nonempty e = ground (arith, rw (only, e) at (contains-collect x [] ps), text_eq_refl x)

  requested-All : All (λ n. n ≡ x) (requested ps)
  requested-All =
      All-of_contains x (requested ps)
        (λ n a. contains_singleton n ((contains_iff n (requested ps)).1 a))

evaluate-IsAllOnly :
    (value : Text)
    → (skips_all (evaluate value) ≡ true) ↔ IsAllOnly (requested (split_on b',' value))
unfolding evaluate skips_all contains
evaluate-IsAllOnly value =
    let pieces = split_on b',' value in
    let found = λ (h : skips_all (evaluate value) ≡ true).
      singleton_of_contains skip_all_value (collect [] pieces) h in
    (
      λ h. (
        requested_nonempty skip_all_value pieces (found h),
        requested-All skip_all_value pieces (found h),
      ),
      λ a. rw (collect-All skip_all_value pieces a.0 a.1, text_eq_refl skip_all_value),
    )

-- `ForAll` holds exactly when the annotation asks for at least one name and every name that it
-- asks for is "all", up to case and surrounding white space; so "all" beside another name does not
-- skip all checks, and neither does an absent annotation.
pub skips_all-new :
    (annotations : List (Text × Text))
    → (skips_all (new annotations) ≡ true) ↔ IsAllOnly (asked_of annotations)
unfolding new skips_all
skips_all-new annotations = go (lookup skip_annotation_key annotations)
  where
    go : (value : Option Text) → (skips_all (from_value value) ≡ true) ↔ IsAllOnly (asked value)
    go none = (λ h. absurd (cc), λ a. absurd (a.0 refl))
    go (some value) = evaluate-IsAllOnly value

skips-evaluate_test :
    (value name : Text)
    → skips (evaluate value) name
      ≡ (skips_all (evaluate value) || contains (normalize name) (requested (split_on b',' value)))
unfolding evaluate skips skips_all contains
skips-evaluate_test value name =
    ground (arith, contains-collect (normalize name) [] (split_on b',' value))

skips-evaluate :
    (value name : Text)
    → (skips (evaluate value) name ≡ true) ↔ (
        IsAllOnly (requested (split_on b',' value))
        ⊎ Any (λ n. normalize name ≡ n) (requested (split_on b',' value)))
skips-evaluate value name =
    let names = requested (split_on b',' value) in
    let all_names = evaluate-IsAllOnly value in
    let one_name = contains_iff (normalize name) names in
    (
      λ h. elim (or_split _ _ (rw (skips-evaluate_test value name) at h)) [
        | inl a ↦ inl (all_names.0 a)
        | inr c ↦ inr (one_name.0 c)
      ],
      λ s.
          rw (skips-evaluate_test value name)
            (elim s [ inl a ↦ or_left _ _ (all_names.1 a) | inr e ↦ or_right _ _ (one_name.1 e) ]),
    )

-- `For` accepts a name exactly when `ForAll` holds or the name, in lower case and trimmed, is one
-- of the names that the annotation asks for.
pub skips-new :
    (annotations : List (Text × Text)) (name : Text)
    → (skips (new annotations) name ≡ true)
      ↔ (IsAllOnly (asked_of annotations) ⊎ Any (λ n. normalize name ≡ n) (asked_of annotations))
unfolding new skips contains
skips-new annotations name = go (lookup skip_annotation_key annotations)
  where
    go :
        (value : Option Text)
        → (skips (from_value value) name ≡ true)
          ↔ (IsAllOnly (asked value) ⊎ Any (λ n. normalize name ≡ n) (asked value))
    go none = (λ h. absurd (cc), λ a. elim a [ inl o ↦ absurd (o.0 refl) | inr e ↦ absurd e ])
    go (some value) = skips-evaluate value name

-- The name of a check may be written in any case and between white space.
pub skips-normalize : (o : Evaluator) (name : Text) → skips o (normalize name) ≡ skips o name
unfolding skips
skips-normalize o name = rw (normalize_idem name)
