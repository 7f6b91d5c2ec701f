-- ===== src/FailureDomains/Distribution/Improve.antt =====
-- `canImproveWithMoreFDs` and `shouldImproveDistribution` against placements that are better.
use Prim.Native.Nat.{max}
use cluster_api_runtime_exte.Prelude.{
  ℕ, suc, ◌+◌, ◌≤◌, ◌<◌, ◌≡◌, refl, sym, ap, ◌∙◌, ◌↔◌, ◌⊎◌, inl, inr, true, false, List, [], ◌∷◌,
  map, some, Text, arith, length, any, ltb, ◌==◌, if◌then◌else◌, Bool-cases, ltb→lt,
}
use cluster_api_runtime_exte.FailureDomains.Distribution.{
  Counts, max_ideal, optimal_at_max, max_scan, has_suboptimal, can_improve, should_improve,
}
use cluster_api_runtime_exte.FailureDomains.Distribution.Ideal.{
  max_of, tally, Better, IsPlacement, ideal_minimal, balanced, balanced-IsPlacement, balanced-score,
}

abbrev pub counts : Counts → List ℕ
counts distribution = map (λ entry. entry.1) distribution

lt-or-ge : (x y : ℕ) → (x < y) ⊎ (y ≤ x)
lt-or-ge x y = grind arith

tally_above : (b : ℕ) (p : List ℕ) → max_of p < b → tally b p ≡ 0
tally_above b [] h = refl
tally_above b (x ∷ xs) h = ground (arith, tally_above b xs)

-- One pass over the map finds the largest count.
max_scan-max : (b k : ℕ) (d : Counts) → (max_scan b k d).0 ≡ max b (max_of (counts d))
unfolding max_scan
max_scan-max b k [] = omega arith
max_scan-max b k (e ∷ d) = ground (
  arith,
  max_scan-max (if ltb b e.1 then e.1 else b)
      (if ltb b e.1 then 1 else if e.1 == b then k + 1 else k) d,
)

-- What one entry `x` adds to the number of domains at the final maximum `top`.
count_step :
    (b k x top t : ℕ)
    → b ≤ top
    → x ≤ top
    → t
        + (if top == (if ltb b x then x else b)
            then (if ltb b x then 1 else if x == b then k + 1 else k)
            else 0)
      ≡ (if x == top then suc t else t) + (if top == b then k else 0)
count_step b k x top t hb hx = ground arith

-- And it counts the domains that have the largest count.
max_scan-tally :
    (b k : ℕ) (d : Counts)
    → (max_scan b k d).1
      ≡ tally (max_scan b k d).0 (counts d) + (if (max_scan b k d).0 == b then k else 0)
unfolding max_scan
max_scan-tally b k [] = ground arith
max_scan-tally b k (e ∷ d) =
    let b' = if ltb b e.1 then e.1 else b in
    let k' = if ltb b e.1 then 1 else if e.1 == b then k + 1 else k in
    let top = (max_scan b' k' d).0 in
    let reached : (b ≤ top) × (e.1 ≤ top) = ground (arith, max_scan-max b' k' d) in
    max_scan-tally b' k' d ∙ count_step b k e.1 top (tally top (counts d)) reached.0 reached.1

pub max_scan_lem :
    (d : Counts) → max_scan 0 0 d ≡ (max_of (counts d), tally (max_of (counts d)) (counts d))
max_scan_lem d =
    let top = max_scan-max 0 0 d in
    let same : (max_scan 0 0 d).0 ≡ max_of (counts d) = omega (arith, top) in
    let most = tally (max_scan 0 0 d).0 (counts d) in
    let q : (max_scan 0 0 d).1 ≡ most = ground (arith, max_scan-tally 0 0 d) in
    let q' : (max_scan 0 0 d).1 ≡ tally (max_of (counts d)) (counts d) =
      q ∙ ap (λ (t : ℕ). tally t (counts d)) same in
    λ i. (same i, q' i)

-- The ideal placement would be better than `p`, by the numbers that the code compares.
abbrev Improvable : ℕ → ℕ → List ℕ → Type 0
Improvable r a p =
    (max_ideal r a < max_of p)
    ⊎ ((max_ideal r a ≡ max_of p) × (optimal_at_max r a < tally (max_of p) p))

Improvable-Better :
    (r a : ℕ) (p q : List ℕ) → 0 < a → IsPlacement r a p → Better p q → Improvable r a q
Improvable-Better r a p q h pl (inl lt) = let least = ideal_minimal r a p h pl in inl (omega arith)
Improvable-Better r a p q h pl (inr (e, lt)) =
    let least = ideal_minimal r a p h pl in
    elim (lt-or-ge (max_ideal r a) (max_of q)) [
      | inl less ↦ inl less
      | inr more ↦
          let same : max_of p ≡ max_ideal r a = omega arith in
          inr (omega arith, omega (arith, least.1 same))
    ]

Better-balanced : (r a : ℕ) (q : List ℕ) → 0 < a → Improvable r a q → Better (balanced r a) q
Better-balanced r a q h (inl lt) = inl (omega (arith, balanced-score r a h))
Better-balanced r a q h (inr (e, lt)) =
    let score = balanced-score r a h in inr (score.0 ∙ e, rw score.1 lt)

module _ (d : Counts) (r a : ℕ) (used : 0 < length d) (some_replicas : 0 < r)
    (spare : length d < a) where
  can_improve-Improvable : (can_improve d r a ≡ true) ↔ Improvable r a (counts d)
  unfolding can_improve
  can_improve-Improvable = rw (max_scan_lem d) (ground arith)

  -- With machines on fewer domains than are available, more domains are found to help exactly if
  -- some way to run the replicas on the available domains has a smaller largest count, or as large
  -- a one on fewer domains.
  pub can_improve-Better :
      (can_improve d r a ≡ true) ↔ ((p : List ℕ) × IsPlacement r a p × Better p (counts d))
  can_improve-Better = (
    λ h. (
      balanced r a,
      balanced-IsPlacement r a (omega arith),
      Better-balanced r a (counts d) (omega arith) (can_improve-Improvable.0 h),
    ),
    λ (p, pl, b). can_improve-Improvable.1 (Improvable-Better r a p (counts d) (omega arith) pl b),
  )

any-ltb : (b : ℕ) (d : Counts) → any (λ e. ltb b e.1) d ≡ ltb b (max_of (counts d))
any-ltb b [] = ground arith
any-ltb b (e ∷ d) = ground (arith, any-ltb b d)

pub has_suboptimal_lem :
    (d : Counts) (r a : ℕ) → has_suboptimal d r a ≡ ltb (max_ideal r a) (max_of (counts d))
unfolding has_suboptimal
has_suboptimal_lem d r a = any-ltb (max_ideal r a) d

can_improve-guards :
    (d : Counts) (r a : ℕ) → can_improve d r a ≡ true → (0 < length d) × (0 < r) × (length d < a)
unfolding can_improve
can_improve-guards d r a h = ground arith

should_improve-Improvable :
    (r : ℕ) (d : Counts) (names : List Text)
    → should_improve (some r) d names ≡ true
    → Improvable r (length names) (counts d)
unfolding should_improve
should_improve-Improvable r d names h = elim (Bool-cases (has_suboptimal d r (length names))) [
  | inl high ↦ inl (ltb→lt _ _ (sym (has_suboptimal_lem d r (length names)) ∙ high))
  | inr low ↦
      let better : can_improve d r (length names) ≡ true = ground arith in
      let g = can_improve-guards d r (length names) better in
      (can_improve-Improvable d r (length names) g.0 g.1 g.2).0 better
]

-- A rollout for a better distribution is asked for only if the replicas can be placed better on the
-- available failure domains than they are.
pub should_improve_sound :
    (replicas : ℕ) (distribution : Counts) (available : List Text)
    → 0 < length available
    → should_improve (some replicas) distribution available ≡ true
    → (p : List ℕ) × IsPlacement replicas (length available) p × Better p (counts distribution)
should_improve_sound r d names h s = (
  balanced r (length names),
  balanced-IsPlacement r (length names) h,
  Better-balanced r (length names) (counts d) h (should_improve-Improvable r d names s),
)

-- If there is an available failure domain and no placement of the replicas on the available domains
-- is better than that of the machines, the distribution is not to be improved.
pub should_improve_stable :
    (replicas : ℕ) (distribution : Counts) (available : List Text)
    → 0 < length available
    → ((p : List ℕ) → IsPlacement replicas (length available) p → ¬ Better p (counts distribution))
    → should_improve (some replicas) distribution available ≡ false
should_improve_stable r d names h best = elim (Bool-cases (should_improve (some r) d names)) [
  | inr quiet ↦ quiet
  | inl asked ↦ let (p, pl, b) = should_improve_sound r d names h asked in absurd (best p pl b)
]

-- While domains are to spare, a placement that is better than the current one is never missed.
pub should_improve_complete :
    (replicas : ℕ) (distribution : Counts) (available : List Text) (p : List ℕ)
    → 0 < replicas
    → 0 < length distribution
    → length distribution < length available
    → IsPlacement replicas (length available) p
    → Better p (counts distribution)
    → should_improve (some replicas) distribution available ≡ true
unfolding should_improve
should_improve_complete r d names p hr hd spare pl b =
    let found = (can_improve-Better d r (length names) hd hr spare).1 (p, pl, b) in ground arith
