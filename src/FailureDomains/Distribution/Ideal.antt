-- ===== src/FailureDomains/Distribution/Ideal.antt =====
-- Placements of machines on failure domains, and the best of them.
use Prim.Native.Nat.{max}
use cluster_api_runtime_exte.Prelude.{
  ℕ, zero, suc, ◌+◌, ◌-◌, ◌*◌, ◌/◌, ◌%◌, ◌≤◌, ◌<◌, ◌≡◌, refl, sym, ap, ◌∙◌, ◌↔◌, ◌⊎◌, inl, inr,
  List, [], ◌∷◌, ◌++◌, arith, length, length-append, ◌==◌, if◌then◌else◌,
}
use cluster_api_runtime_exte.FailureDomains.Distribution.{max_ideal, optimal_at_max}

abbrev pub sum : List ℕ → ℕ
sum [] = 0
sum (x ∷ xs) = x + sum xs

abbrev pub max_of : List ℕ → ℕ
max_of [] = 0
max_of (x ∷ xs) = max x (max_of xs)

-- How many domains have `b` machines.
abbrev pub tally : ℕ → List ℕ → ℕ
tally b [] = 0
tally b (x ∷ xs) = let rest = tally b xs in if x == b then suc rest else rest

abbrev replicate : ℕ → ℕ → List ℕ
replicate zero x = []
replicate (suc n) x = x ∷ replicate n x

-- A smaller maximum, or as large a maximum on fewer domains.
abbrev pub Better : List ℕ → List ℕ → Type 0
Better p q =
    (max_of p < max_of q) ⊎ ((max_of p ≡ max_of q) × (tally (max_of p) p < tally (max_of q) q))

-- A way to run `replicas` machines on `available` domains.
pub record IsPlacement (replicas available : ℕ) (p : List ℕ) : Type 0 where
  pub domains : length p ≡ available
  pub machines : sum p ≡ replicas

sum_bound : (b : ℕ) (p : List ℕ) → max_of p ≤ b → sum p ≤ length p * b
sum_bound b [] h = omega arith
sum_bound b (x ∷ xs) h = let ih = sum_bound b xs (omega arith) in grind arith

-- Each domain below the bound `b` lacks at least one machine.
sum-tally_bound : (b : ℕ) (p : List ℕ) → max_of p ≤ b → sum p + length p ≤ length p * b + tally b p
sum-tally_bound b [] h = omega arith
sum-tally_bound b (x ∷ xs) h = let ih = sum-tally_bound b xs (omega arith) in ground arith

le-or-lt : (x y : ℕ) → (x ≤ y) ⊎ (y + 1 ≤ x)
le-or-lt x y = grind arith

mul_mono : (a x y : ℕ) → x ≤ y → a * x ≤ a * y
mul_mono a x y h = grind arith

mul_suc : (a x : ℕ) → a * (x + 1) ≡ a * x + a
mul_suc a x = omega arith

div_mod : (r a : ℕ) → 0 < a → (r ≡ a * (r / a) + r % a) × (r % a < a)
div_mod r a h = omega arith

-- The two cases of the ideal maximum.
max_ideal-cases :
    (r a : ℕ)
    → 0 < a
    → ((r % a ≡ 0) × (max_ideal r a ≡ r / a)) ⊎ ((0 < r % a) × (max_ideal r a ≡ r / a + 1))
unfolding max_ideal
max_ideal-cases r a h = ground arith

-- The ideal maximum is the least bound under which the machines fit on the domains.
pub max_ideal-le_iff :
    (replicas available b : ℕ)
    → 0 < available
    → (max_ideal replicas available ≤ b) ↔ (replicas ≤ available * b)
max_ideal-le_iff r a b h = elim (max_ideal-cases r a h) [
  | inl (e, m) ↦ (
    λ le. omega (arith, div_mod r a h, mul_mono a (r / a) b (omega arith)),
    λ le. elim (le-or-lt (r / a) b) [
      | inl k ↦ omega arith
      | inr k ↦ absurd (omega (arith, div_mod r a h, mul_mono a (b + 1) (r / a) k, mul_suc a b))
    ],
  )
  | inr (e, m) ↦ (
    λ le. omega (arith, div_mod r a h, mul_mono a (r / a + 1) b (omega arith), mul_suc a (r / a)),
    λ le. elim (le-or-lt (r / a + 1) b) [
      | inl k ↦ omega arith
      | inr k ↦ absurd (omega (arith, div_mod r a h, mul_mono a b (r / a) (omega arith)))
    ],
  )
]

optimal-cases :
    (r a : ℕ)
    → ((r % a ≡ 0) × (optimal_at_max r a ≡ a)) ⊎ ((0 < r % a) × (optimal_at_max r a ≡ r % a))
optimal-cases r a = ground arith

optimal-le : (r a b k : ℕ) → 0 < a → r + a ≤ a * b + k → b ≡ max_ideal r a → optimal_at_max r a ≤ k
optimal-le r a b k h le e = elim (max_ideal-cases r a h) [
  | inl (z, m) ↦ ground (arith, div_mod r a h, ap (λ (t : ℕ). a * t) (e ∙ m), optimal-cases r a)
  | inr (z, m) ↦
      ground
        (arith, div_mod r a h, ap (λ (t : ℕ). a * t) (e ∙ m), mul_suc a (r / a), optimal-cases r a)
]

-- No placement is better than the ideal one: its largest count is at least the ideal maximum, and
-- if it is the ideal maximum then at least `optimal_at_max` domains have it.
pub ideal_minimal :
    (replicas available : ℕ) (p : List ℕ)
    → 0 < available
    → IsPlacement replicas available p
    → (max_ideal replicas available ≤ max_of p)
      × (max_of p ≡ max_ideal replicas available
          → optimal_at_max replicas available ≤ tally (max_of p) p)
ideal_minimal r a p h pl =
    let fits : r ≤ a * max_of p =
      rw (← pl.domains, ← pl.machines) (sum_bound (max_of p) p (omega arith)) in
    (
      (max_ideal-le_iff r a (max_of p) h).1 fits,
      λ e.
          optimal-le r a (max_of p) (tally (max_of p) p) h
            (rw (← pl.domains, ← pl.machines) (sum-tally_bound (max_of p) p (omega arith))) e,
    )

length-replicate : (n x : ℕ) → length (replicate n x) ≡ n
length-replicate zero x = refl
length-replicate (suc n) x = ap suc (length-replicate n x)

sum-replicate : (n x : ℕ) → sum (replicate n x) ≡ n * x
sum-replicate zero x = omega arith
sum-replicate (suc n) x = let ih = sum-replicate n x in omega arith

sum-append : (p q : List ℕ) → sum (p ++ q) ≡ sum p + sum q
sum-append [] q = omega arith
sum-append (x ∷ p) q = omega (arith, sum-append p q)

max_of-append : (p q : List ℕ) → max_of (p ++ q) ≡ max (max_of p) (max_of q)
max_of-append [] q = omega arith
max_of-append (x ∷ p) q = omega (arith, max_of-append p q)

tally-append : (b : ℕ) (p q : List ℕ) → tally b (p ++ q) ≡ tally b p + tally b q
tally-append b [] q = omega arith
tally-append b (x ∷ p) q = ground (arith, tally-append b p q)

max_of-replicate : (n x : ℕ) → 0 < n → max_of (replicate n x) ≡ x
max_of-replicate zero x h = absurd (omega arith)
max_of-replicate (suc zero) x h = omega arith
max_of-replicate (suc (suc n)) x h = omega (arith, max_of-replicate (suc n) x (omega arith))

max_of-replicate_le : (n x : ℕ) → max_of (replicate n x) ≤ x
max_of-replicate_le zero x = omega arith
max_of-replicate_le (suc n) x = omega (arith, max_of-replicate_le n x)

tally-replicate : (n x : ℕ) → tally x (replicate n x) ≡ n
tally-replicate zero x = refl
tally-replicate (suc n) x = ground (arith, tally-replicate n x)

tally-replicate_ne : (n b x : ℕ) → x < b → tally b (replicate n x) ≡ 0
tally-replicate_ne zero b x h = refl
tally-replicate_ne (suc n) b x h = ground (arith, tally-replicate_ne n b x)

dealt : (e d q : ℕ) → e * (q + 1) + d * q ≡ (e + d) * q + e
dealt e d q = omega arith

rest_of : (e a : ℕ) → e < a → e + (a - e) ≡ a
rest_of e a h = omega arith

-- The machines dealt out evenly: the first domains take one of those that are left over.
pub balanced : ℕ → ℕ → List ℕ
balanced r a = replicate (r % a) (r / a + 1) ++ replicate (a - r % a) (r / a)

pub balanced-IsPlacement : (r a : ℕ) → 0 < a → IsPlacement r a (balanced r a)
unfolding balanced
balanced-IsPlacement r a h =
    let e = r % a in
    let q = r / a in
    record {
      domains = omega (
        arith,
        length-append (replicate e (q + 1)) (replicate (a - e) q),
        length-replicate e (q + 1),
        length-replicate (a - e) q,
        div_mod r a h,
      );
      machines = omega (
        arith,
        sum-append (replicate e (q + 1)) (replicate (a - e) q),
        sum-replicate e (q + 1),
        sum-replicate (a - e) q,
        dealt e (a - e) q,
        div_mod r a h,
        ap (λ (t : ℕ). t * q) (rest_of e a (omega (arith, div_mod r a h))),
      );
    }

module _ (e d q : ℕ) where
  dealt_max : 0 < e → max_of (replicate e (q + 1) ++ replicate d q) ≡ q + 1
  dealt_max h = omega (
    arith,
    max_of-append (replicate e (q + 1)) (replicate d q),
    max_of-replicate e (q + 1) h,
    max_of-replicate_le d q,
  )

  dealt_tally : tally (q + 1) (replicate e (q + 1) ++ replicate d q) ≡ e
  dealt_tally = omega (
    arith,
    tally-append (q + 1) (replicate e (q + 1)) (replicate d q),
    tally-replicate e (q + 1),
    tally-replicate_ne d (q + 1) q (omega arith),
  )

-- With no machine left over all domains are alike.
dealt_level :
    (e d q : ℕ)
    → e ≡ 0
    → 0 < d
    → (max_of (replicate e (q + 1) ++ replicate d q) ≡ q)
      × (tally q (replicate e (q + 1) ++ replicate d q) ≡ d)
dealt_level e d q z h = rw z (max_of-replicate d q h, tally-replicate d q)

pub balanced-score :
    (r a : ℕ)
    → 0 < a
    → (max_of (balanced r a) ≡ max_ideal r a)
      × (tally (max_of (balanced r a)) (balanced r a) ≡ optimal_at_max r a)
unfolding balanced
balanced-score r a h = elim (max_ideal-cases r a h) [
  | inl (z, m) ↦
      let level = dealt_level (r % a) (a - r % a) (r / a) z (omega arith) in
      (level.0 ∙ sym m, rw level.0 (level.1 ∙ ground (arith, optimal-cases r a)))
  | inr (z, m) ↦
      let top = dealt_max (r % a) (a - r % a) (r / a) z in
      (
        top ∙ sym m,
        rw top (dealt_tally (r % a) (a - r % a) (r / a) ∙ ground (arith, optimal-cases r a)),
      )
]

-- With at least one available domain, the ideal maximum and the number of domains that have it are
-- those of the best placement: no placement has a smaller maximum, or the same maximum on fewer
-- domains, and there is a placement that has exactly these.
pub ideal_attained :
    (replicas available : ℕ)
    → 0 < available
    → ((p : List ℕ)
        → IsPlacement replicas available p
        → (max_ideal replicas available ≤ max_of p)
          × (max_of p ≡ max_ideal replicas available
              → optimal_at_max replicas available ≤ tally (max_of p) p))
      × ((p : List ℕ) × IsPlacement replicas available p
          × (max_of p ≡ max_ideal replicas available)
          × (tally (max_of p) p ≡ optimal_at_max replicas available))
ideal_attained r a h =
    let score = balanced-score r a h in
    (λ p pl. ideal_minimal r a p h pl, (balanced r a, balanced-IsPlacement r a h, score.0, score.1))
