-- ===== src/FailureDomains/Distribution/Order.antt =====
-- Go meets the entries of a map in any order: the decisions do not depend on it.
use mathlib.Core.List.{Perm, Permᴰ}
use mathlib.Core.Logic.{∥∥₁_elim}
use cluster_api_runtime_exte.Prelude.{
  ℕ, suc, ◌≡◌, refl, sym, ap, ◌∙◌, List, Option, none, some, Text, arith, length, ltb,
}
use cluster_api_runtime_exte.FailureDomains.Distribution.{
  Counts, max_ideal, max_scan, has_suboptimal, can_improve, should_improve,
}
use cluster_api_runtime_exte.FailureDomains.Distribution.Ideal.{max_of, tally}
use cluster_api_runtime_exte.FailureDomains.Distribution.Improve.{
  counts, max_scan_lem, has_suboptimal_lem,
}

max_of-perm : {d d' : Counts} → Permᴰ d d' → max_of (counts d) ≡ max_of (counts d')
max_of-perm Permᴰ.nil = refl
max_of-perm (Permᴰ.cons e p) = omega (arith, ap (λ (x : Text × ℕ). x.1) e, max_of-perm p)
max_of-perm (Permᴰ.swap e f) =
    omega (arith, ap (λ (x : Text × ℕ). x.1) e, ap (λ (x : Text × ℕ). x.1) f)
max_of-perm (Permᴰ.trans p q) = max_of-perm p ∙ max_of-perm q

tally-perm : (b : ℕ) {d d' : Counts} → Permᴰ d d' → tally b (counts d) ≡ tally b (counts d')
tally-perm b Permᴰ.nil = refl
tally-perm b (Permᴰ.cons e p) = ground (arith, ap (λ (x : Text × ℕ). x.1) e, tally-perm b p)
tally-perm b (Permᴰ.swap e f) =
    ground (arith, ap (λ (x : Text × ℕ). x.1) e, ap (λ (x : Text × ℕ). x.1) f)
tally-perm b (Permᴰ.trans p q) = tally-perm b p ∙ tally-perm b q

length-perm : {d d' : Counts} → Permᴰ d d' → length d ≡ length d'
length-perm Permᴰ.nil = refl
length-perm (Permᴰ.cons e p) = ap suc (length-perm p)
length-perm (Permᴰ.swap e f) = refl
length-perm (Permᴰ.trans p q) = length-perm p ∙ length-perm q

module _ (r a : ℕ) {d d' : Counts} (p : Permᴰ d d') where
  has_suboptimal-perm : has_suboptimal d r a ≡ has_suboptimal d' r a
  has_suboptimal-perm =
      has_suboptimal_lem d r a
      ∙ ap (ltb (max_ideal r a)) (max_of-perm p)
      ∙ sym (has_suboptimal_lem d' r a)

  max_scan-perm : max_scan 0 0 d ≡ max_scan 0 0 d'
  max_scan-perm = max_scan_lem d ∙ (λ i. (max_of-perm p i, both i)) ∙ sym (max_scan_lem d')
    where
      both : tally (max_of (counts d)) (counts d) ≡ tally (max_of (counts d')) (counts d')
      both = ap (λ (t : ℕ). tally t (counts d)) (max_of-perm p) ∙ tally-perm (max_of (counts d')) p

  can_improve-perm : can_improve d r a ≡ can_improve d' r a
  unfolding can_improve
  can_improve-perm = rw (length-perm p, max_scan-perm)

should_improve-perm_some :
    (r : ℕ) (names : List Text) {d d' : Counts}
    → Permᴰ d d'
    → should_improve (some r) d names ≡ should_improve (some r) d' names
unfolding should_improve
should_improve-perm_some r names p =
    rw (length-perm p, has_suboptimal-perm r (length names) p, can_improve-perm r (length names) p)

-- Whether the distribution is to be improved does not depend on the order in which Go meets the
-- entries of the map of counts.
pub should_improve-perm :
    (replicas : Option ℕ) (available : List Text) {d d' : Counts}
    → Perm d d'
    → should_improve replicas d available ≡ should_improve replicas d' available
unfolding should_improve
should_improve-perm none names p = refl
should_improve-perm (some r) names p = ∥∥₁_elim p (hlevel) (should_improve-perm_some r names)
