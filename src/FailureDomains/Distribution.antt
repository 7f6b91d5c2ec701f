-- ===== src/FailureDomains/Distribution.antt =====
-- The arithmetic of the distribution of machines: calculateMaxIdealPerFD, hasSuboptimalDistribution,
-- canImproveWithMoreFDs and shouldImproveDistribution. Replica counts are not negative: the API
-- server rejects a negative `spec.replicas`.
-- A Go map of counts is a list of its entries, whose order stands for the order in which one
-- iteration over the map meets them.
pub mod Ideal
pub mod Order
pub mod Improve
use cluster_api_runtime_exte.Prelude.{
  ℕ, zero, suc, ◌+◌, ◌/◌, ◌%◌, Bool, true, false, ◌&&◌, ◌||◌, List, [], ◌∷◌, Option, none, some,
  Text, length, any, ltb, leb, ◌==◌, if◌then◌else◌,
}

abbrev pub Counts : Type 0
Counts = List (Text × ℕ)

unfoldable pub max_ideal : ℕ → ℕ → ℕ
max_ideal replicas available =
    if available == 0
    then replicas
    else let base = replicas / available in if ltb 0 (replicas % available) then base + 1 else base

-- The loop stops at the first domain with too many machines.
unfoldable pub has_suboptimal : Counts → ℕ → ℕ → Bool
has_suboptimal distribution replicas available =
    any (λ entry. ltb (max_ideal replicas available) entry.1) distribution

-- The loop that finds the largest count and how many domains have it: (currentMaxPerFD,
-- currentFDsAtMax).
unfoldable pub max_scan : ℕ → ℕ → Counts → ℕ × ℕ
max_scan best at_max [] = (best, at_max)
max_scan best at_max (entry ∷ rest) =
    max_scan (if ltb best entry.1 then entry.1 else best)
      (if ltb best entry.1 then 1 else if entry.1 == best then at_max + 1 else at_max) rest

abbrev pub optimal_at_max : ℕ → ℕ → ℕ
optimal_at_max replicas available =
    let extra = replicas % available in if extra == 0 then available else extra

unfoldable pub can_improve : Counts → ℕ → ℕ → Bool
unfolding max_scan
can_improve distribution replicas available =
    if length distribution == 0 || replicas == 0 || leb available (length distribution)
    then false
    else let (best, at_max) = max_scan 0 0 distribution in
      let optimal = max_ideal replicas available in
      ltb optimal best || (optimal == best && ltb (optimal_at_max replicas available) at_max)

unfoldable pub should_improve : Option ℕ → Counts → List Text → Bool
should_improve none distribution available_domains = false
should_improve (some replicas) distribution available_domains =
    let available = length available_domains in
    if has_suboptimal distribution replicas available
    then true
    else if ltb (length distribution) available
    then can_improve distribution replicas available
    else false
