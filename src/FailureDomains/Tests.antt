-- ===== src/FailureDomains/Tests.antt =====
-- Control planes of three machines.
use mathlib.Core.List.Perm
use cluster_api_runtime_exte.Prelude.{
  ℕ, ◌≤◌, ◌<◌, ◌≡◌, ◌≢◌, ◌↔◌, refl, inl, inr, true, false, List, [], ◌∷◌, none, some, Text, codes,
  text_eq, lookup, insert, length, arith, ◌+◌, ◌*◌, ◌/◌,
}
use cluster_api_runtime_exte.FailureDomains.Distribution.{
  Counts, max_ideal, optimal_at_max, has_suboptimal, can_improve, should_improve,
}
use cluster_api_runtime_exte.FailureDomains.Distribution.Ideal.{
  max_of, tally, Better, IsPlacement, ideal_minimal, ideal_attained,
}
use cluster_api_runtime_exte.FailureDomains.Distribution.Improve.{
  counts, can_improve-Better, should_improve_stable, should_improve_complete,
}
use cluster_api_runtime_exte.FailureDomains.Distribution.Order.{should_improve-perm}
use cluster_api_runtime_exte.FailureDomains.Decision.{
  FailureDomain, Machine, Kcp, second, removed_domain, distribution, domains_map, available_domains,
  should_trigger, should_skip,
}
use cluster_api_runtime_exte.FailureDomains.Decision.Trigger.{all_enabled, should_trigger-none}
use cluster_api_runtime_exte.FailureDomains.Decision.Spare.{should_trigger_optimal}
use cluster_api_runtime_exte.FailureDomains.Reconcile.{Cluster, found, listed, Answers, reconcile}
use cluster_api_runtime_exte.FailureDomains.Reconcile.Guards.{
  IsReady, reconcile-IsReady, written-IsReady, reconcile_spaced,
}

abbrev two_and_one : Counts
two_and_one = (codes "a", 2) ∷ (codes "b", 1) ∷ []

abbrev one_and_two : Counts
one_and_two = (codes "b", 1) ∷ (codes "a", 2) ∷ []

abbrev names : List Text
names = codes "a" ∷ codes "b" ∷ codes "c" ∷ []

abbrev one_each : List ℕ
one_each = 1 ∷ 1 ∷ 1 ∷ []

abbrev spread : Counts
spread = (codes "a", 1) ∷ (codes "b", 1) ∷ (codes "c", 1) ∷ []

one_each-IsPlacement : IsPlacement 3 3 one_each
one_each-IsPlacement = record { domains = refl; machines = refl }

one_each-Better : Better one_each (counts two_and_one)
one_each-Better = inl (omega arith)

ideal_attained_example :
    ((p : List ℕ)
      → IsPlacement 4 3 p
      → (max_ideal 4 3 ≤ max_of p)
        × (max_of p ≡ max_ideal 4 3 → optimal_at_max 4 3 ≤ tally (max_of p) p))
    × ((p : List ℕ) × IsPlacement 4 3 p
        × (max_of p ≡ max_ideal 4 3)
        × (tally (max_of p) p ≡ optimal_at_max 4 3))
ideal_attained_example = ideal_attained 4 3 (omega arith)

can_improve-Better_example :
    (can_improve two_and_one 3 3 ≡ true)
    ↔ ((p : List ℕ) × IsPlacement 3 3 p × Better p (counts two_and_one))
can_improve-Better_example =
    can_improve-Better two_and_one 3 3 (omega arith) (omega arith) (omega arith)

improved : should_improve (some 3) two_and_one names ≡ true
unfolding should_improve has_suboptimal can_improve max_ideal
improved = refl

should_improve_complete_example : should_improve (some 3) two_and_one names ≡ true
should_improve_complete_example =
    should_improve_complete 3 two_and_one names one_each (omega arith) (omega arith) (omega arith)
      one_each-IsPlacement one_each-Better

spread_best : (p : List ℕ) → IsPlacement 3 3 p → ¬ Better p (counts spread)
unfolding max_ideal
spread_best p pl b =
    let least = ideal_minimal 3 3 p (omega arith) pl in
    elim b [ inl lt ↦ omega arith | inr (e, lt) ↦ omega (arith, least.1 e) ]

should_improve_stable_example : should_improve (some 3) spread names ≡ false
should_improve_stable_example = should_improve_stable 3 spread names (omega arith) spread_best

should_improve-perm_example :
    should_improve (some 3) two_and_one names ≡ should_improve (some 3) one_and_two names
should_improve-perm_example =
    should_improve-perm (some 3) names (Perm.swap (codes "b", 1) (codes "a", 2) [])

abbrev domain : Text → FailureDomain
domain name = record { name = name; control_plane = some true }

abbrev two_domains : List FailureDomain
two_domains = domain (codes "a") ∷ domain (codes "b") ∷ []

abbrev three_domains : List FailureDomain
three_domains = domain (codes "a") ∷ domain (codes "b") ∷ domain (codes "c") ∷ []

abbrev machine : Text → Machine
machine name = record { deletion_timestamp = none; failure_domain = name }

abbrev machines : List Machine
machines = machine (codes "a") ∷ machine (codes "b") ∷ machine (codes "a") ∷ []

abbrev kcp : Kcp
kcp = record {
  deletion_timestamp = none;
  generation = 2;
  observed_generation = 2;
  is_paused = false;
  replicas = some 3;
  rollout_after = none;
  up_to_date_replicas = some 3;
  status_replicas = some 3;
  conditions = [];
}

abbrev sample : Cluster
sample = record {
  deletion_timestamp = none;
  generation = 1;
  observed_generation = 1;
  has_topology = true;
  is_paused = false;
  control_plane_kind = codes "KubeadmControlPlane";
  failure_domains = domain (codes "b") ∷ [];
}

abbrev up_to_date : Text
up_to_date = codes "MachinesUpToDate"

abbrev answers : Answers
answers = record {
  cluster = found sample;
  kcp = found kcp;
  machines = listed machines;
  now = 7;
  update_error = none;
}

abbrev written_kcp : Kcp
written_kcp = record kcp { rollout_after = some 7 }

-- The time that is stored is the second that has begun.
abbrev whole_seconds : ℕ → ℕ
whole_seconds t = t / second * second

whole_seconds_keep : (t : ℕ) → t < whole_seconds t + second
whole_seconds_keep t = omega arith

abbrev stored_kcp : Kcp
stored_kcp = record kcp { rollout_after = some 0 }

abbrev later : Answers
later = record answers { kcp = found stored_kcp; now = 8 }

two_on_a : lookup (codes "a") (distribution machines) ≡ some 2
unfolding lookup distribution codes text_eq
two_on_a = refl

should_trigger-none_example : (should_trigger two_domains kcp machines ≡ none) ↔ (
    (all_enabled two_domains machines ≡ true)
    × (should_improve (some 3) (distribution machines) (available_domains two_domains) ≡ false))
should_trigger-none_example = should_trigger-none two_domains kcp machines

trigger_removed :
    should_trigger sample.failure_domains kcp machines ≡ some (removed_domain (codes "a"))
unfolding should_trigger distribution domains_map lookup insert codes text_eq
trigger_removed = refl

quiet_on_two : should_trigger two_domains kcp machines ≡ none
unfolding should_trigger distribution domains_map available_domains lookup insert codes text_eq
    should_improve has_suboptimal max_ideal
quiet_on_two = refl

enabled_on_three : all_enabled three_domains machines ≡ true
unfolding codes text_eq
enabled_on_three = refl

counted : distribution machines ≡ (codes "a", 2) ∷ (codes "b", 1) ∷ []
unfolding distribution codes text_eq
counted = refl

three_available : length (available_domains three_domains) ≡ 3
unfolding available_domains
three_available = refl

counted_some : 0 < length (distribution machines)
unfolding distribution codes text_eq
counted_some = omega arith

counted_spare : length (distribution machines) < length (available_domains three_domains)
unfolding distribution available_domains codes text_eq
counted_spare = omega arith

placed : IsPlacement 3 (length (available_domains three_domains)) one_each
unfolding available_domains
placed = record { domains = refl; machines = refl }

placed-Better : Better one_each (counts (distribution machines))
unfolding distribution codes text_eq
placed-Better = inl (omega arith)

should_trigger_optimal_example : (should_trigger three_domains kcp machines ≡ none) ↔ (
    (all_enabled three_domains machines ≡ true)
    × ((p : List ℕ)
        → IsPlacement 3 (length (available_domains three_domains)) p
        → ¬ Better p (counts (distribution machines))))
should_trigger_optimal_example =
    should_trigger_optimal three_domains kcp machines 3 refl (omega arith) counted_some
      counted_spare

three_trigger : should_trigger three_domains kcp machines ≢ none
three_trigger quiet =
    let (enabled, best) =
      (should_trigger_optimal three_domains kcp machines 3 refl (omega arith) counted_some
          counted_spare).0
        quiet in
    best one_each placed placed-Better

not_busy : should_skip up_to_date 7 kcp ≡ none
unfolding should_skip
not_busy = refl

ready : IsReady up_to_date answers kcp
unfolding codes
ready = record {
  cluster = sample;
  got_cluster = refl;
  got_kcp = refl;
  has_topology = refl;
  has_control_plane = λ e. cc;
  has_domains = λ e. cc;
  cluster_alive = refl;
  kcp_alive = refl;
  cluster_unpaused = refl;
  kcp_unpaused = refl;
  cluster_observed = omega arith;
  kcp_observed = omega arith;
  machines = machines;
  got_machines = refl;
  reason = removed_domain (codes "a");
  needed = trigger_removed;
  not_busy = not_busy;
}

written_lem : (reconcile up_to_date answers).written ≡ some written_kcp
written_lem = reconcile-IsReady up_to_date answers kcp ready

written-IsReady_example :
    (k : Kcp) × IsReady up_to_date answers k × (written_kcp ≡ record k { rollout_after = some 7 })
written-IsReady_example = written-IsReady up_to_date answers written_kcp written_lem

reconcile_spaced_example : (reconcile up_to_date later).written ≡ none
reconcile_spaced_example =
    reconcile_spaced whole_seconds whole_seconds_keep up_to_date answers later written_kcp
      stored_kcp written_lem refl refl (omega arith)
