-- ===== src/FailureDomains/Decision.antt =====
-- getMachineDistribution, failureDomainsToMap, getAvailableFailureDomains, shouldTriggerRollout and
-- shouldSkipRollout of pkg/controllers/failuredomainrollout/controller.go. What the API server
-- answers is an argument. Times and durations are in nanoseconds.
pub mod Trigger
pub mod Spare
use cluster_api_runtime_exte.Prelude.{
  ℕ, ◌+◌, ◌*◌, ◌^◌, Bool, true, false, not, ◌&&◌, List, [], ◌∷◌, Option, none, some, Text, is_empty,
  text_eq, lookup, insert, any, ltb, if◌then◌else◌,
}
use cluster_api_runtime_exte.FailureDomains.Distribution.{Counts, should_improve}

pub record FailureDomain : Type 0 where
  pub name : Text
  pub control_plane : Option Bool

pub record Machine : Type 0 where
  pub deletion_timestamp : Option ℕ
  pub failure_domain : Text

pub record Condition : Type 0 where
  pub type : Text
  pub is_false : Bool

-- The fields of a KubeadmControlPlane that the controller reads or writes. `rollout_after` is none
-- for the zero time; `is_paused` is the answer of `annotations.IsPaused` on the cluster and it.
pub record Kcp : Type 0 where
  pub deletion_timestamp : Option ℕ
  pub generation : ℕ
  pub observed_generation : ℕ
  pub is_paused : Bool
  pub replicas : Option ℕ
  pub rollout_after : Option ℕ
  pub up_to_date_replicas : Option ℕ
  pub status_replicas : Option ℕ
  pub conditions : List Condition

-- `ptr.Deref(p, false)` and `ptr.Deref(p, 0)`.
abbrev pub deref_bool : Option Bool → Bool
deref_bool none = false
deref_bool (some b) = b

abbrev pub deref_nat : Option ℕ → ℕ
deref_nat none = 0
deref_nat (some n) = n

abbrev pub is_set : Option ℕ → Bool
is_set none = false
is_set (some _) = true

-- `distribution[name]++`.
increment : Text → Counts → Counts
increment k [] = (k, 1) ∷ []
increment k ((j, n) ∷ d) = if text_eq j k then (k, n + 1) ∷ d else (j, n) ∷ increment k d

-- The loop over the machines.
count_machines : Counts → List Machine → Counts
unfolding increment
count_machines d [] = d
count_machines d (m ∷ ms) =
    count_machines
      (if is_set m.deletion_timestamp
        then d
        else if not (is_empty m.failure_domain)
        then increment m.failure_domain d
        else d)
      ms

unfoldable pub distribution : List Machine → Counts
unfolding count_machines
distribution machines = count_machines [] machines

add_domains : List (Text × FailureDomain) → List FailureDomain → List (Text × FailureDomain)
add_domains m [] = m
add_domains m (fd ∷ fds) = add_domains (insert fd.name fd m) fds

unfoldable pub domains_map : List FailureDomain → List (Text × FailureDomain)
unfolding add_domains
domains_map fds = add_domains [] fds

unfoldable pub available_domains : List FailureDomain → List Text
available_domains [] = []
available_domains (fd ∷ fds) =
    let rest = available_domains fds in if deref_bool fd.control_plane then fd.name ∷ rest else rest

pub data TriggerReason : Type 0 where
  removed_domain disabled_domain : Text → TriggerReason
  better_distribution : TriggerReason

-- What one used domain says: nothing, or the reason for a rollout.
domain_reason : Text → Option FailureDomain → Option TriggerReason
domain_reason used none = some (removed_domain used)
domain_reason used (some fd) =
    if not (deref_bool fd.control_plane) then some (disabled_domain used) else none

or_else : Option TriggerReason → Option TriggerReason → Option TriggerReason
or_else none r = r
or_else (some a) r = some a

-- The loop over the used domains; it returns at the first reason.
first_reason : List (Text × FailureDomain) → Counts → Option TriggerReason
unfolding domain_reason or_else
first_reason fd_map [] = none
first_reason fd_map (used ∷ rest) =
    or_else (domain_reason used.0 (lookup used.0 fd_map)) (first_reason fd_map rest)

-- `shouldTriggerRollout`, once the machines are listed; none for no rollout.
unfoldable pub should_trigger : List FailureDomain → Kcp → List Machine → Option TriggerReason
unfolding first_reason or_else
should_trigger fds kcp machines =
    let current = distribution machines in
    or_else (first_reason (domains_map fds) current) (
      if should_improve kcp.replicas current (available_domains fds)
      then some better_distribution
      else none)

-- Times are in nanoseconds.
abbrev pub second : ℕ
second = 10 ^ 9

abbrev pub minute : ℕ
minute = 60 * 10 ^ 9

rollout_recent : ℕ → Option ℕ → Bool
rollout_recent now none = false
rollout_recent now (some after) = ltb now (after + 15 * minute)

-- `shouldSkipRollout`: how long to wait before the next look, or none to go on. `up_to_date_type` is
-- the constant `KubeadmControlPlaneMachinesUpToDateCondition` of cluster-api. `time.Since(after)`
-- may be negative; it is below 15 minutes exactly if `now` is before `after` plus 15 minutes.
unfoldable pub should_skip : Text → ℕ → Kcp → Option ℕ
unfolding rollout_recent
should_skip up_to_date_type now kcp =
    if rollout_recent now kcp.rollout_after
    then some (5 * minute)
    else if ltb (deref_nat kcp.up_to_date_replicas) (deref_nat kcp.status_replicas)
    then some (2 * minute)
    else if any (λ c. text_eq c.type up_to_date_type && c.is_false) kcp.conditions
    then some (2 * minute)
    else none
