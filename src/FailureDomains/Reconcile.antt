-- ===== src/FailureDomains/Reconcile.antt =====
-- `Reconcile` of pkg/controllers/failuredomainrollout/controller.go. The answers of the API server
-- and the clock are arguments; the object that `Update` is called with is part of the outcome.
pub mod Guards
use cluster_api_runtime_exte.Prelude.{
  ℕ, ◌+◌, ◌*◌, Bool, true, false, not, ◌&&◌, ◌||◌, List, [], ◌∷◌, Option, none, some, Text,
  is_empty, length, ltb, ◌==◌, if◌then◌else◌,
}
use cluster_api_runtime_exte.FailureDomains.Decision.{
  FailureDomain, Machine, Kcp, TriggerReason, is_set, minute, should_trigger, should_skip,
}

-- `has_topology` is the answer of `Topology.IsDefined`, `is_paused` that of `annotations.IsPaused`
-- on the cluster itself.
pub record Cluster : Type 0 where
  pub deletion_timestamp : Option ℕ
  pub generation : ℕ
  pub observed_generation : ℕ
  pub has_topology : Bool
  pub is_paused : Bool
  pub control_plane_kind : Text
  pub failure_domains : List FailureDomain

-- The answer to a `Get`.
pub data Got (A : Type 0) : Type 0 where
  found : A → Got A
  not_found : Got A
  get_failed : Text → Got A

-- The answer to a `List` of machines.
pub data Listed : Type 0 where
  listed : List Machine → Listed
  list_failed : Text → Listed

-- The four errors that `Reconcile` wraps, each with the error that it is about.
pub data Failure : Type 0 where
  get_cluster get_kcp determine_rollout update_kcp : Text → Failure

pub data Ended : Type 0 where
  requeue_after : ℕ → Ended
  failed : Failure → Ended

-- The result of a reconciliation, and the object that was given to `Update`, if it was called.
pub record Outcome : Type 0 where
  pub ended : Ended
  pub written : Option Kcp

abbrev pub stop : Outcome
stop = record { ended = requeue_after 0; written = none }

abbrev pub fail : Failure → Outcome
fail e = record { ended = failed e; written = none }

-- The pointer arguments of the helpers below may be nil.
abbrev pub holds_of : {A : Type 0} → (A → Bool) → Option A → Bool
holds_of p none = false
holds_of p (some a) = p a

are_resources_deleting : Option Cluster → Option Kcp → Bool
are_resources_deleting cluster kcp =
    if holds_of (λ c. is_set c.deletion_timestamp) cluster
    then true
    else holds_of (λ k. is_set k.deletion_timestamp) kcp

are_resources_updating : Option Cluster → Option Kcp → Bool
are_resources_updating cluster kcp =
    if holds_of (λ c. ltb c.observed_generation c.generation) cluster
    then true
    else holds_of (λ k. ltb k.observed_generation k.generation) kcp

are_resources_paused : Option Cluster → Option Kcp → Bool
are_resources_paused cluster kcp =
    if holds_of (λ c. c.is_paused) cluster
    then true
    else holds_of (λ c. true) cluster && holds_of (λ k. k.is_paused) kcp

should_skip_cluster : Cluster → Bool
should_skip_cluster cluster =
    if not cluster.has_topology
    then true
    else if is_empty cluster.control_plane_kind
    then true
    else length cluster.failure_domains == 0

-- `Update`, and what its error makes of the outcome.
written_outcome : Option Text → Kcp → Outcome
written_outcome none kcp = record { ended = requeue_after 0; written = some kcp }
written_outcome (some e) kcp = record { ended = failed (update_kcp e); written = some kcp }

roll_out : ℕ → Option Text → Kcp → Option ℕ → Outcome
unfolding written_outcome
roll_out now update_error kcp (some wait) = record stop { ended = requeue_after wait }
roll_out now update_error kcp none =
    written_outcome update_error (record kcp { rollout_after = some now })

on_trigger : Text → ℕ → Option Text → Kcp → Option TriggerReason → Outcome
unfolding roll_out
on_trigger up_to_date_type now update_error kcp none = stop
on_trigger up_to_date_type now update_error kcp (some reason) =
    roll_out now update_error kcp (should_skip up_to_date_type now kcp)

on_machines : Text → ℕ → Option Text → Cluster → Kcp → Listed → Outcome
unfolding on_trigger
on_machines up_to_date_type now update_error cluster kcp (list_failed e) =
    fail (determine_rollout e)
on_machines up_to_date_type now update_error cluster kcp (listed machines) =
    on_trigger up_to_date_type now update_error kcp
      (should_trigger cluster.failure_domains kcp machines)

on_kcp : Text → ℕ → Option Text → Listed → Cluster → Got Kcp → Outcome
unfolding are_resources_deleting are_resources_paused are_resources_updating on_machines
on_kcp up_to_date_type now update_error machines cluster not_found = stop
on_kcp up_to_date_type now update_error machines cluster (get_failed e) = fail (get_kcp e)
on_kcp up_to_date_type now update_error machines cluster (found kcp) =
    if are_resources_deleting (some cluster) (some kcp)
    then stop
    else if are_resources_paused (some cluster) (some kcp)
    then stop
    else if are_resources_updating (some cluster) (some kcp)
    then record stop { ended = requeue_after (2 * minute) }
    else on_machines up_to_date_type now update_error cluster kcp machines

-- What the API server answers during one reconciliation, and the clock.
pub record Answers : Type 0 where
  pub cluster : Got Cluster
  pub kcp : Got Kcp
  pub machines : Listed
  pub now : ℕ
  pub update_error : Option Text

on_cluster : Text → Answers → Got Cluster → Outcome
unfolding should_skip_cluster on_kcp
on_cluster up_to_date_type a not_found = stop
on_cluster up_to_date_type a (get_failed e) = fail (get_cluster e)
on_cluster up_to_date_type a (found cluster) =
    if should_skip_cluster cluster
    then stop
    else on_kcp up_to_date_type a.now a.update_error a.machines cluster a.kcp

pub reconcile : Text → Answers → Outcome
unfolding on_cluster
reconcile up_to_date_type a = on_cluster up_to_date_type a a.cluster
