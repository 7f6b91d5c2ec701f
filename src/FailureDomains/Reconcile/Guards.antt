-- ===== src/FailureDomains/Reconcile/Guards.antt =====
-- When a reconciliation writes, and what.
use mathlib.Core.Option
use cluster_api_runtime_exte.Prelude.{
  ℕ, ◌+◌, ◌*◌, ◌≤◌, ◌<◌, ◌≡◌, ◌≢◌, refl, ap, ◌∙◌, inl, inr, true, false, List, [], Option, none,
  some, Text, arith, Option-cases,
}
use cluster_api_runtime_exte.FailureDomains.Decision.{
  Machine, Kcp, TriggerReason, second, minute, should_trigger, should_skip,
}
use cluster_api_runtime_exte.FailureDomains.Reconcile.{
  Cluster, Got, found, Listed, listed, Answers, reconcile, get_failed, not_found, list_failed,
  written_outcome, roll_out, on_trigger, on_kcp, on_machines, on_cluster,
}

-- Everything that has to hold before the rollout of `kcp` is triggered.
pub record IsReady (up_to_date_type : Text) (a : Answers) (kcp : Kcp) : Type 0 where
  pub cluster : Cluster
  pub got_cluster : a.cluster ≡ found cluster
  pub got_kcp : a.kcp ≡ found kcp
  pub has_topology : cluster.has_topology ≡ true
  pub has_control_plane : cluster.control_plane_kind ≢ []
  pub has_domains : cluster.failure_domains ≢ []
  pub cluster_alive : cluster.deletion_timestamp ≡ none
  pub kcp_alive : kcp.deletion_timestamp ≡ none
  pub cluster_unpaused : cluster.is_paused ≡ false
  pub kcp_unpaused : kcp.is_paused ≡ false
  pub cluster_observed : cluster.generation ≤ cluster.observed_generation
  pub kcp_observed : kcp.generation ≤ kcp.observed_generation
  pub machines : List Machine
  pub got_machines : a.machines ≡ listed machines
  pub reason : TriggerReason
  pub needed : should_trigger cluster.failure_domains kcp machines ≡ some reason
  pub not_busy : should_skip up_to_date_type a.now kcp ≡ none

-- A reconciliation that finds everything ready gives `Update` the control plane with the current
-- time as the time of its rollout, and with nothing else changed.
pub reconcile-IsReady :
    (up_to_date_type : Text) (a : Answers) (kcp : Kcp)
    → IsReady up_to_date_type a kcp
    → (reconcile up_to_date_type a).written ≡ some (record kcp { rollout_after = some a.now })
unfolding reconcile
reconcile-IsReady ty a kcp r = ground arith

abbrev stamped : ℕ → Kcp → Kcp
stamped now kcp = record kcp { rollout_after = some now }

written_inv : (e : Option Text) (kcp k : Kcp) → (written_outcome e kcp).written ≡ some k → k ≡ kcp
unfolding written_outcome
written_inv none kcp k h = cc
written_inv (some e) kcp k h = cc

module _ (ty : Text) (now : ℕ) (ue : Option Text) (kcp k : Kcp) where
  roll_out_inv :
      (wait : Option ℕ)
      → (roll_out now ue kcp wait).written ≡ some k
      → (wait ≡ none) × (k ≡ stamped now kcp)
  unfolding roll_out
  roll_out_inv none h = (refl, written_inv ue (stamped now kcp) k h)
  roll_out_inv (some w) h = absurd (cc)

  on_trigger_inv :
      (t : Option TriggerReason)
      → (on_trigger ty now ue kcp t).written ≡ some k
      → (reason : TriggerReason) × (t ≡ some reason)
        × (should_skip ty now kcp ≡ none)
        × (k ≡ stamped now kcp)
  unfolding on_trigger
  on_trigger_inv none h = absurd (cc)
  on_trigger_inv (some reason) h =
      let r = roll_out_inv (should_skip ty now kcp) h in (reason, refl, r.0, r.1)

  on_machines_inv :
      (cluster : Cluster) (l : Listed)
      → (on_machines ty now ue cluster kcp l).written ≡ some k
      → (machines : List Machine) × (l ≡ listed machines)
        × ((on_trigger ty now ue kcp (should_trigger cluster.failure_domains kcp machines)).written
            ≡ some k)
  unfolding on_machines
  on_machines_inv cluster (list_failed e) h = absurd (cc)
  on_machines_inv cluster (listed machines) h = (machines, refl, h)

-- The guards on the control plane, once it is found.
abbrev Passes : Cluster → Kcp → Type 0
Passes cluster kcp =
    (cluster.deletion_timestamp ≡ none)
    × (kcp.deletion_timestamp ≡ none)
    × (cluster.is_paused ≡ false)
    × (kcp.is_paused ≡ false)
    × (cluster.generation ≤ cluster.observed_generation)
    × (kcp.generation ≤ kcp.observed_generation)

module _ (ty : Text) (now : ℕ) (ue : Option Text) (k : Kcp) where
  on_kcp_inv :
      (l : Listed) (cluster : Cluster) (g : Got Kcp)
      → (on_kcp ty now ue l cluster g).written ≡ some k
      → (kcp : Kcp) × (g ≡ found kcp)
        × Passes cluster kcp
        × ((on_machines ty now ue cluster kcp l).written ≡ some k)
  unfolding on_kcp
  on_kcp_inv l cluster not_found h = absurd (cc)
  on_kcp_inv l cluster (get_failed e) h = absurd (cc)
  on_kcp_inv l cluster (found kcp) h = (kcp, refl, ground arith, ground arith)

on_cluster_inv :
    (ty : Text) (a : Answers) (k : Kcp) (g : Got Cluster)
    → (on_cluster ty a g).written ≡ some k
    → (cluster : Cluster) × (g ≡ found cluster)
      × ((cluster.has_topology ≡ true)
          × (cluster.control_plane_kind ≢ [])
          × (cluster.failure_domains ≢ []))
      × ((on_kcp ty a.now a.update_error a.machines cluster a.kcp).written ≡ some k)
unfolding on_cluster
on_cluster_inv ty a k not_found h = absurd (cc)
on_cluster_inv ty a k (get_failed e) h = absurd (cc)
on_cluster_inv ty a k (found cluster) h = (cluster, refl, ground arith, ground arith)

-- A reconciliation writes only if everything is ready, and then it writes the control plane that it
-- read with the current time as the time of its rollout.
pub written-IsReady :
    (up_to_date_type : Text) (a : Answers) (k : Kcp)
    → (reconcile up_to_date_type a).written ≡ some k
    → (kcp : Kcp) × IsReady up_to_date_type a kcp × (k ≡ record kcp { rollout_after = some a.now })
unfolding reconcile
written-IsReady ty a k h =
    let (cluster, c, (topology, kind, domains), h1) = on_cluster_inv ty a k a.cluster h in
    let (kcp, g, (d1, d2, p1, p2, o1, o2), h2) =
      on_kcp_inv ty a.now a.update_error k a.machines cluster a.kcp h1 in
    let (machines, l, h3) = on_machines_inv ty a.now a.update_error kcp k cluster a.machines h2 in
    let (reason, t, s, e) =
      on_trigger_inv ty a.now a.update_error kcp k
        (should_trigger cluster.failure_domains kcp machines) h3 in
    (
      kcp,
      record {
        cluster = cluster;
        got_cluster = c;
        got_kcp = g;
        has_topology = topology;
        has_control_plane = kind;
        has_domains = domains;
        cluster_alive = d1;
        kcp_alive = d2;
        cluster_unpaused = p1;
        kcp_unpaused = p2;
        cluster_observed = o1;
        kcp_observed = o2;
        machines = machines;
        got_machines = l;
        reason = reason;
        needed = t;
        not_busy = s;
      },
      e,
    )

should_skip_recent :
    (ty : Text) (now t : ℕ) (kcp : Kcp)
    → kcp.rollout_after ≡ some t
    → now < t + 15 * minute
    → should_skip ty now kcp ≢ none
unfolding should_skip
should_skip_recent ty now t kcp e lt = ground arith

-- How `metav1.Time` keeps a time when the API server stores it: in whole seconds.
module _ (stored : ℕ → ℕ) (keeps_seconds : (t : ℕ) → t < stored t + second) where
  -- The control plane that a reconciliation writes is kept with the time of its rollout as `stored`
  -- gives it, less than a second earlier than it was written. A later reconciliation that reads this
  -- time, and whose clock is at most fifteen minutes less a second ahead of the first one's, writes
  -- nothing.
  pub reconcile_spaced :
      (up_to_date_type : Text) (first later : Answers) (k kcp : Kcp)
      → (reconcile up_to_date_type first).written ≡ some k
      → later.kcp ≡ found kcp
      → kcp.rollout_after ≡ Option.map stored k.rollout_after
      → later.now + second ≤ first.now + 15 * minute
      → (reconcile up_to_date_type later).written ≡ none
  reconcile_spaced ty a b k kcp w g same soon = elim (Option-cases (reconcile ty b).written) [
    | inl quiet ↦ quiet
    | inr (k', w') ↦
        let (kcp1, r1, e1) = written-IsReady ty a k w in
        let (kcp2, r2, e2) = written-IsReady ty b k' w' in
        let read : kcp2 ≡ kcp = cc (r2.got_kcp, g) in
        let after : kcp2.rollout_after ≡ some (stored a.now) =
          ap (λ (x : Kcp). x.rollout_after) read
          ∙ same
          ∙ ap (λ (x : Kcp). Option.map stored x.rollout_after) e1 in
        let kept = keeps_seconds a.now in
        absurd (should_skip_recent ty b.now (stored a.now) kcp2 after (omega arith) r2.not_busy)
  ]
