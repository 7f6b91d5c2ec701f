-- ===== src/Preflight/Handler/Guards.antt =====
-- When the handler runs the checks, and what its answer then says of them.
use cluster_api_runtime_exte.Prelude.{
  ◌≡◌, ◌≢◌, refl, Bool, true, false, List, Option, none, some, arith, Bool-cases, ◌⊎◌, inl, inr,
  Text,
}
use cluster_api_runtime_exte.Preflight.Skip.{new, skips_all}
use cluster_api_runtime_exte.Preflight.Run.{Checker}
use cluster_api_runtime_exte.Preflight.Run.Spec.{run}
use cluster_api_runtime_exte.Preflight.Handler.{
  Operation, create, update, delete, connect, Cluster, Request, Decoded, decoded, malformed,
  Summary, Verdict, Response, summarized, is_paused, summarize, judge, handle, check_cluster,
  check_operation, check_update, check_decoded,
}

Decoded-cases :
    {A : Type 0} (d : Decoded A) → ((a : A) × (d ≡ decoded a)) ⊎ ((m : Text) × (d ≡ malformed m))
Decoded-cases (decoded a) = inl (a, refl)
Decoded-cases (malformed m) = inr (m, refl)

module _ {S R : Type 0} (decode decode_raw : R → Decoded (Cluster S)) (same_body : S → S → Bool)
    (topology_is_defined : S → Bool) where
  -- The cluster before the operation, as the checkers get it.
  pub data OldOf (req : Request R) (cluster : Cluster S) (old : Option (Cluster S)) : Type 0 where
    not_update : req.operation ≢ update → old ≡ none → OldOf req cluster old
    changed :
        (before : Cluster S)
        → req.operation ≡ update
        → decode_raw req.old_object ≡ decoded before
        → same_body before.spec.body cluster.spec.body ≡ false
        → old ≡ some before
        → OldOf req cluster old

  -- A request whose cluster is to be checked, and what the checkers are given.
  pub record IsChecked (req : Request R) (cluster : Cluster S) (old : Option (Cluster S))
      : Type 0 where
    pub not_deleting : req.operation ≢ delete
    pub decodes : decode req.object ≡ decoded cluster
    pub alive : cluster.deletion_timestamp ≡ none
    pub has_topology : topology_is_defined cluster.spec.body ≡ true
    pub unpaused : is_paused cluster.spec.paused ≡ false
    pub before : OldOf req cluster old
    pub not_skipped : skips_all (new cluster.annotations) ≡ false

  module _ (checkers : List (Checker (Cluster S))) where
    abbrev pub run_handler : Request R → Response
    run_handler = handle decode decode_raw same_body topology_is_defined checkers

    abbrev clustered : Cluster S → Option (Cluster S) → Response
    clustered = check_cluster decode decode_raw same_body topology_is_defined checkers

    abbrev operated : Operation → Cluster S → R → Response
    operated = check_operation decode decode_raw same_body topology_is_defined checkers

    abbrev updated : Cluster S → Decoded (Cluster S) → Response
    updated = check_update decode decode_raw same_body topology_is_defined checkers

    abbrev pub summary_of : Cluster S → Option (Cluster S) → Summary
    summary_of cluster old = summarize (run (new cluster.annotations) cluster old checkers)

    check_operation_checked :
        (req : Request R) (cluster : Cluster S) (old : Option (Cluster S))
        → OldOf req cluster old
        → req.operation ≢ delete
        → operated req.operation cluster req.old_object ≡ clustered cluster old
    unfolding check_operation check_update
    check_operation_checked req cluster old (not_update n e) nd = ground arith
    check_operation_checked req cluster old (changed before u d s e) nd = ground arith

    -- The checks of every request that is to be checked run, and the answer sums them up.
    pub handle_checked :
        (req : Request R) (cluster : Cluster S) (old : Option (Cluster S))
        → IsChecked req cluster old
        → run_handler req ≡ summarized (summary_of cluster old) (judge (summary_of cluster old))
    unfolding handle check_decoded check_cluster
    handle_checked req cluster old c =
        ground (arith, check_operation_checked req cluster old c.before c.not_deleting)

    module _ (req : Request R) (resp : Summary) (verdict : Verdict) where
      checked_cluster :
          (cluster : Cluster S) (old : Option (Cluster S))
          → clustered cluster old ≡ summarized resp verdict
          → (skips_all (new cluster.annotations) ≡ false)
            × (resp ≡ summary_of cluster old)
            × (verdict ≡ judge (summary_of cluster old))
      unfolding check_cluster
      checked_cluster cluster old h = ground arith

      updated_old :
          (cluster : Cluster S) (raw : Decoded (Cluster S))
          → req.operation ≡ update
          → decode_raw req.old_object ≡ raw
          → updated cluster raw ≡ summarized resp verdict
          → (old : Option (Cluster S)) × OldOf req cluster old
            × (clustered cluster old ≡ summarized resp verdict)
      unfolding check_update
      updated_old cluster (malformed m) u d h = absurd (cc)
      updated_old cluster (decoded before) u d h =
          elim (Bool-cases (same_body before.spec.body cluster.spec.body)) [
            | inl same ↦ absurd (ground arith)
            | inr differs ↦ (some before, changed before u d differs refl, rw differs at h)
          ]

      operated_old :
          (cluster : Cluster S) (op : Operation)
          → req.operation ≡ op
          → operated op cluster req.old_object ≡ summarized resp verdict
          → (old : Option (Cluster S)) × OldOf req cluster old
            × (clustered cluster old ≡ summarized resp verdict)
      unfolding check_operation
      operated_old cluster update o h = updated_old cluster (decode_raw req.old_object) o refl h
      operated_old cluster create o h = (none, not_update (λ u. cc) refl, h)
      operated_old cluster delete o h = (none, not_update (λ u. cc) refl, h)
      operated_old cluster connect o h = (none, not_update (λ u. cc) refl, h)

      decoded_checked :
          (cluster : Cluster S)
          → decode req.object ≡ decoded cluster
          → run_handler req ≡ summarized resp verdict
          → (req.operation ≢ delete)
            × (cluster.deletion_timestamp ≡ none)
            × (topology_is_defined cluster.spec.body ≡ true)
            × (is_paused cluster.spec.paused ≡ false)
            × (operated req.operation cluster req.old_object ≡ summarized resp verdict)
      unfolding handle check_decoded
      decoded_checked cluster d h = ground arith

      decoded_cluster :
          run_handler req ≡ summarized resp verdict
          → (cluster : Cluster S) × (decode req.object ≡ decoded cluster)
      unfolding handle check_decoded
      decoded_cluster h = elim (Decoded-cases (decode req.object)) [
        | inl found ↦ found
        | inr (m, e) ↦ absurd (ground arith)
      ]

      -- Only a request that is to be checked gets a summary: every guard of the handler passed, and the
      -- summary and its verdict are those of the results of the checks.
      pub summarized-IsChecked :
          run_handler req ≡ summarized resp verdict
          → (cluster : Cluster S) × (old : Option (Cluster S)) × IsChecked req cluster old
            × (resp ≡ summary_of cluster old)
            × (verdict ≡ judge (summary_of cluster old))
      summarized-IsChecked h =
          let (cluster, d) = decoded_cluster h in
          let (nd, alive, topology, unpaused, h') = decoded_checked cluster d h in
          let (old, o, h'') = operated_old cluster req.operation refl h' in
          let (ns, r, v) = checked_cluster cluster old h'' in
          let c : IsChecked req cluster old = record {
            not_deleting = nd;
            decodes = d;
            alive = alive;
            has_topology = topology;
            unpaused = unpaused;
            before = o;
            not_skipped = ns;
          } in
          (cluster, old, c, r, v)
