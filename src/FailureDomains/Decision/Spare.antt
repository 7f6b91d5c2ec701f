-- ===== src/FailureDomains/Decision/Spare.antt =====
-- When no rollout is triggered while there are available domains to spare.
use cluster_api_runtime_exte.Prelude.{
  ℕ, ◌<◌, ◌≡◌, ◌↔◌, ◌∙◌, ap, true, List, some, none, length, arith,
}
use cluster_api_runtime_exte.FailureDomains.Distribution.{should_improve}
use cluster_api_runtime_exte.FailureDomains.Distribution.Ideal.{Better, IsPlacement}
use cluster_api_runtime_exte.FailureDomains.Distribution.Improve.{
  counts, should_improve_stable, should_improve_complete,
}
use cluster_api_runtime_exte.FailureDomains.Decision.{
  FailureDomain, Machine, Kcp, distribution, available_domains, should_trigger,
}
use cluster_api_runtime_exte.FailureDomains.Decision.Trigger.{all_enabled, should_trigger-none}

-- For a positive number of replicas, machines on some failure domain and more available domains than
-- have machines: no rollout is triggered exactly if every machine that counts stands in an enabled
-- domain and no placement of the replicas on the available domains is better than that of the
-- machines.
pub should_trigger_optimal :
    (fds : List FailureDomain) (kcp : Kcp) (machines : List Machine) (replicas : ℕ)
    → kcp.replicas ≡ some replicas
    → 0 < replicas
    → 0 < length (distribution machines)
    → length (distribution machines) < length (available_domains fds)
    → (should_trigger fds kcp machines ≡ none) ↔ (
        (all_enabled fds machines ≡ true)
        × ((p : List ℕ)
            → IsPlacement replicas (length (available_domains fds)) p
            → ¬ Better p (counts (distribution machines))))
should_trigger_optimal fds kcp machines r e hr hd spare =
    let d = distribution machines in
    let available = available_domains fds in
    let quiet = should_trigger-none fds kcp machines in
    (
      λ h. (
        (quiet.0 h).0,
        λ p pl b.
            let asked = should_improve_complete r d available p hr hd spare pl b in
            let not_asked = (quiet.0 h).1 in cc (e, asked, not_asked),
      ),
      λ (enabled, best). quiet.1 (
        enabled,
        ap (λ n. should_improve n d available) e
            ∙ should_improve_stable r d available (omega arith) best,
      ),
    )
