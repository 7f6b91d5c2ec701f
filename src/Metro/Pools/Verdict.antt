-- ===== src/Metro/Pools/Verdict.antt =====
-- Which node pools pass.
use cluster_api_runtime_exte.Prelude.{
  ◌≡◌, refl, ◌∙◌, Bool, true, false, ◌&&◌, List, [], ◌∷◌, ◌++◌, map, Option, none, some, Text, all,
  all-append, filter_by, arith,
}
use cluster_api_runtime_exte.Preflight.{CheckResult}
use cluster_api_runtime_exte.Metro.Report.{Complaint, passed, fail_check}
use cluster_api_runtime_exte.Metro.Domains.{CheckDependencies, named}
use cluster_api_runtime_exte.Metro.Pools.{
  NodePool, control_plane_pool, deployment_pool, cluster_node_pools, on_metro, check_domain,
  check_domains, check_pool, check_pools, run_all_node_pools,
}

-- The failure domains that are set are at least one, and all of a NutanixMetro or one of its sites.
abbrev pub protected_domains : List Text → Bool
protected_domains [] = false
protected_domains (fd ∷ fds) = all on_metro (fd ∷ fds)

abbrev pub protected : CheckDependencies → Bool
protected d =
    (elim d.control_plane [ none ↦ true | some fds ↦ protected_domains (filter_by named fds) ])
    && all (λ (md : Text × Text). named md.1 && on_metro md.1) d.machine_deployments

module _ (say : Complaint → Text) where
  check_domains-allowed :
      (np : NodePool) (r : CheckResult) (fds : List Text)
      → (check_domains say np r fds).allowed ≡ (r.allowed && all on_metro fds)
  unfolding check_domains check_domain fail_check
  check_domains-allowed np r [] = ground arith
  check_domains-allowed np r (fd ∷ fds) =
      check_domains-allowed np (check_domain say np r fd) fds ∙ ground arith

  check_pool-allowed :
      (r : CheckResult) (np : NodePool) (fds : List Text)
      → (check_pool say r np fds).allowed ≡ (r.allowed && protected_domains fds)
  unfolding check_pool fail_check
  check_pool-allowed r np [] = ground arith
  check_pool-allowed r np (fd ∷ fds) = check_domains-allowed np r (fd ∷ fds)

  check_pools-allowed :
      (r : CheckResult) (nps : List NodePool)
      → (check_pools say r nps).allowed
        ≡ (r.allowed && all (λ (np : NodePool). protected_domains np.failure_domains) nps)
  unfolding check_pools
  check_pools-allowed r [] = ground arith
  check_pools-allowed r (np ∷ nps) =
      let one = check_pool-allowed r np np.failure_domains in
      let rest = check_pools-allowed (check_pool say r np np.failure_domains) nps in ground arith

  deployments_lem :
      (mds : List (Text × Text))
      → all (λ (np : NodePool). protected_domains np.failure_domains) (map deployment_pool mds)
        ≡ all (λ (md : Text × Text). named md.1 && on_metro md.1) mds
  unfolding deployment_pool
  deployments_lem [] = refl
  deployments_lem (md ∷ mds) = ground (arith, deployments_lem mds)

  control_plane_lem :
      (o : Option (List Text))
      → all (λ (np : NodePool). protected_domains np.failure_domains) (control_plane_pool o)
        ≡ (elim o [ none ↦ true | some fds ↦ protected_domains (filter_by named fds) ])
  unfolding control_plane_pool
  control_plane_lem none = refl
  control_plane_lem (some fds) = ground arith

  -- The check of the node pools lets a cluster through exactly if its control plane, if it is
  -- configured, has a failure domain, every failure domain of it is one of a NutanixMetro or a
  -- NutanixMetroSite, and every machine deployment has such a failure domain.
  pub run_all_node_pools-allowed :
      (d : CheckDependencies)
      → (run_all_node_pools say (cluster_node_pools d)).allowed ≡ protected d
  unfolding run_all_node_pools cluster_node_pools
  run_all_node_pools-allowed d =
      check_pools-allowed passed
        (control_plane_pool d.control_plane ++ map deployment_pool d.machine_deployments)
      ∙ all-append (λ (np : NodePool). protected_domains np.failure_domains)
          (control_plane_pool d.control_plane) (map deployment_pool d.machine_deployments)
      ∙ (λ i. control_plane_lem d.control_plane i && deployments_lem d.machine_deployments i)
