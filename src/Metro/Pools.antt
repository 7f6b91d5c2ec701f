-- ===== src/Metro/Pools.antt =====
-- clusterNodePools, allNodePoolsMetroCheck and singleMetroCheck of metro.go.
pub mod Verdict
use cluster_api_runtime_exte.Prelude.{
  ℕ, Bool, true, false, not, ◌&&◌, ◌||◌, List, [], ◌∷◌, ◌++◌, map, Option, none, some, Text, codes,
  length, ltb, filter_by, if◌then◌else◌,
}
use cluster_api_runtime_exte.Preflight.{CheckResult}
use cluster_api_runtime_exte.Prism.{quote}
use cluster_api_runtime_exte.Metro.Report.{
  Complaint, pool_without_domain, pool_not_metro, several_metros, passed, fail_check,
}
use cluster_api_runtime_exte.Metro.Domains.{
  CheckDependencies, cp_failure_domains_field, deployment_field, named, is_metro, is_metro_site,
  text_ltb,
}

pub record NodePool : Type 0 where
  pub description : Text
  pub failure_domains : List Text
  pub field : Text

control_plane_pool : Option (List Text) → List NodePool
control_plane_pool none = []
control_plane_pool (some fds) =
    record {
      description = codes "The Control Plane";
      failure_domains = filter_by named fds;
      field = cp_failure_domains_field;
    }
    ∷ []

deployment_pool : Text × Text → NodePool
unfolding deployment_field
deployment_pool md = record {
  description = codes "Worker MachineDeployment " ++ quote md.0;
  failure_domains = filter_by named (md.1 ∷ []);
  field = deployment_field md.0;
}

unfoldable pub cluster_node_pools : CheckDependencies → List NodePool
unfolding control_plane_pool deployment_pool
cluster_node_pools d =
    control_plane_pool d.control_plane ++ map deployment_pool d.machine_deployments

unfoldable pub on_metro : Text → Bool
on_metro fd = is_metro fd || is_metro_site fd

put_name : Text → List Text → List Text
unfolding text_ltb
put_name n [] = n ∷ []
put_name n (x ∷ xs) = let rest = put_name n xs in if text_ltb x n then x ∷ rest else n ∷ x ∷ xs

module _ (say : Complaint → Text) where
  unfoldable pub check_domain : NodePool → CheckResult → Text → CheckResult
  unfolding on_metro
  check_domain np r fd =
      if on_metro fd then r else fail_check say np.field (pool_not_metro np.description fd) r

  unfoldable pub check_domains : NodePool → CheckResult → List Text → CheckResult
  unfolding check_domain
  check_domains np r [] = r
  check_domains np r (fd ∷ fds) = check_domains np (check_domain np r fd) fds

  -- The body of the loop over the node pools.
  unfoldable pub check_pool : CheckResult → NodePool → List Text → CheckResult
  unfolding check_domains
  check_pool r np [] = fail_check say np.field (pool_without_domain np.description) r
  check_pool r np (fd ∷ fds) = check_domains np r (fd ∷ fds)

  unfoldable pub check_pools : CheckResult → List NodePool → CheckResult
  unfolding check_pool
  check_pools r [] = r
  check_pools r (np ∷ nps) = check_pools (check_pool r np np.failure_domains) nps

  unfoldable pub run_all_node_pools : List NodePool → CheckResult
  unfolding check_pools
  run_all_node_pools pools = check_pools passed pools

  -- `sort.Strings`.
  sorted_names : List Text → List Text
  unfolding put_name
  sorted_names [] = []
  sorted_names (n ∷ ns) = put_name n (sorted_names ns)

  unfoldable pub run_single_metro : List Text → Text → CheckResult
  unfolding sorted_names
  run_single_metro metro_names field =
      if ltb 1 (length metro_names)
      then fail_check say field (several_metros (sorted_names metro_names)) passed
      else passed
