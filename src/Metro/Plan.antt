-- ===== src/Metro/Plan.antt =====
-- newMetroChecks of metro.go: which checks a cluster gets, and what each run of them does.
pub mod Allowed
use cluster_api_runtime_exte.Prelude.{
  ℕ, Bool, true, false, not, List, [], ◌∷◌, ◌++◌, map, Option, none, some, Text, is_empty, length,
  ltb, if◌then◌else◌,
}
use cluster_api_runtime_exte.Preflight.{CheckResult}
use cluster_api_runtime_exte.Prism.{Client, Answer}
use cluster_api_runtime_exte.Metro.Report.{Complaint}
use cluster_api_runtime_exte.Metro.Domains.{
  Kube, CheckDependencies, MetroReference, referenced_metros, cluster_failure_domain_names,
}
use cluster_api_runtime_exte.Metro.Pools.{
  NodePool, cluster_node_pools, run_all_node_pools, run_single_metro,
}
use cluster_api_runtime_exte.Metro.Elements.{Rtt, run_scale, run_hosting, run_latency}
use cluster_api_runtime_exte.Metro.Sites.{run_sites_identity, run_category_name}
use cluster_api_runtime_exte.Metro.Network.{run_metro}

pub data MetroCheck : Type 0 where
  metro_check : MetroReference → MetroCheck
  single_metro_check : List Text → Text → MetroCheck
  scale_check hosting_check latency_check : List Text → Text → Option Text → MetroCheck
  node_pools_check : List NodePool → MetroCheck
  sites_check : List Text → Text → MetroCheck
  category_check : Text → List Text → Text → MetroCheck

abbrev resolved : Option Text → Bool
resolved none = true
resolved (some e) = false

-- The names of the NutanixMetros that were resolved, and the field of the first of them.
unfoldable pub metro_names : List MetroReference → List Text
metro_names [] = []
metro_names (r ∷ rs) =
    let rest = metro_names rs in if resolved r.error then r.metro_name ∷ rest else rest

unfoldable pub first_field : Text → List MetroReference → Text
first_field field [] = field
first_field field (r ∷ rs) =
    first_field (if resolved r.error then if is_empty field then r.field else field else field) rs

unfoldable pub single_checks : List Text → Text → List MetroCheck
single_checks names field = if ltb 1 (length names) then single_metro_check names field ∷ [] else []

-- The checks of a cluster on a NutanixMetro.
unfoldable pub placed_checks :
    CheckDependencies → List Text × Option Text → List Text → Text → List MetroCheck
placed_checks d fds [] field = []
placed_checks d fds (n ∷ ns) field =
    scale_check fds.0 field fds.1
    ∷ hosting_check fds.0 field fds.1
    ∷ latency_check fds.0 field fds.1
    ∷ node_pools_check (cluster_node_pools d)
    ∷ sites_check (n ∷ ns) field
    ∷ category_check d.cluster_name (n ∷ ns) field
    ∷ []

module _ (kube : Kube) where
  checks_of : CheckDependencies → List MetroReference → List MetroCheck
  unfolding metro_names first_field single_checks placed_checks
  checks_of d refs =
      let names = metro_names refs in
      let field = first_field [] refs in
      map metro_check refs
      ++ (single_checks names field
          ++ placed_checks d (cluster_failure_domain_names kube d) names field)

  -- `is_ready`: the clients are there and the version of Prism Central is known.
  unfoldable pub new_metro_checks : Bool → CheckDependencies → List MetroCheck
  unfolding checks_of
  new_metro_checks is_ready d = if is_ready then checks_of d (referenced_metros kube d) else []

module _ (say : Complaint → Text) (kube : Kube) (client : Client) (host : Answer Text)
    (rtt : Text → Text → Rtt) where
  unfoldable pub run_metro_check : MetroCheck → CheckResult
  run_metro_check (metro_check r) = run_metro say r.metro_name r.field kube client r.error
  run_metro_check (single_metro_check names field) = run_single_metro say names field
  run_metro_check (scale_check fds field e) = run_scale say kube client field fds e
  run_metro_check (hosting_check fds field e) = run_hosting say kube client host field fds e
  run_metro_check (latency_check fds field e) = run_latency say kube client rtt field fds e
  run_metro_check (node_pools_check nps) = run_all_node_pools say nps
  run_metro_check (sites_check names field) = run_sites_identity say field kube names
  run_metro_check (category_check cluster names field) = run_category_name say field cluster names
