-- ===== src/Metro/Tests.antt =====
-- Concrete clusters on a NutanixMetro.
use cluster_api_runtime_exte.Prelude.{
  ◌+◌, ◌≤◌, ◌≡◌, ◌↔◌, refl, true, List, [], ◌∷◌, none, some, Text, codes, length, text_eq, lookup,
  insert, decimal, all, All, if◌then◌else◌,
}
use cluster_api_runtime_exte.Prism.{
  Identifier, uuid_type, PcSubnet, no_response, got, Client, ok, uuid_of, get_clusters, get_subnets,
}
use cluster_api_runtime_exte.Metro.Report.{Complaint}
use cluster_api_runtime_exte.Metro.Domains.{
  Kube, MetroSite, NutanixFailureDomain, found, CheckDependencies, referenced_metros,
  cluster_failure_domain_names, cluster_failure_domains, metro_name_from_failure_domain,
  strip_prefix, get_failure_domain_names, is_metro, member,
}
use cluster_api_runtime_exte.Metro.Pools.{cluster_node_pools, run_single_metro, run_all_node_pools}
use cluster_api_runtime_exte.Metro.Pools.Verdict.{protected, run_all_node_pools-allowed}
use cluster_api_runtime_exte.Metro.Elements.{measured, run_scale, run_hosting, run_latency}
use cluster_api_runtime_exte.Metro.Elements.Span.{SpansTwo, run_scale-allowed}
use cluster_api_runtime_exte.Metro.Elements.Hosting.{OffHost, run_hosting-allowed}
use cluster_api_runtime_exte.Metro.Sites.{sites_of, run_sites_identity, run_category_name}
use cluster_api_runtime_exte.Metro.Sites.Apart.{Pinned, run_sites_identity-allowed}
use cluster_api_runtime_exte.Metro.Sites.Names.{run_category_name-allowed}
use cluster_api_runtime_exte.Metro.Network.{run_metro}
use cluster_api_runtime_exte.Metro.Network.Layers.{Consistent, run_metro-Consistent}
use cluster_api_runtime_exte.Metro.Plan.{metro_names, run_metro_check, new_metro_checks}
use cluster_api_runtime_exte.Metro.Plan.Allowed.{Placed, allows, new_metro_checks-Placed}

abbrev say : Complaint → Text
say c = codes "refused"

abbrev by_uuid : Text → Identifier
by_uuid u = record { type = uuid_type; uuid = some u; name = none }

abbrev vlan : PcSubnet
vlan = record {
  cluster_reference = none;
  ip_config = [];
  subnet_type = some (codes "VLAN");
  vpc_reference = none;
  network_id = some 7;
  ip_prefix = some (codes "10.0.0.0/24");
}

abbrev pub client : Client
client = record {
  get_subnet_by_id = λ u. got vlan;
  list_subnets = λ f. no_response;
  get_cluster_by_id = λ u. got (some u);
  list_clusters = λ f. no_response;
}

abbrev domain_on : Text → NutanixFailureDomain
domain_on pe = record { prism_element = by_uuid pe; subnets = by_uuid (codes "net") ∷ [] }

abbrev site : Text → Text → MetroSite
site name fd = record { name = name; metro = codes "m"; preferred = fd; group_label = none }

abbrev two_sites : List MetroSite
two_sites = site (codes "s1") (codes "a") ∷ site (codes "s2") (codes "b") ∷ []

abbrev pub kube : Kube
kube = record {
  get_metro = λ n. found (codes "a" ∷ codes "b" ∷ []);
  get_site = λ n. found (site n (codes "a"));
  get_domain = λ n.
      if text_eq n (codes "a")
      then found (domain_on (codes "p1"))
      else found (domain_on (codes "p2"));
  list_sites = ok two_sites;
}

abbrev pub cluster : CheckDependencies
cluster = record {
  cluster_name = codes "c";
  control_plane = some (codes "NutanixMetro/m" ∷ []);
  machine_deployments = (codes "md", codes "NutanixMetro/m") ∷ [];
}

abbrev two_names : List Text
two_names = codes "a" ∷ codes "b" ∷ []

run_all_node_pools-allowed_example :
    (run_all_node_pools say (cluster_node_pools cluster)).allowed ≡ protected cluster
run_all_node_pools-allowed_example = run_all_node_pools-allowed say cluster

run_scale-allowed_example :
    ((run_scale say kube client (codes "f") two_names none).allowed ≡ true)
    ↔ SpansTwo kube client two_names
run_scale-allowed_example = run_scale-allowed say kube client (codes "f") two_names

run_hosting-allowed_example :
    ((run_hosting say kube client (ok (codes "p3")) (codes "f") two_names none).allowed ≡ true)
    ↔ All (OffHost kube client (codes "p3")) two_names
unfolding codes
run_hosting-allowed_example =
    run_hosting-allowed say kube client (codes "p3") (codes "f") two_names refl

run_sites_identity-allowed_example :
    ((run_sites_identity say (codes "f") kube (codes "m" ∷ [])).allowed ≡ true)
    ↔ All (λ metro. Pinned (sites_of (codes "m" ∷ []) metro two_sites)) (codes "m" ∷ [])
run_sites_identity-allowed_example =
    run_sites_identity-allowed say (codes "f") kube (codes "m" ∷ []) two_sites refl

run_category_name-allowed_example :
    ((run_category_name say (codes "f") (codes "c") (codes "m" ∷ [])).allowed ≡ true)
    ↔ All (λ metro. length (codes "c") + length metro ≤ 40) (codes "m" ∷ [])
run_category_name-allowed_example =
    run_category_name-allowed say (codes "f") (codes "c") (codes "m" ∷ [])

metro_allowed : (run_metro say (codes "m") (codes "f") kube client none).allowed ≡ true
unfolding run_metro codes text_eq get_clusters get_subnets lookup insert decimal uuid_of
metro_allowed = refl

run_metro-Consistent_example :
    (fds : List Text) × (kube.get_metro (codes "m") ≡ found fds) × Consistent kube client fds
run_metro-Consistent_example =
    run_metro-Consistent say (codes "m") (codes "f") kube client metro_allowed

checks_allowed :
    all
      (allows say kube client (ok (codes "p3")) (λ a b. measured 900))
      (new_metro_checks kube true cluster)
    ≡ true
unfolding new_metro_checks referenced_metros cluster_failure_domain_names run_metro_check codes
    text_eq get_clusters get_subnets lookup insert decimal uuid_of run_all_node_pools
    run_sites_identity run_category_name run_scale run_hosting run_metro run_latency
    run_single_metro cluster_node_pools cluster_failure_domains metro_name_from_failure_domain
    strip_prefix get_failure_domain_names is_metro sites_of
checks_allowed = refl

names_of : metro_names (referenced_metros kube cluster) ≡ codes "m" ∷ []
unfolding referenced_metros metro_names codes text_eq cluster_failure_domains
    metro_name_from_failure_domain strip_prefix member
names_of = refl

new_metro_checks-Placed_example :
    Placed say kube client (ok (codes "p3")) (λ a b. measured 900) cluster (codes "m")
new_metro_checks-Placed_example =
    new_metro_checks-Placed say kube client (ok (codes "p3")) (λ a b. measured 900) cluster
      (codes "m") [] names_of checks_allowed
