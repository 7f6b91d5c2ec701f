-- ===== src/StorageCheck.antt =====
-- pkg/webhook/preflight/nutanix/storagecontainer.go: newStorageContainerChecks, the `Run` of its checks
-- and getStorageContainers. A Go map is the list of its entries, in the order in which the loop meets
-- them. `sync.OnceValues` makes one call for all configurations, and the client here answers the same
-- to the same call. The wording of the messages is a parameter.
pub mod Plan
pub mod Allowed
pub mod Stored
pub mod Tests
use cluster_api_runtime_exte.Prelude.{
  ℕ, Bool, true, false, List, [], ◌∷◌, ◌++◌, map, Option, none, some, Text, codes, is_empty, length,
  lookup, if◌then◌else◌,
}
use cluster_api_runtime_exte.Preflight.{Cause, CheckResult, Outcome, returned, panicked}
use cluster_api_runtime_exte.Prism.{
  Identifier, Client, Reply, Answer, ok, err, listed, get_clusters,
}
use cluster_api_runtime_exte.Metro.Domains.{
  Kube, Got, found, not_found, get_failed, NutanixFailureDomain, cp_failure_domains_field,
  deployment_field, get_failure_domain_names,
}
use cluster_api_runtime_exte.DomainCheck.{FailureDomainCheck}

pub data StorageRefusal : Type 0 where
  storage_unresolved : Text → StorageRefusal
  no_class_configs : StorageRefusal
  storage_domain_missing : Text → StorageRefusal
  storage_domain_unknown : Text → Text → StorageRefusal
  cluster_unresolved : Text → Identifier → Text → StorageRefusal
  clusters_matched : ℕ → Identifier → StorageRefusal
  containers_unknown : Text → Identifier → Text → StorageRefusal
  no_container : Text → Identifier → StorageRefusal
  several_containers : ℕ → Text → Identifier → StorageRefusal

-- The parameters of a storage class, or none for a nil map.
abbrev pub StorageClassConfig : Type 0
StorageClassConfig = Option (List (Text × Text))

-- The cluster of the machine details is none for a nil pointer.
pub record StorageContainerCheck : Type 0 where
  pub machine_cluster : Option Identifier
  pub failure_domain_name : Text
  pub field : Text
  pub class_configs : Option (List StorageClassConfig)
  pub error_message : Option Text

abbrev pub storage_container_key : Text
storage_container_key = codes "storageContainer"

abbrev csi_field : Text
csi_field =
    codes "$.spec.topology.variables[?@.name==\"clusterConfig\"].value.addons.csi.providers.nutanix"

abbrev container_field : Text
container_field = csi_field ++ codes ".storageClassConfigs.volume.parameters.storageContainer"

abbrev nil_pointer : Outcome
nil_pointer = panicked (codes "runtime error: invalid memory address or nil pointer dereference")

abbrev pub none_refused : CheckResult
none_refused = record { allowed = true; internal_error = false; causes = []; warnings = [] }

unfoldable pub container_filter : Text → Text → Text
container_filter name cluster =
    codes "name eq '" ++ (name ++ (codes "' and clusterExtId eq '" ++ (cluster ++ codes "'")))

-- `list_containers` is the call of the client with a filter.
unfoldable pub get_storage_containers :
    (Text → Reply (List Text)) → Text → Text → Answer (List Text)
unfolding container_filter listed
get_storage_containers list_containers cluster name =
    listed (codes "ListStorageContainers") (list_containers (container_filter name cluster))

module _ (say : StorageRefusal → Text) where
  unfoldable pub reject : Text → StorageRefusal → CheckResult → CheckResult
  reject field c r = record r {
    allowed = false;
    causes = r.causes ++ (record { message = say c; field = field } ∷ []);
  }

  unfoldable pub reject_internal : Text → StorageRefusal → CheckResult → CheckResult
  unfolding reject
  reject_internal field c r = reject field c (record r { internal_error = true })

  found_containers : Text → Text → Identifier → CheckResult → Answer (List Text) → CheckResult
  unfolding reject reject_internal
  found_containers field name id r (err e) =
      reject_internal (field ++ codes ".cluster") (containers_unknown name id e) r
  found_containers field name id r (ok []) = reject container_field (no_container name id) r
  found_containers field name id r (ok (c ∷ [])) = r
  found_containers field name id r (ok (c ∷ d ∷ cs)) =
      reject_internal container_field (several_containers (length (c ∷ d ∷ cs)) name id) r

  module _ (list_containers : Text → Reply (List Text)) (client : Client) where
    matched_clusters :
        Text → Text → Identifier → CheckResult → Answer (List (Option Text)) → Outcome
    unfolding found_containers get_storage_containers reject reject_internal
    matched_clusters field name id r (err e) =
        returned (reject_internal (field ++ codes ".cluster") (cluster_unresolved name id e) r)
    matched_clusters field name id r (ok []) =
        returned (reject (field ++ codes ".cluster") (clusters_matched 0 id) r)
    matched_clusters field name id r (ok (none ∷ [])) = nil_pointer
    matched_clusters field name id r (ok (some u ∷ [])) =
        returned (found_containers field name id r (get_storage_containers list_containers u name))
    matched_clusters field name id r (ok (a ∷ b ∷ cs)) =
        returned (reject (field ++ codes ".cluster") (clusters_matched (length (a ∷ b ∷ cs)) id) r)

    named_container : Text → Option Identifier → CheckResult → Option Text → Outcome
    unfolding matched_clusters
    named_container field id r none = returned r
    named_container field none r (some name) = nil_pointer
    named_container field (some id) r (some name) =
        matched_clusters field name id r (get_clusters client id)

    -- The body of the loop over the storage classes.
    unfoldable pub check_config :
        Text → Option Identifier → CheckResult → StorageClassConfig → Outcome
    unfolding named_container
    check_config field id r none = returned r
    check_config field id r (some parameters) =
        named_container field id r (lookup storage_container_key parameters)

    unfoldable pub check_configs :
        Text → Option Identifier → List StorageClassConfig → Outcome → Outcome
    unfolding check_config
    check_configs field id [] o = o
    check_configs field id (c ∷ cs) (panicked m) = panicked m
    check_configs field id (c ∷ cs) (returned r) =
        check_configs field id cs (check_config field id r c)

    domain_element : Text → Text → List StorageClassConfig → Got NutanixFailureDomain → Outcome
    unfolding check_configs reject reject_internal
    domain_element field fd cs (not_found e) =
        returned (reject (field ++ codes ".failureDomain") (storage_domain_missing fd) none_refused)
    domain_element field fd cs (get_failed e) = returned (
        reject_internal (field ++ codes ".failureDomain") (storage_domain_unknown fd e)
          none_refused)
    domain_element field fd cs (found d) =
        check_configs field (some d.prism_element) cs (returned none_refused)

    module _ (kube : Kube) where
      run_configs : StorageContainerCheck → Option (List StorageClassConfig) → Outcome
      unfolding domain_element check_configs reject
      run_configs c none = returned (reject csi_field no_class_configs none_refused)
      run_configs c (some cs) =
          if is_empty c.failure_domain_name
          then check_configs c.field c.machine_cluster cs (returned none_refused)
          else domain_element c.field c.failure_domain_name cs
              (kube.get_domain c.failure_domain_name)

      run_unless : StorageContainerCheck → Option Text → Outcome
      unfolding run_configs reject
      run_unless c (some e) = returned (reject c.field (storage_unresolved e) none_refused)
      run_unless c none = run_configs c c.class_configs

      unfoldable pub run_storage_container : StorageContainerCheck → Outcome
      unfolding run_unless
      run_storage_container c = run_unless c c.error_message
