-- ===== src/StorageCheck/Plan.antt =====
-- newStorageContainerChecks of storagecontainer.go: one check for each failure domain, or one for the
-- machine details where no failure domain is set.
use cluster_api_runtime_exte.Prelude.{
  Bool, true, false, ◌&&◌, List, [], ◌∷◌, ◌++◌, map, Option, none, some, Text, codes, is_empty,
  lookup, if◌then◌else◌,
}
use cluster_api_runtime_exte.Prism.{Identifier, Answer, ok, err}
use cluster_api_runtime_exte.Metro.Domains.{
  Kube, cp_failure_domains_field, deployment_field, get_failure_domain_names,
}
use cluster_api_runtime_exte.DomainCheck.{FailureDomainCheck}
use cluster_api_runtime_exte.StorageCheck.{StorageContainerCheck, StorageClassConfig}

pub data PlannedCheck : Type 0 where
  storage_check : StorageContainerCheck → PlannedCheck
  domain_check : FailureDomainCheck → PlannedCheck

-- The CSI provider's storage classes, none where a pointer on the way is nil; the failure domains and
-- the machine cluster of the control plane and of each worker configuration; and the failure domain of
-- each machine deployment. `has_objects`: neither the cluster nor the client of the management cluster
-- is nil.
pub record StorageDependencies : Type 0 where
  pub is_ready : Bool
  pub has_objects : Bool
  pub csi : Option (Option (List StorageClassConfig))
  pub control_plane : Option (List Text × Option Identifier)
  pub workers : List (Text × Option (Option Identifier))
  pub domain_by_deployment : List (Text × Text)

module _ (kube : Kube) (configs : Option (List StorageClassConfig)) where
  domain_storage_checks : Text → Text → Answer (List Text) → List PlannedCheck
  domain_storage_checks fd field (err e) =
      domain_check (record {
        failure_domain_name = fd;
        field = cp_failure_domains_field;
        error_message = some e;
      })
      ∷ []
  domain_storage_checks fd field (ok names) =
      map
        (λ n. storage_check (record {
          machine_cluster = none;
          failure_domain_name = n;
          field = field;
          class_configs = configs;
          error_message = none;
        }))
        names

  machine_check : Text → Option Identifier → PlannedCheck
  machine_check field id = storage_check (record {
    machine_cluster = id;
    failure_domain_name = [];
    field = field;
    class_configs = configs;
    error_message = none;
  })

  each_domain : List Text → List PlannedCheck
  unfolding domain_storage_checks
  each_domain [] = []
  each_domain (fd ∷ fds) =
      let rest = each_domain fds in
      if is_empty fd
      then rest
      else domain_storage_checks fd cp_failure_domains_field (get_failure_domain_names kube fd)
        ++ rest

  any_domain_set : List Text → Bool
  any_domain_set [] = false
  any_domain_set (fd ∷ fds) = true

  control_plane_storage : Bool → Option (List Text × Option Identifier) → List PlannedCheck
  unfolding each_domain machine_check any_domain_set
  control_plane_storage has_objects none = []
  control_plane_storage has_objects (some (fds, id)) =
      if any_domain_set fds && has_objects
      then each_domain fds
      else machine_check
          (codes
            "$.spec.topology.variables[?@.name==\"clusterConfig\"].value.controlPlane.nutanix.machineDetails")
          id
        ∷ []

  details_field : Text → Text
  details_field md =
      codes "$.spec.topology.workers.machineDeployments[?@.name==\""
      ++ (md ++ codes "\"].variables[?@.name=workerConfig].value.nutanix.machineDetails")

  worker_check : Text → Option Identifier → Option Text → List PlannedCheck
  unfolding domain_storage_checks machine_check details_field
  worker_check md id none = machine_check (details_field md) id ∷ []
  worker_check md id (some fd) =
      if is_empty fd
      then machine_check (details_field md) id ∷ []
      else domain_storage_checks fd (deployment_field md) (get_failure_domain_names kube fd)

  worker_storage :
      Bool → List (Text × Text) → List (Text × Option (Option Identifier)) → List PlannedCheck
  unfolding worker_check
  worker_storage has_objects domains [] = []
  worker_storage has_objects domains ((md, none) ∷ ws) = worker_storage has_objects domains ws
  worker_storage has_objects domains ((md, some id) ∷ ws) =
      worker_check md id (if has_objects then lookup md domains else none)
      ++ worker_storage has_objects domains ws

configured_storage :
    Kube → StorageDependencies → Option (Option (List StorageClassConfig)) → List PlannedCheck
unfolding control_plane_storage worker_storage
configured_storage kube d none = []
configured_storage kube d (some configs) =
    control_plane_storage kube configs d.has_objects d.control_plane
    ++ worker_storage kube configs d.has_objects d.domain_by_deployment d.workers

unfoldable pub new_storage_container_checks : Kube → StorageDependencies → List PlannedCheck
unfolding configured_storage
new_storage_container_checks kube d = if d.is_ready then configured_storage kube d d.csi else []
