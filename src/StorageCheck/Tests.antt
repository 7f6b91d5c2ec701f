-- ===== src/StorageCheck/Tests.antt =====
-- A storage class whose container is on the cluster of a failure domain.
use cluster_api_runtime_exte.Prelude.{◌≡◌, ◌↔◌, refl, true, List, [], ◌∷◌, none, some, Text, codes}
use cluster_api_runtime_exte.Prism.{Reply, got}
use cluster_api_runtime_exte.Metro.Tests.{kube, client}
use cluster_api_runtime_exte.DomainCheck.Allowed.{allowed}
use cluster_api_runtime_exte.StorageCheck.{
  StorageRefusal, StorageContainerCheck, storage_container_key, run_storage_container,
}
use cluster_api_runtime_exte.StorageCheck.Stored.{Stored, run_storage_container-Stored}

abbrev storage_wording : StorageRefusal → Text
storage_wording r = codes "refused"

abbrev list_containers : Text → Reply (List Text)
list_containers f = got (codes "default" ∷ [])

abbrev on_domain : StorageContainerCheck
on_domain = record {
  machine_cluster = none;
  failure_domain_name = codes "a";
  field = codes "f";
  class_configs = some (some ((storage_container_key, codes "default") ∷ []) ∷ []);
  error_message = none;
}

run_storage_container-Stored_example :
    (allowed (run_storage_container storage_wording list_containers client kube on_domain) ≡ true)
    ↔ Stored list_containers client kube on_domain
run_storage_container-Stored_example =
    run_storage_container-Stored storage_wording list_containers client kube on_domain refl
