-- ===== src/Cidr/Collect/Tests.antt =====
-- A control plane on one Prism Element cluster, workers on another, and a machine deployment without
-- a configuration.
use cluster_api_runtime_exte.Prelude.{◌↔◌, ◌⊎◌, [], ◌∷◌, Option, none, some, Text, codes, Any}
use cluster_api_runtime_exte.Prism.{uuid_type, name_type, Identifier}
use cluster_api_runtime_exte.Cidr.Collect.{MachineDetails, Dependencies, collect_nutanix_subnets}
use cluster_api_runtime_exte.Cidr.Collect.Pairs.{Uses, Collected, collect_nutanix_subnets-Collected}

abbrev vlan : Identifier
vlan = record { type = name_type; uuid = none; name = some (codes "vlan") }

abbrev element : Text → Identifier
element u = record { type = uuid_type; uuid = some u; name = none }

abbrev details : Text → Option MachineDetails
details u = some (record { subnets = vlan ∷ []; cluster = some (element u) })

abbrev dependencies : Dependencies
dependencies = record {
  control_plane = details (codes "pe1");
  workers = (codes "md-0", none) ∷ (codes "md-1", details (codes "pe2")) ∷ [];
}

collect_nutanix_subnets-Collected_example :
    Collected vlan (some (element (codes "pe2"))) (collect_nutanix_subnets (some dependencies)) ↔ (
      Uses vlan (some (element (codes "pe2"))) dependencies.control_plane
      ⊎ Any (λ w. Uses vlan (some (element (codes "pe2"))) w.1) dependencies.workers)
collect_nutanix_subnets-Collected_example =
    collect_nutanix_subnets-Collected vlan (some (element (codes "pe2"))) dependencies
