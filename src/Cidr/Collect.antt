-- ===== src/Cidr/Collect.antt =====
-- collectNutanixSubnets of pkg/webhook/preflight/nutanix/cidrvalidation.go. The worker configurations
-- are a Go map: their list has the order in which the loop meets them.
pub mod Pairs
pub mod Tests
use cluster_api_runtime_exte.Prelude.{
  ℕ, ◌+◌, List, [], ◌∷◌, ◌++◌, Option, none, some, Text, codes, decimal,
}
use cluster_api_runtime_exte.Prism.{Identifier}
use cluster_api_runtime_exte.Cidr.Resolve.{Subnet}

pub record MachineDetails : Type 0 where
  pub subnets : List Identifier
  pub cluster : Option Identifier

-- The machine details of the control plane and of the machine deployments, by the name of these; none
-- where a pointer on the way to them is nil.
pub record Dependencies : Type 0 where
  pub control_plane : Option MachineDetails
  pub workers : List (Text × Option MachineDetails)

control_plane_field : ℕ → Text
control_plane_field i =
    codes
      "$.spec.topology.variables[?@.name==\"clusterConfig\"].value.controlPlane.nutanix.machineDetails.subnets["
    ++ (decimal i ++ codes "]")

worker_field : Text → ℕ → Text
worker_field name i =
    codes "$.spec.topology.workers.machineDeployments[?@.name==\""
    ++ (name
        ++ (codes "\"].variables[?@.name=workerConfig].value.nutanix.machineDetails.subnets["
            ++ (decimal i ++ codes "]")))

-- A loop over the subnets of one configuration, from the index `i` on.
collect_from : (ℕ → Text) → Option Identifier → ℕ → List Identifier → List Subnet
collect_from field cluster i [] = []
collect_from field cluster i (id ∷ ids) =
    record { id = id; field = field i; cluster = cluster } ∷ collect_from field cluster (i + 1) ids

collect_details : (ℕ → Text) → Option MachineDetails → List Subnet
unfolding collect_from
collect_details field none = []
collect_details field (some d) = collect_from field d.cluster 0 d.subnets

collect_workers : List (Text × Option MachineDetails) → List Subnet
unfolding collect_details worker_field
collect_workers [] = []
collect_workers (w ∷ ws) = collect_details (worker_field w.0) w.1 ++ collect_workers ws

-- `cd` of nil has no subnets.
pub collect_nutanix_subnets : Option Dependencies → List Subnet
unfolding collect_workers control_plane_field
collect_nutanix_subnets none = []
collect_nutanix_subnets (some cd) =
    collect_details control_plane_field cd.control_plane ++ collect_workers cd.workers
