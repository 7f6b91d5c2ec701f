-- ===== src/Cidr/Tests.antt =====
-- A cluster with the Pods in 192.168.0.0/16, the Services in 10.128.0.0/12 and the nodes in
-- 10.1.0.0/16, which the Services overlap.
use cluster_api_runtime_exte.Prelude.{
  ℕ, ◌^◌, ◌≤◌, ◌<◌, ◌≡◌, ◌↔◌, true, List, [], ◌∷◌, Option, none, some, Text, codes, text_eq, ◌&&◌,
  if◌then◌else◌, arith,
}
use cluster_api_runtime_exte.Cidr.Prefix.{Prefix, IsValid, prefixes_overlap}
use cluster_api_runtime_exte.Cidr.Prefix.Addresses.{IsIn, ipv4, prefixes_overlap_iff}
use cluster_api_runtime_exte.Cidr.Check.{Netip, NodeSubnet, Resolution, parse_cidr_blocks, run}
use cluster_api_runtime_exte.Cidr.Check.Verdict.{
  networks_pass, subnets_pass, resolution_failed, run_verdict,
}

abbrev pub pods : Prefix
pods = ipv4 3232235520 16

abbrev pub services : Prefix
services = ipv4 176160768 12

abbrev pub nodes : Prefix
nodes = ipv4 167837696 16

unfoldable pub parse_table : Text → Option Prefix
parse_table t =
    if text_eq t (codes "192.168.0.0/16")
    then some pods
    else if text_eq t (codes "10.128.0.0/12")
    then some services
    else if text_eq t (codes "10.1.0.0/16")
    then some nodes
    else none

abbrev pub netip : Netip
netip = record { parse_prefix = parse_table; parse_error = λ t. codes "bad prefix"; show = λ p. [] }

abbrev pub node_subnet : NodeSubnet
node_subnet = record { prefix = nodes; field = codes "$.spec"; name = codes "vlan" }

abbrev nodes_resolved : Resolution
nodes_resolved = record { resolved = node_subnet ∷ []; warnings = []; error = none }

valid : (a b : ℕ) → a < 2 ^ 32 → b ≤ 32 → IsValid (ipv4 a b)
valid a b f s = record { fits = f; short = s }

prefixes_overlap_iff_example :
    (prefixes_overlap services nodes ≡ true) ↔ ((x : ℕ) × IsIn services true x × IsIn nodes true x)
prefixes_overlap_iff_example =
    prefixes_overlap_iff services nodes (valid 176160768 12 (omega arith) (omega arith))
      (valid 167837696 16 (omega arith) (omega arith))

abbrev pod_blocks : List Text
pod_blocks = codes "192.168.0.0/16" ∷ []

abbrev service_blocks : List Text
service_blocks = codes "10.128.0.0/12" ∷ []

run_verdict_example :
    let pods = parse_cidr_blocks netip pod_blocks in
    let services = parse_cidr_blocks netip service_blocks in
    let result = run netip pod_blocks service_blocks (some nodes_resolved) in
    (result.allowed
      ≡ (networks_pass pods services && subnets_pass pods services (some nodes_resolved)))
    × (result.internal_error ≡ resolution_failed (some nodes_resolved))
run_verdict_example = run_verdict netip pod_blocks service_blocks (some nodes_resolved)
