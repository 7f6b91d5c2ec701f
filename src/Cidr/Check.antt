-- ===== src/Cidr/Check.antt =====
-- `cidrValidationCheck.Run` of pkg/webhook/preflight/nutanix/cidrvalidation.go and the validations
-- that it calls. The parser and the printer of prefixes are those of `net/netip`, taken as
-- parameters, and so is the resolution of the node subnets, which is a field of the check.
pub mod Loops
pub mod Verdict
use cluster_api_runtime_exte.Prelude.{
  ℕ, ◌+◌, Bool, true, false, List, [], ◌∷◌, ◌++◌, Option, none, some, Text, codes, decimal, ltb,
  leb, if◌then◌else◌,
}
use cluster_api_runtime_exte.Preflight.{Cause, CheckResult}
use cluster_api_runtime_exte.Cidr.Prefix.{
  Prefix, masked, prefixes_overlap, ipv4_cidr_capacity, max_nodes_for_pod_cidr,
}

pub data Parsed : Type 0 where
  parsed : List Prefix → Parsed
  unparsable : Text → Parsed

-- A node subnet with its resolved prefix.
pub record NodeSubnet : Type 0 where
  pub prefix : Prefix
  pub field : Text
  pub name : Text

-- The three results of `resolveNodeSubnetsFunc`: the error is none or the text of the error.
pub record Resolution : Type 0 where
  pub resolved : List NodeSubnet
  pub warnings : List Text
  pub error : Option Text

-- `netip.ParsePrefix` with the text of its error, and `Prefix.String`.
pub record Netip : Type 0 where
  pub parse_prefix : Text → Option Prefix
  pub parse_error : Text → Text
  pub show : Prefix → Text

abbrev pub pods_field : Text
pods_field = codes "$.spec.clusterNetwork.pods.cidrBlocks"

abbrev pub services_field : Text
services_field = codes "$.spec.clusterNetwork.services.cidrBlocks"

-- `%q` of a text without codes that need an escape, as CIDRs and subnet names are.
abbrev quote : Text → Text
quote s = codes "\"" ++ (s ++ codes "\"")

abbrev pub deny : Text → Text → CheckResult → CheckResult
deny message field r = record r {
  allowed = false;
  causes = r.causes ++ (record { message = message; field = field } ∷ []);
}

abbrev pub warn : Text → CheckResult → CheckResult
warn message r = record r { warnings = r.warnings ++ (message ∷ []) }

module _ (netip : Netip) where
  open netip use {parse_prefix, parse_error, show}

  add_prefix : Text → Option Prefix → Parsed → Parsed
  add_prefix cidr none rest =
      unparsable (codes "failed to parse CIDR " ++ (quote cidr ++ (codes ": " ++ parse_error cidr)))
  add_prefix cidr (some p) (unparsable e) = unparsable e
  add_prefix cidr (some p) (parsed ps) = parsed (masked p ∷ ps)

  -- The first block that does not parse ends the loop.
  unfoldable pub parse_cidr_blocks : List Text → Parsed
  unfolding add_prefix
  parse_cidr_blocks [] = parsed []
  parse_cidr_blocks (cidr ∷ cidrs) = add_prefix cidr (parse_prefix cidr) (parse_cidr_blocks cidrs)

  pod_too_small : Prefix → Text
  pod_too_small p =
      codes "Pod CIDR "
      ++ (quote (show p)
          ++ (codes " has prefix /"
              ++ (decimal p.bits
                  ++ (codes ", which is too small for a cluster with "
                      ++ (decimal (max_nodes_for_pod_cidr p.bits 24)
                          ++ codes
                              " nodes. This prefix size does not allow the cluster to temporarily scale up during an upgrade, or replacement of a failed node. Use a larger prefix, for example /16.")))))

  pod_tight : Prefix → Text
  pod_tight p =
      codes "Pod CIDR "
      ++ (quote (show p)
          ++ (codes " has prefix /"
              ++ (decimal p.bits
                  ++ (codes ", which supports only "
                      ++ (decimal (max_nodes_for_pod_cidr p.bits 24)
                          ++ codes
                              " node(s) with a /24 node mask. Consider a larger prefix, for example /16.")))))

  -- The body of the loop over the Pod CIDRs.
  pub pod_step : CheckResult → Prefix → CheckResult
  pod_step r p =
      if leb 24 p.bits
      then deny (pod_too_small p) pods_field r
      else if leb 21 p.bits
      then warn (pod_tight p) r
      else r

  pub validate_pod_cidr : CheckResult → List Prefix → CheckResult
  validate_pod_cidr r [] = r
  validate_pod_cidr r (p ∷ ps) = validate_pod_cidr (pod_step r p) ps

  service_too_small : Prefix → Option ℕ → Text
  service_too_small p capacity =
      let message =
        codes "Service CIDR "
        ++ (quote (show p)
            ++ (codes " is too small with prefix /"
                ++ (decimal p.bits ++ codes " (/24 or smaller). Minimum /23 recommended."))) in
      elim capacity [
        | none ↦ message
        | some total ↦
            message
            ++ (codes " This CIDR supports up to " ++ (decimal total ++ codes " service IPs."))
      ]

  service_tight : Prefix → Option ℕ → Text
  service_tight p capacity =
      let message =
        codes "Service CIDR "
        ++ (quote (show p) ++ (codes " is tight with prefix /" ++ decimal p.bits)) in
      elim capacity [
        | none ↦
            message
            ++ codes ". You may encounter scaling issues if service count grows significantly."
        | some total ↦
            message
            ++ (codes " and supports up to "
                ++ (decimal total
                    ++ codes
                        " service IPs. You may encounter scaling issues if service count grows significantly."))
      ]

  -- The body of the loop over the Service CIDRs.
  pub service_step : CheckResult → Prefix → CheckResult
  service_step r p =
      if leb 24 p.bits
      then deny (service_too_small p (ipv4_cidr_capacity p)) services_field r
      else if ltb 20 p.bits
      then warn (service_tight p (ipv4_cidr_capacity p)) r
      else r

  pub validate_service_cidr : CheckResult → List Prefix → CheckResult
  validate_service_cidr r [] = r
  validate_service_cidr r (p ∷ ps) = validate_service_cidr (service_step r p) ps

  pod_service_overlap : Prefix → Prefix → Text
  pod_service_overlap pod service =
      codes "Pod CIDR "
      ++ (quote (show pod)
          ++ (codes " overlaps with Service CIDR "
              ++ (quote (show service)
                  ++ codes ". Use non-overlapping Pod and Service CIDR ranges and retry.")))

  -- The inner loop, over the Service CIDRs.
  pub compare_service : Prefix → CheckResult → Prefix → CheckResult
  compare_service pod r s =
      if prefixes_overlap pod s then deny (pod_service_overlap pod s) pods_field r else r

  pub compare_services : Prefix → CheckResult → List Prefix → CheckResult
  compare_services pod r [] = r
  compare_services pod r (s ∷ ss) = compare_services pod (compare_service pod r s) ss

  pub validate_pod_and_service : CheckResult → List Prefix → List Prefix → CheckResult
  validate_pod_and_service r [] services = r
  validate_pod_and_service r (p ∷ ps) services =
      validate_pod_and_service (compare_services p r services) ps services

  -- `what` is "Pod CIDR " or "Service CIDR ": the two functions differ in that word alone.
  subnet_overlap : Text → Prefix → NodeSubnet → Text
  subnet_overlap what p n =
      what
      ++ (quote (show p)
          ++ (codes " overlaps with node subnet "
              ++ (quote n.name
                  ++ (codes " (CIDR "
                      ++ (quote (show n.prefix)
                          ++ codes "). Use non-overlapping ranges and retry.")))))

  pub compare_subnet : Text → Prefix → CheckResult → NodeSubnet → CheckResult
  compare_subnet what p r n =
      if prefixes_overlap p n.prefix then deny (subnet_overlap what p n) n.field r else r

  pub compare_subnets : Text → Prefix → CheckResult → List NodeSubnet → CheckResult
  compare_subnets what p r [] = r
  compare_subnets what p r (n ∷ ns) = compare_subnets what p (compare_subnet what p r n) ns

  pub validate_subnets : Text → CheckResult → List Prefix → List NodeSubnet → CheckResult
  validate_subnets what r [] subnets = r
  validate_subnets what r (p ∷ ps) subnets =
      validate_subnets what (compare_subnets what p r subnets) ps subnets

  validate_subnet_and_pod : CheckResult → List Prefix → List NodeSubnet → CheckResult
  validate_subnet_and_pod r pods subnets = validate_subnets (codes "Pod CIDR ") r pods subnets

  validate_subnet_and_service : CheckResult → List Prefix → List NodeSubnet → CheckResult
  validate_subnet_and_service r services subnets =
      validate_subnets (codes "Service CIDR ") r services subnets

  -- An error leaves the slice of prefixes nil, and denies.
  prefixes_of : Parsed → List Prefix
  prefixes_of (parsed ps) = ps
  prefixes_of (unparsable e) = []

  deny_unparsable : Text → Text → Parsed → CheckResult → CheckResult
  deny_unparsable what field (parsed ps) r = r
  deny_unparsable what field (unparsable e) r = deny (what ++ e) field r

  -- The checks that need no subnets.
  check_networks : Parsed → Parsed → CheckResult → CheckResult
  unfolding prefixes_of deny_unparsable
  check_networks pods services r =
      let r1 = deny_unparsable (codes "Invalid Pod CIDR configuration: ") pods_field pods r in
      let r2 =
        deny_unparsable (codes "Invalid Service CIDR configuration: ") services_field services r1 in
      let r3 = validate_pod_cidr r2 (prefixes_of pods) in
      let r4 = validate_service_cidr r3 (prefixes_of services) in
      validate_pod_and_service r4 (prefixes_of pods) (prefixes_of services)

  unresolved_message : Text → Text
  unresolved_message e =
      codes "Failed to resolve node subnet CIDRs from Prism Central: "
      ++ (e ++ codes ". Please retry.")

  check_resolution : Parsed → Parsed → CheckResult → Option Text → List NodeSubnet → CheckResult
  check_resolution pods services r (some e) subnets = record (deny (unresolved_message e) [] r) {
    internal_error = true;
  }
  check_resolution pods services r none subnets =
      validate_subnet_and_service (validate_subnet_and_pod r (prefixes_of pods) subnets)
        (prefixes_of services) subnets

  abbrev pub allowed_result : CheckResult
  allowed_result = record { allowed = true; internal_error = false; causes = []; warnings = [] }

  -- `Run` of a check with its dependencies. There is a resolution if subnets are configured and
  -- there is a client; otherwise the check ends without one.
  pub run : List Text → List Text → Option Resolution → CheckResult
  unfolding check_networks check_resolution
  run pod_blocks service_blocks none =
      check_networks (parse_cidr_blocks pod_blocks) (parse_cidr_blocks service_blocks)
        allowed_result
  run pod_blocks service_blocks (some res) =
      let pods = parse_cidr_blocks pod_blocks in
      let services = parse_cidr_blocks service_blocks in
      let r = check_networks pods services allowed_result in
      check_resolution pods services (record r { warnings = r.warnings ++ res.warnings }) res.error
        res.resolved
