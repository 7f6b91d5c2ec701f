-- ===== src/Cidr/Check/Verdict.antt =====
-- When the check lets a cluster through.
use cluster_api_runtime_exte.Prelude.{
  ◌≡◌, refl, Bool, true, false, ◌&&◌, List, [], ◌++◌, Option, none, some, Text, arith, all, codes,
}
use cluster_api_runtime_exte.Preflight.{CheckResult}
use cluster_api_runtime_exte.Cidr.Prefix.{Prefix}
use cluster_api_runtime_exte.Cidr.Check.{
  Netip, NodeSubnet, Resolution, Parsed, parsed, unparsable, parse_cidr_blocks, prefixes_of,
  deny_unparsable, check_networks, check_resolution, allowed_result, run, validate_subnet_and_pod,
  validate_subnet_and_service, validate_pod_cidr, validate_service_cidr, pods_field, services_field,
}
use cluster_api_runtime_exte.Cidr.Check.Loops.{
  is_large, apart, apart_subnets, Goes, Goes-trans, validate_pod_cidr-Goes,
  validate_service_cidr-Goes, validate_pod_and_service-Goes, validate_subnets-Goes,
}

abbrev pub is_parsed : Parsed → Bool
is_parsed (parsed ps) = true
is_parsed (unparsable e) = false

abbrev pub prefixes : Parsed → List Prefix
prefixes (parsed ps) = ps
prefixes (unparsable e) = []

-- Both kinds of CIDRs parse, are large enough, and lie apart.
abbrev pub networks_pass : Parsed → Parsed → Bool
networks_pass pods services =
    is_parsed pods
    && is_parsed services
    && all is_large (prefixes pods)
    && all is_large (prefixes services)
    && apart (prefixes pods) (prefixes services)

-- The node subnets were resolved and lie apart from both.
abbrev pub subnets_pass : Parsed → Parsed → Option Resolution → Bool
subnets_pass pods services none = true
subnets_pass pods services (some res) = elim res.error [
  | some e ↦ false
  | none ↦
      apart_subnets (prefixes pods) res.resolved && apart_subnets (prefixes services) res.resolved
]

abbrev pub resolution_failed : Option Resolution → Bool
resolution_failed none = false
resolution_failed (some res) = elim res.error [ some e ↦ true | none ↦ false ]

module _ (netip : Netip) where
  prefixes_lem : (p : Parsed) → prefixes_of netip p ≡ prefixes p
  unfolding prefixes_of
  prefixes_lem (parsed ps) = refl
  prefixes_lem (unparsable e) = refl

  deny_unparsable-Goes :
      (what field : Text) (p : Parsed) (r : CheckResult)
      → Goes r (deny_unparsable netip what field p r) (is_parsed p)
  unfolding deny_unparsable
  deny_unparsable-Goes what field (parsed ps) r = ground arith
  deny_unparsable-Goes what field (unparsable e) r = ground arith

  check_networks-Goes :
      (pods services : Parsed) (r : CheckResult)
      → Goes r (check_networks netip pods services r) (networks_pass pods services)
  unfolding check_networks
  check_networks-Goes pods services r =
      let r1 = deny_unparsable netip (codes "Invalid Pod CIDR configuration: ") pods_field pods r in
      let r2 =
        deny_unparsable netip (codes "Invalid Service CIDR configuration: ") services_field services
          r1 in
      let r3 = validate_pod_cidr netip r2 (prefixes pods) in
      let r4 = validate_service_cidr netip r3 (prefixes services) in
      let g1 = deny_unparsable-Goes _ pods_field pods r in
      let g2 = deny_unparsable-Goes _ services_field services r1 in
      let g3 = validate_pod_cidr-Goes netip r2 (prefixes pods) in
      let g4 = validate_service_cidr-Goes netip r3 (prefixes services) in
      let g5 = validate_pod_and_service-Goes netip r4 (prefixes pods) (prefixes services) in
      rw (prefixes_lem pods, prefixes_lem services)
        (Goes-trans (Goes-trans (Goes-trans (Goes-trans g1 g2) g3) g4) g5)

  validate_both-Goes :
      (pods services : List Prefix) (r : CheckResult) (ns : List NodeSubnet)
      → Goes r
          (validate_subnet_and_service netip (validate_subnet_and_pod netip r pods ns) services ns)
          (apart_subnets pods ns && apart_subnets services ns)
  unfolding validate_subnet_and_pod validate_subnet_and_service
  validate_both-Goes pods services r ns =
      Goes-trans (validate_subnets-Goes netip _ r pods ns)
        (validate_subnets-Goes netip _ _ services ns)

  -- The check lets a cluster through exactly if both lists of CIDRs parse, every Pod and Service CIDR
  -- is larger than a /24, no Pod CIDR overlaps a Service CIDR, and, if node subnets are looked up,
  -- they are resolved and overlap no Pod or Service CIDR. It reports an internal error exactly if the
  -- lookup failed.
  pub run_verdict :
      (pod_blocks service_blocks : List Text) (res : Option Resolution)
      → let pods = parse_cidr_blocks netip pod_blocks in
        let services = parse_cidr_blocks netip service_blocks in
        let result = run netip pod_blocks service_blocks res in
        (result.allowed ≡ (networks_pass pods services && subnets_pass pods services res))
        × (result.internal_error ≡ resolution_failed res)
  unfolding run check_resolution
  run_verdict pod_blocks service_blocks none =
      let pods = parse_cidr_blocks netip pod_blocks in
      let services = parse_cidr_blocks netip service_blocks in
      let g = check_networks-Goes pods services (allowed_result netip) in ground arith
  run_verdict pod_blocks service_blocks (some res) =
      let pods = parse_cidr_blocks netip pod_blocks in
      let services = parse_cidr_blocks netip service_blocks in
      let g = check_networks-Goes pods services (allowed_result netip) in
      resolved pods services res (check_networks netip pods services (allowed_result netip)) g
        res.error refl
    where
      resolved :
          (pods services : Parsed) (res : Resolution) (r : CheckResult)
          → Goes (allowed_result netip) r (networks_pass pods services)
          → (e : Option Text) → res.error ≡ e
          → ((check_resolution netip pods services
                (record r { warnings = r.warnings ++ res.warnings })
                e
                res.resolved).allowed
              ≡ (networks_pass pods services && subnets_pass pods services (some res)))
            × ((check_resolution netip pods services
                  (record r { warnings = r.warnings ++ res.warnings })
                  e
                  res.resolved).internal_error
                ≡ resolution_failed (some res))
      resolved pods services res r g none q =
          let r' : CheckResult = record r { warnings = r.warnings ++ res.warnings } in
          let v = validate_both-Goes (prefixes pods) (prefixes services) r' res.resolved in
          ground (arith, prefixes_lem pods, prefixes_lem services, v)
      resolved pods services res r g (some e) q = ground arith
