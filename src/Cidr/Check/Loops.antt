-- ===== src/Cidr/Check/Loops.antt =====
-- What each validation does to `Allowed` and `InternalError`.
use cluster_api_runtime_exte.Prelude.{
  ◌≡◌, Bool, true, not, ◌&&◌, List, [], ◌∷◌, Text, arith, all, ltb,
}
use cluster_api_runtime_exte.Preflight.{CheckResult}
use cluster_api_runtime_exte.Cidr.Prefix.{Prefix, prefixes_overlap}
use cluster_api_runtime_exte.Cidr.Check.{
  Netip, NodeSubnet, pod_step, service_step, compare_service, compare_subnet, validate_pod_cidr,
  validate_service_cidr, compare_services, validate_pod_and_service, compare_subnets,
  validate_subnets,
}

-- The prefix is shorter than /24.
abbrev pub is_large : Prefix → Bool
is_large p = ltb p.bits 24

abbrev pub apart : List Prefix → List Prefix → Bool
apart ps qs = all (λ p. all (λ q. not (prefixes_overlap p q)) qs) ps

abbrev pub apart_subnets : List Prefix → List NodeSubnet → Bool
apart_subnets ps ns = all (λ p. all (λ n. not (prefixes_overlap p n.prefix)) ns) ps

-- How a result goes on: it stays allowed only under a test, and internal errors stay as they are.
pub record Goes (r r' : CheckResult) (test : Bool) : Type 0 where
  pub stays : r'.allowed ≡ (r.allowed && test)
  pub same_error : r'.internal_error ≡ r.internal_error

Goes-refl : (r : CheckResult) → Goes r r true
Goes-refl r = ground arith

pub Goes-trans : {a b c : CheckResult} {s t : Bool} → Goes a b s → Goes b c t → Goes a c (s && t)
Goes-trans f g = ground arith

module _ (netip : Netip) where
  pod_step-Goes : (r : CheckResult) (p : Prefix) → Goes r (pod_step netip r p) (is_large p)
  unfolding pod_step
  pod_step-Goes r p = ground arith

  service_step-Goes : (r : CheckResult) (p : Prefix) → Goes r (service_step netip r p) (is_large p)
  unfolding service_step
  service_step-Goes r p = ground arith

  compare_service-Goes :
      (p : Prefix) (r : CheckResult) (s : Prefix)
      → Goes r (compare_service netip p r s) (not (prefixes_overlap p s))
  unfolding compare_service
  compare_service-Goes p r s = ground arith

  compare_subnet-Goes :
      (what : Text) (p : Prefix) (r : CheckResult) (n : NodeSubnet)
      → Goes r (compare_subnet netip what p r n) (not (prefixes_overlap p n.prefix))
  unfolding compare_subnet
  compare_subnet-Goes what p r n = ground arith

  pub validate_pod_cidr-Goes :
      (r : CheckResult) (ps : List Prefix) → Goes r (validate_pod_cidr netip r ps) (all is_large ps)
  unfolding validate_pod_cidr
  validate_pod_cidr-Goes r [] = Goes-refl r
  validate_pod_cidr-Goes r (p ∷ ps) =
      Goes-trans (pod_step-Goes r p) (validate_pod_cidr-Goes (pod_step netip r p) ps)

  pub validate_service_cidr-Goes :
      (r : CheckResult) (ps : List Prefix)
      → Goes r (validate_service_cidr netip r ps) (all is_large ps)
  unfolding validate_service_cidr
  validate_service_cidr-Goes r [] = Goes-refl r
  validate_service_cidr-Goes r (p ∷ ps) =
      Goes-trans (service_step-Goes r p) (validate_service_cidr-Goes (service_step netip r p) ps)

  compare_services-Goes :
      (p : Prefix) (r : CheckResult) (ss : List Prefix)
      → Goes r (compare_services netip p r ss) (all (λ s. not (prefixes_overlap p s)) ss)
  unfolding compare_services
  compare_services-Goes p r [] = Goes-refl r
  compare_services-Goes p r (s ∷ ss) =
      Goes-trans (compare_service-Goes p r s)
        (compare_services-Goes p (compare_service netip p r s) ss)

  pub validate_pod_and_service-Goes :
      (r : CheckResult) (ps ss : List Prefix)
      → Goes r (validate_pod_and_service netip r ps ss) (apart ps ss)
  unfolding validate_pod_and_service
  validate_pod_and_service-Goes r [] ss = Goes-refl r
  validate_pod_and_service-Goes r (p ∷ ps) ss =
      Goes-trans (compare_services-Goes p r ss)
        (validate_pod_and_service-Goes (compare_services netip p r ss) ps ss)

  compare_subnets-Goes :
      (what : Text) (p : Prefix) (r : CheckResult) (ns : List NodeSubnet)
      → Goes r (compare_subnets netip what p r ns) (all (λ n. not (prefixes_overlap p n.prefix)) ns)
  unfolding compare_subnets
  compare_subnets-Goes what p r [] = Goes-refl r
  compare_subnets-Goes what p r (n ∷ ns) =
      Goes-trans (compare_subnet-Goes what p r n)
        (compare_subnets-Goes what p (compare_subnet netip what p r n) ns)

  pub validate_subnets-Goes :
      (what : Text) (r : CheckResult) (ps : List Prefix) (ns : List NodeSubnet)
      → Goes r (validate_subnets netip what r ps ns) (apart_subnets ps ns)
  unfolding validate_subnets
  validate_subnets-Goes what r [] ns = Goes-refl r
  validate_subnets-Goes what r (p ∷ ps) ns =
      Goes-trans (compare_subnets-Goes what p r ns)
        (validate_subnets-Goes what (compare_subnets netip what p r ns) ps ns)
