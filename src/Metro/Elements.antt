-- ===== src/Metro/Elements.antt =====
-- failureDomainPrismElementUUID, clusterPrismElementScaleCheck, prismCentralMetroHostingCheck and
-- metroReplicationLatencyCheck of metro.go. The round-trip time, a float of milliseconds, is a natural
-- number of microseconds.
pub mod Distinct
pub mod Span
pub mod Hosting
use cluster_api_runtime_exte.Prelude.{
  ℕ, Bool, true, false, not, List, [], ◌∷◌, ◌++◌, Option, none, some, Text, codes, text_eq,
  is_empty, length, ltb, ◌==◌, decimal, if◌then◌else◌,
}
use cluster_api_runtime_exte.Preflight.{CheckResult}
use cluster_api_runtime_exte.Prism.{Identifier, Client, Answer, ok, err, get_clusters}
use cluster_api_runtime_exte.Metro.Report.{
  Complaint, span_unknown, elements_unknown, element_unknown, wrong_span, hosting_unknown,
  hosts_prism_central, rtt_unknown, rtt_exceeded, passed, fail_check, fail_check_internal,
}
use cluster_api_runtime_exte.Metro.Domains.{
  Kube, Got, found, not_found, get_failed, NutanixFailureDomain, member,
}

pub data Rtt : Type 0 where
  measured : ℕ → Rtt
  undetermined : Rtt
  rtt_failed : Text → Rtt

abbrev pub metro_prism_element_count : ℕ
metro_prism_element_count = 2

abbrev pub metro_max_rtt : ℕ
metro_max_rtt = 5000

-- The only Prism Element, with its `ExtId`; the texts wrapped round an error are left out.
unfoldable pub one_cluster : Answer (List (Option Text)) → Answer Text
one_cluster (err e) = err e
one_cluster (ok []) = err (codes "found 0 Prism Element cluster(s), expected exactly 1")
one_cluster (ok (some c ∷ [])) = ok c
one_cluster (ok (none ∷ [])) = err (codes "no ExtId returned for Prism Element cluster")
one_cluster (ok (c ∷ d ∷ cs)) = err (
    codes "found "
    ++ (decimal (length (c ∷ d ∷ cs)) ++ codes " Prism Element cluster(s), expected exactly 1"))

unfoldable pub add_element : List Text → Text → List Text
add_element uuids u = if member u uuids then uuids else uuids ++ (u ∷ [])

pub data Elements : Type 0 where
  elements : List Text → Elements
  no_element : Text → Text → Elements

module _ (kube : Kube) (client : Client) where
  unfoldable pub element_of : Got NutanixFailureDomain → Answer Text
  unfolding one_cluster
  element_of (not_found e) = err e
  element_of (get_failed e) = err e
  element_of (found fd) = one_cluster (get_clusters client fd.prism_element)

  unfoldable pub failure_domain_prism_element : Text → Answer Text
  unfolding element_of
  failure_domain_prism_element fd = element_of (kube.get_domain fd)

  -- The loop that collects the Prism Elements of the failure domains, each once and in the order of
  -- the failure domains; it ends at the first failure domain without one.
  unfoldable pub collect_elements : List Text → List Text → Elements
  unfolding add_element failure_domain_prism_element
  collect_elements uuids [] = elements uuids
  collect_elements uuids (fd ∷ fds) = elim (failure_domain_prism_element fd) [
    | ok u ↦ collect_elements (add_element uuids u) fds
    | err e ↦ no_element fd e
  ]

module _ (say : Complaint → Text) (kube : Kube) (client : Client) where
  scale_verdict : Text → List Text → Elements → CheckResult
  scale_verdict field names (no_element fd e) =
      fail_check_internal say field (element_unknown fd e) passed
  scale_verdict field names (elements uuids) =
      if length uuids == metro_prism_element_count
      then passed
      else fail_check say field (wrong_span (length uuids) names) passed

  unfoldable pub run_scale : Text → List Text → Option Text → CheckResult
  unfolding scale_verdict collect_elements
  run_scale field names (some e) = fail_check say field (span_unknown e) passed
  run_scale field names none = scale_verdict field names (collect_elements kube client [] names)

  unfoldable pub hosting_scan : Text → Text → List Text → CheckResult
  unfolding failure_domain_prism_element
  hosting_scan field host [] = passed
  hosting_scan field host (fd ∷ fds) =
      let rest = hosting_scan field host fds in
      elim (failure_domain_prism_element kube client fd) [
        | err e ↦ fail_check_internal say field (element_unknown fd e) passed
        | ok u ↦
            if text_eq u host
            then fail_check say field (hosts_prism_central host fd) passed
            else rest
      ]

  hosting_verdict : Text → List Text → Answer Text → CheckResult
  unfolding hosting_scan
  hosting_verdict field names (err e) = fail_check_internal say field (hosting_unknown e) passed
  hosting_verdict field names (ok host) =
      if is_empty host then passed else hosting_scan field host names

  -- `host` is the answer of GetPrismCentralHostingClusterExtID.
  unfoldable pub run_hosting : Answer Text → Text → List Text → Option Text → CheckResult
  unfolding hosting_verdict
  run_hosting host field names (some e) = fail_check say field (elements_unknown e) passed
  run_hosting host field names none = hosting_verdict field names host

  rtt_verdict : Text → Rtt → CheckResult
  rtt_verdict field (rtt_failed e) = fail_check_internal say field (rtt_unknown e) passed
  rtt_verdict field undetermined = passed
  rtt_verdict field (measured t) =
      if ltb metro_max_rtt t then fail_check say field (rtt_exceeded t) passed else passed

  latency_verdict : (Text → Text → Rtt) → Text → Elements → CheckResult
  unfolding rtt_verdict
  latency_verdict rtt field (no_element fd e) =
      fail_check_internal say field (element_unknown fd e) passed
  latency_verdict rtt field (elements []) = passed
  latency_verdict rtt field (elements (a ∷ [])) = passed
  latency_verdict rtt field (elements (a ∷ b ∷ [])) = rtt_verdict field (rtt a b)
  latency_verdict rtt field (elements (a ∷ b ∷ c ∷ cs)) = passed

  -- `rtt` is what GetInterClusterRTTMillis answers.
  unfoldable pub run_latency : (Text → Text → Rtt) → Text → List Text → Option Text → CheckResult
  unfolding latency_verdict collect_elements
  run_latency rtt field names (some e) = fail_check say field (elements_unknown e) passed
  run_latency rtt field names none =
      latency_verdict rtt field (collect_elements kube client [] names)
