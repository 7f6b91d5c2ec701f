-- ===== src/DomainCheck.antt =====
-- pkg/webhook/preflight/nutanix/failuredomain.go: newFailureDomainChecks and the `Run` of the checks of
-- failure domains. An unset pointer on which the code panics is a panic. The wording of the messages is
-- a parameter.
pub mod Allowed
pub mod References
pub mod Tests
use cluster_api_runtime_exte.Prelude.{
  ℕ, Bool, true, false, not, List, [], ◌∷◌, ◌++◌, map, Option, none, some, Text, codes, text_eq,
  is_empty, length, filter_by, ◌==◌, if◌then◌else◌,
}
use cluster_api_runtime_exte.Preflight.{Cause, CheckResult, Outcome, returned, panicked}
use cluster_api_runtime_exte.Prism.{
  Identifier, PcSubnet, Client, Answer, ok, err, get_subnets, get_clusters,
}
use cluster_api_runtime_exte.Metro.Domains.{
  Kube, Got, found, not_found, get_failed, NutanixFailureDomain, CheckDependencies,
  cp_failure_domains_field, deployment_field, get_failure_domain_names,
}

pub data Refusal : Type 0 where
  unresolved domain_unknown : Text → Text → Refusal
  domain_missing : Text → Refusal
  clusters_unknown subnet_unknown : Identifier → Text → Text → Refusal
  clusters_found subnets_found : ℕ → Identifier → Refusal

pub record FailureDomainCheck : Type 0 where
  pub failure_domain_name : Text
  pub field : Text
  pub error_message : Option Text

-- The checks of one failure domain: one that only reports, or one for each name.
domain_checks : Text → Text → Answer (List Text) → List FailureDomainCheck
domain_checks fd field (err e) =
    record { failure_domain_name = fd; field = cp_failure_domains_field; error_message = some e }
    ∷ []
domain_checks fd field (ok names) =
    map (λ n. record { failure_domain_name = n; field = field; error_message = none }) names

module _ (kube : Kube) where
  control_plane_checks : List Text → List FailureDomainCheck
  unfolding domain_checks
  control_plane_checks [] = []
  control_plane_checks (fd ∷ fds) =
      let rest = control_plane_checks fds in
      if is_empty fd
      then rest
      else domain_checks fd cp_failure_domains_field (get_failure_domain_names kube fd) ++ rest

  configured_checks : Option (List Text) → List FailureDomainCheck
  unfolding control_plane_checks
  configured_checks none = []
  configured_checks (some fds) = control_plane_checks fds

  worker_checks : List (Text × Text) → List FailureDomainCheck
  unfolding domain_checks
  worker_checks [] = []
  worker_checks (md ∷ mds) =
      let rest = worker_checks mds in
      if is_empty md.1
      then rest
      else domain_checks md.1 (deployment_field md.0) (get_failure_domain_names kube md.1) ++ rest

  unfoldable pub new_failure_domain_checks : Bool → CheckDependencies → List FailureDomainCheck
  unfolding configured_checks worker_checks
  new_failure_domain_checks is_ready d =
      if is_ready
      then configured_checks d.control_plane ++ worker_checks d.machine_deployments
      else []

-- A subnet of the Prism Element, or of none.
unfoldable pub is_valid_subnet : Text → PcSubnet → Bool
is_valid_subnet pe s = elim s.cluster_reference [ none ↦ true | some c ↦ text_eq c pe ]

abbrev no_complaint : CheckResult
no_complaint = record { allowed = true; internal_error = false; causes = []; warnings = [] }

module _ (say : Refusal → Text) (field : Text) where
  unfoldable pub refuse : Refusal → CheckResult → CheckResult
  refuse c r = record r {
    allowed = false;
    causes = r.causes ++ (record { message = say c; field = field } ∷ []);
  }

  unfoldable pub refuse_internal : Refusal → CheckResult → CheckResult
  unfolding refuse
  refuse_internal c r = refuse c (record r { internal_error = true })

  module _ (client : Client) where
    found_subnets : Text → CheckResult → Identifier → Text → Answer (List PcSubnet) → CheckResult
    unfolding is_valid_subnet refuse refuse_internal
    found_subnets pe r id fd (err e) = refuse_internal (subnet_unknown id fd e) r
    found_subnets pe r id fd (ok ss) =
        let n = length (filter_by (is_valid_subnet pe) ss) in
        if n == 1 then r else refuse (subnets_found n id) r

    unfoldable pub check_subnets : Text → Text → CheckResult → List Identifier → CheckResult
    unfolding found_subnets
    check_subnets fd pe r [] = r
    check_subnets fd pe r (id ∷ ids) =
        check_subnets fd pe (found_subnets pe r id fd (get_subnets client id)) ids

    found_clusters : Text → NutanixFailureDomain → Answer (List (Option Text)) → Outcome
    unfolding check_subnets
    found_clusters fd d (err e) =
        returned (refuse_internal (clusters_unknown d.prism_element fd e) no_complaint)
    found_clusters fd d (ok []) = returned (refuse (clusters_found 0 d.prism_element) no_complaint)
    found_clusters fd d (ok (none ∷ [])) =
        panicked (codes "runtime error: invalid memory address or nil pointer dereference")
    found_clusters fd d (ok (some pe ∷ [])) = returned (check_subnets fd pe no_complaint d.subnets)
    found_clusters fd d (ok (a ∷ b ∷ cs)) =
        returned (refuse (clusters_found (length (a ∷ b ∷ cs)) d.prism_element) no_complaint)

    found_domain : Text → Got NutanixFailureDomain → Outcome
    unfolding found_clusters
    found_domain fd (not_found e) = returned (refuse (domain_missing fd) no_complaint)
    found_domain fd (get_failed e) = returned (refuse_internal (domain_unknown fd e) no_complaint)
    found_domain fd (found d) = found_clusters fd d (get_clusters client d.prism_element)

module _ (say : Refusal → Text) (kube : Kube) (client : Client) where
  run_with : Text → Text → Option Text → Outcome
  unfolding found_domain
  run_with fd field (some e) = returned (refuse say field (unresolved fd e) no_complaint)
  run_with fd field none = found_domain say field client fd (kube.get_domain fd)

  unfoldable pub run_failure_domain : FailureDomainCheck → Outcome
  unfolding run_with
  run_failure_domain c = run_with c.failure_domain_name c.field c.error_message
