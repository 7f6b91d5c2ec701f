-- ===== src/DomainCheck/Tests.antt =====
-- A failure domain and a cluster with failure domains.
use cluster_api_runtime_exte.Prelude.{◌≡◌, false, ◌⊎◌, ◌↔◌, true, none, Text, codes, all, All}
use cluster_api_runtime_exte.Metro.Domains.{cluster_failure_domains}
use cluster_api_runtime_exte.Metro.Tests.{kube, client, cluster}
use cluster_api_runtime_exte.DomainCheck.{Refusal, run_failure_domain, new_failure_domain_checks}
use cluster_api_runtime_exte.DomainCheck.Allowed.{
  allowed, GoodDomain, GoodReference, run_failure_domain-GoodDomain,
}
use cluster_api_runtime_exte.DomainCheck.References.{
  passes, new_failure_domain_checks-GoodReference,
}

abbrev wording : Refusal → Text
wording r = codes "refused"

run_failure_domain-GoodDomain_example :
    (allowed (
        run_failure_domain wording kube client
          (record { failure_domain_name = codes "a"; field = codes "f"; error_message = none }))
      ≡ true)
    ↔ GoodDomain kube client (codes "a")
run_failure_domain-GoodDomain_example =
    run_failure_domain-GoodDomain wording kube client (codes "a") (codes "f")

new_failure_domain_checks-GoodReference_example :
    (all (passes wording kube client) (new_failure_domain_checks kube true cluster) ≡ true) ↔ (
      (true ≡ false)
      ⊎ All (λ (v : Text × Text). GoodReference kube client v.0) (cluster_failure_domains cluster))
new_failure_domain_checks-GoodReference_example =
    new_failure_domain_checks-GoodReference wording kube client true cluster
