-- ===== src/DomainCheck/References.antt =====
-- Which references to failure domains the checks of a cluster let through.
use cluster_api_runtime_exte.Prelude.{
  ◌≡◌, ◌↔◌, ◌⊎◌, refl, Bool, true, false, List, [], ◌∷◌, ◌++◌, map, Option, none, some, Text,
  is_empty, all, all-append, All, Bool-cases, inl, inr, arith,
}
use cluster_api_runtime_exte.Prism.{Client}
use cluster_api_runtime_exte.Metro.Domains.{
  Kube, CheckDependencies, cp_failure_domains_field, deployment_field, get_failure_domain_names,
  cluster_failure_domains, control_plane_domains, deployment_domains,
}
use cluster_api_runtime_exte.Metro.Elements.Span.{Answer-cases}
use cluster_api_runtime_exte.DomainCheck.{
  Refusal, FailureDomainCheck, domain_checks, control_plane_checks, configured_checks,
  worker_checks, new_failure_domain_checks, refuse, run_with, run_failure_domain,
}
use cluster_api_runtime_exte.DomainCheck.Allowed.{
  allowed, GoodDomain, GoodReference, run_failure_domain-GoodDomain,
}

module _ {A : Type 0} (P : A → Type 0) where
  All-append : (xs ys : List A) → All P (xs ++ ys) ↔ (All P xs × All P ys)
  All-append [] ys = (λ h. (tt, h), λ h. h.1)
  All-append (x ∷ xs) ys =
      let rest = All-append xs ys in
      (λ h. let t = rest.0 h.1 in ((h.0, t.0), t.1), λ (a, b). (a.0, rest.1 (a.1, b)))

module _ (say : Refusal → Text) (kube : Kube) (client : Client) where
  abbrev pub passes : FailureDomainCheck → Bool
  passes c = allowed (run_failure_domain say kube client c)

  names-GoodDomain :
      (field : Text) (names : List Text)
      → (all passes (
            map
              (λ n. record { failure_domain_name = n; field = field; error_message = none })
              names)
          ≡ true)
        ↔ All (GoodDomain kube client) names
  names-GoodDomain field [] = (λ h. tt, λ h. refl)
  names-GoodDomain field (n ∷ ns) =
      let one = run_failure_domain-GoodDomain say kube client n field in
      let rest = names-GoodDomain field ns in
      (
        λ h. (one.0 (ground (arith, h)), rest.0 (ground (arith, h))),
        λ (g, gs). let a = one.1 g in let b = rest.1 gs in ground (arith, a, b),
      )

  domain_checks-GoodReference :
      (fd field : Text)
      → (all passes (domain_checks fd field (get_failure_domain_names kube fd)) ≡ true)
        ↔ GoodReference kube client fd
  unfolding domain_checks run_failure_domain run_with refuse
  domain_checks-GoodReference fd field = elim (Answer-cases (get_failure_domain_names kube fd)) [
    | inr (m, e) ↦ (λ h. absurd (cc (rw e at h)), λ (names, p, g). absurd (cc (p, e)))
    | inl (names, e) ↦
        let good = names-GoodDomain field names in
        (
          λ h. (names, e, good.0 (rw e at h)),
          λ (others, p, g). let same : others ≡ names = cc (p, e) in rw e (good.1 (rw same at g)),
        )
  ]

  abbrev GoodVisits : List (Text × Text) → Type 0
  GoodVisits vs = All (λ (v : Text × Text). GoodReference kube client v.0) vs

  control-GoodVisits :
      (fds : List Text)
      → (all passes (control_plane_checks kube fds) ≡ true)
        ↔ GoodVisits (control_plane_domains (some fds))
  unfolding control_plane_checks control_plane_domains
  control-GoodVisits [] = (λ h. tt, λ h. refl)
  control-GoodVisits (fd ∷ fds) =
      let rest = control-GoodVisits fds in
      let here = domain_checks fd cp_failure_domains_field (get_failure_domain_names kube fd) in
      let one = domain_checks-GoodReference fd cp_failure_domains_field in
      let parts = all-append passes here (control_plane_checks kube fds) in
      elim (Bool-cases (is_empty fd)) [
        | inl e ↦ rw (e, control_plane_checks, control_plane_domains) rest
        | inr e ↦
            rw (e, control_plane_checks, control_plane_domains)
              (
                λ h. (one.0 (ground (arith, h, parts)), rest.0 (ground (arith, h, parts))),
                λ (g, gs). let a = one.1 g in let b = rest.1 gs in ground (arith, a, b, parts),
              )
      ]

  worker-GoodVisits :
      (mds : List (Text × Text))
      → (all passes (worker_checks kube mds) ≡ true) ↔ GoodVisits (deployment_domains mds)
  unfolding worker_checks deployment_domains
  worker-GoodVisits [] = (λ h. tt, λ h. refl)
  worker-GoodVisits (md ∷ mds) =
      let rest = worker-GoodVisits mds in
      let here = domain_checks md.1 (deployment_field md.0) (get_failure_domain_names kube md.1) in
      let one = domain_checks-GoodReference md.1 (deployment_field md.0) in
      let parts = all-append passes here (worker_checks kube mds) in
      elim (Bool-cases (is_empty md.1)) [
        | inl e ↦ rw (e, worker_checks, deployment_domains) rest
        | inr e ↦
            rw (e, worker_checks, deployment_domains)
              (
                λ h. (one.0 (ground (arith, h, parts)), rest.0 (ground (arith, h, parts))),
                λ (g, gs). let a = one.1 g in let b = rest.1 gs in ground (arith, a, b, parts),
              )
      ]

  configured-GoodVisits :
      (o : Option (List Text))
      → (all passes (configured_checks kube o) ≡ true) ↔ GoodVisits (control_plane_domains o)
  unfolding configured_checks control_plane_domains
  configured-GoodVisits none = (λ h. tt, λ h. refl)
  configured-GoodVisits (some fds) = control-GoodVisits fds

  -- The checks of the failure domains of a cluster all allow exactly when there are none, since the
  -- clients or the version of Prism Central are not known, or when every failure domain that the
  -- cluster names, for its control plane or a machine deployment, resolves to names, all of them of
  -- failure domains that exist, with one Prism Element and subnets that are found once.
  pub new_failure_domain_checks-GoodReference :
      (is_ready : Bool) (d : CheckDependencies)
      → (all passes (new_failure_domain_checks kube is_ready d) ≡ true) ↔ (
          (is_ready ≡ false)
          ⊎ All (λ (v : Text × Text). GoodReference kube client v.0) (cluster_failure_domains d))
  unfolding new_failure_domain_checks cluster_failure_domains
  new_failure_domain_checks-GoodReference false d = (λ h. inl refl, λ h. refl)
  new_failure_domain_checks-GoodReference true d =
      let control = configured-GoodVisits d.control_plane in
      let workers = worker-GoodVisits d.machine_deployments in
      let parts =
        all-append passes (configured_checks kube d.control_plane)
          (worker_checks kube d.machine_deployments) in
      let both =
        All-append (λ (v : Text × Text). GoodReference kube client v.0)
          (control_plane_domains d.control_plane) (deployment_domains d.machine_deployments) in
      (
        λ h.
            inr
              (both.1 (control.0 (ground (arith, h, parts)), workers.0 (ground (arith, h, parts)))),
        λ g. elim g [
          | inl unready ↦ absurd (cc unready)
          | inr good ↦
              let t = both.0 good in
              let a = control.1 t.0 in let b = workers.1 t.1 in ground (arith, a, b, parts)
        ],
      )
