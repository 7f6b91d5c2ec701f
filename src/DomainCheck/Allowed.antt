-- ===== src/DomainCheck/Allowed.antt =====
-- Which failure domains the checks let through.
use cluster_api_runtime_exte.Prelude.{
  ◌≡◌, ◌↔◌, refl, Bool, true, false, List, [], ◌∷◌, Option, none, some, Text, length, filter_by,
  ◌==◌, ==_iff, All, Bool-cases, inl, inr,
}
use cluster_api_runtime_exte.Preflight.{CheckResult, Outcome, returned, panicked}
use cluster_api_runtime_exte.Prism.{
  Identifier, PcSubnet, Client, Answer, ok, err, get_subnets, get_clusters,
}
use cluster_api_runtime_exte.Metro.Domains.{
  Kube, Got, found, not_found, get_failed, NutanixFailureDomain, get_failure_domain_names,
}
use cluster_api_runtime_exte.Metro.Elements.Span.{Answer-cases}
use cluster_api_runtime_exte.DomainCheck.{
  Refusal, is_valid_subnet, refuse, refuse_internal, found_subnets, check_subnets, found_clusters,
  found_domain, run_with, run_failure_domain,
}

abbrev pub allowed : Outcome → Bool
allowed (returned r) = r.allowed
allowed (panicked m) = false

module _ (kube : Kube) (client : Client) where
  -- The identifier finds one subnet of the Prism Element or of none.
  abbrev pub OneSubnet : Text → Identifier → Type 0
  OneSubnet pe id =
      (ss : List PcSubnet) × (get_subnets client id ≡ ok ss)
      × (length (filter_by (is_valid_subnet pe) ss) ≡ 1)

  pub record GoodDomain (fd : Text) : Type 0 where
    pub pe : Text
    pub domain : NutanixFailureDomain
    pub is_found : kube.get_domain fd ≡ found domain
    pub one_element : get_clusters client domain.prism_element ≡ ok (some pe ∷ [])
    pub subnets_found : All (OneSubnet pe) domain.subnets

  -- The failure domain resolves to names of failure domains that are all good.
  abbrev pub GoodReference : Text → Type 0
  GoodReference fd =
      (names : List Text) × (get_failure_domain_names kube fd ≡ ok names) × All GoodDomain names

  one_count :
      (ss ts : List PcSubnet) (pe : Text) (id : Identifier)
      → get_subnets client id ≡ ok ss
      → get_subnets client id ≡ ok ts
      → length (filter_by (is_valid_subnet pe) ts) ≡ 1
      → (length (filter_by (is_valid_subnet pe) ss) == 1) ≡ true
  one_count ss ts pe id e p k =
      let same : ts ≡ ss = cc (e, p) in
      (==_iff (length (filter_by (is_valid_subnet pe) ss)) 1).1 (rw same at k)

module _ (say : Refusal → Text) (kube : Kube) (client : Client) where
  one-allowed :
      (field pe : Text) (r : CheckResult) (id : Identifier) (fd : Text)
      → ((found_subnets say field client pe r id fd (get_subnets client id)).allowed ≡ true)
        ↔ ((r.allowed ≡ true) × OneSubnet kube client pe id)
  unfolding found_subnets refuse refuse_internal
  one-allowed field pe r id fd = elim (Answer-cases (get_subnets client id)) [
    | inr (m, e) ↦
        (λ h. absurd (cc (rw (e, found_subnets) at h)), λ (a, (ss, p, n)). absurd (cc (p, e)))
    | inl (ss, e) ↦ elim (Bool-cases (length (filter_by (is_valid_subnet pe) ss) == 1)) [
      | inl n ↦ (
        λ h. (
          rw (e, found_subnets, n) at h,
          (ss, e, (==_iff (length (filter_by (is_valid_subnet pe) ss)) 1).0 n),
        ),
        λ (a, (ts, p, k)). rw (e, found_subnets, n) a,
      )
      | inr n ↦ (
        λ h. absurd (cc (rw (e, found_subnets, n) at h)),
        λ (a, (ts, p, k)). absurd (cc (one_count kube client ss ts pe id e p k, n)),
      )
    ]
  ]

  subnets-allowed :
      (field fd pe : Text) (r : CheckResult) (ids : List Identifier)
      → ((check_subnets say field client fd pe r ids).allowed ≡ true)
        ↔ ((r.allowed ≡ true) × All (OneSubnet kube client pe) ids)
  unfolding check_subnets
  subnets-allowed field fd pe r [] = (λ h. (h, tt), λ h. h.0)
  subnets-allowed field fd pe r (id ∷ ids) =
      let one = one-allowed field pe r id fd in
      let rest =
        subnets-allowed field fd pe
          (found_subnets say field client pe r id fd (get_subnets client id)) ids in
      (
        λ h. let t = rest.0 h in let o = one.0 t.0 in (o.0, (o.1, t.1)),
        λ (a, (p, t)). rest.1 (one.1 (a, p), t),
      )

  clusters-GoodDomain :
      (field fd : Text) (d : NutanixFailureDomain) (a : Answer (List (Option Text)))
      → kube.get_domain fd ≡ found d
      → get_clusters client d.prism_element ≡ a
      → allowed (found_clusters say field client fd d a) ≡ true
      → GoodDomain kube client fd
  unfolding found_clusters refuse refuse_internal
  clusters-GoodDomain field fd d (err e) g p h = absurd (cc h)
  clusters-GoodDomain field fd d (ok []) g p h = absurd (cc h)
  clusters-GoodDomain field fd d (ok (none ∷ [])) g p h = absurd (cc h)
  clusters-GoodDomain field fd d (ok (a ∷ b ∷ cs)) g p h = absurd (cc h)
  clusters-GoodDomain field fd d (ok (some pe ∷ [])) g p h = record {
    pe = pe;
    domain = d;
    is_found = g;
    one_element = p;
    subnets_found =
        ((subnets-allowed field fd pe
            (record { allowed = true; internal_error = false; causes = []; warnings = [] })
            d.subnets).0
          h).1;
  }

  found-GoodDomain :
      (field fd : Text) (g : Got NutanixFailureDomain)
      → kube.get_domain fd ≡ g
      → allowed (found_domain say field client fd g) ≡ true
      → GoodDomain kube client fd
  unfolding found_domain refuse refuse_internal
  found-GoodDomain field fd (not_found e) p h = absurd (cc h)
  found-GoodDomain field fd (get_failed e) p h = absurd (cc h)
  found-GoodDomain field fd (found d) p h =
      clusters-GoodDomain field fd d (get_clusters client d.prism_element) p refl h

  GoodDomain-found :
      (field fd : Text)
      → GoodDomain kube client fd
      → allowed (found_domain say field client fd (kube.get_domain fd)) ≡ true
  unfolding found_domain found_clusters
  GoodDomain-found field fd good =
      rw (good.is_found, found_domain, good.one_element)
        ((subnets-allowed field fd good.pe
            (record { allowed = true; internal_error = false; causes = []; warnings = [] })
            good.domain.subnets).1
          (refl, good.subnets_found))

  -- The check of a failure domain, one that is not for a failure to resolve a name, allows exactly the
  -- failure domains that are in the management cluster, whose Prism Element is one cluster of Prism
  -- Central with an identifier, and each of whose subnets is one subnet of that Prism Element or of none.
  pub run_failure_domain-GoodDomain :
      (fd field : Text)
      → (allowed (
            run_failure_domain say kube client
              (record { failure_domain_name = fd; field = field; error_message = none }))
          ≡ true)
        ↔ GoodDomain kube client fd
  unfolding run_failure_domain run_with
  run_failure_domain-GoodDomain fd field =
      (found-GoodDomain field fd (kube.get_domain fd) refl, GoodDomain-found field fd)
