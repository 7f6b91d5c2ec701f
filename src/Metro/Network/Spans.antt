-- ===== src/Metro/Network/Spans.antt =====
-- The Prism Elements of a NutanixMetro that its check lets through.
use cluster_api_runtime_exte.Prelude.{
  ◌≡◌, refl, true, false, List, [], ◌∷◌, Option, none, some, Text, is_empty, length, ◌==◌, ==_iff,
  filter_by, Bool-cases, inl, inr, arith,
}
use cluster_api_runtime_exte.Preflight.{CheckResult}
use cluster_api_runtime_exte.Prism.{Identifier, Client, Answer, ok, err, get_subnets, get_clusters}
use cluster_api_runtime_exte.Metro.Report.{
  Complaint, wrong_metro_span, fail_check, fail_check_internal,
}
use cluster_api_runtime_exte.Metro.Domains.{
  Kube, Got, found, not_found, get_failed, NutanixFailureDomain, named,
}
use cluster_api_runtime_exte.Metro.Elements.{
  add_element, elements, element_of, failure_domain_prism_element, one_cluster, collect_elements,
}
use cluster_api_runtime_exte.Metro.Elements.Span.{
  SpansTwo, Answer-cases, collect-Collected, length-SpansTwo,
}
use cluster_api_runtime_exte.Metro.Network.{
  Attributes, Evaluation, check_subnet_consistency, any_layer, vpc_verdict, layer_verdict,
  note_subnets, collect_subnet_attributes, on_element, resolve_prism_element, got_domain,
  evaluate_failure_domains, metro_verdict, no_evaluation, got_metro, run_metro,
}

filter-unnamed :
    (fd : Text) (fds : List Text)
    → is_empty fd ≡ true
    → filter_by named (fd ∷ fds) ≡ filter_by named fds
filter-unnamed fd fds e = ground (arith, e)

filter-named :
    (fd : Text) (fds : List Text)
    → is_empty fd ≡ false
    → filter_by named (fd ∷ fds) ≡ fd ∷ filter_by named fds
filter-named fd fds e = ground (arith, e)

module _ (say : Complaint → Text) (metro field : Text) where
  layer-allowed :
      (attrs : Attributes) (ls : List Text) (r : CheckResult)
      → (layer_verdict say metro field attrs ls r).allowed ≡ true
      → r.allowed ≡ true
  unfolding layer_verdict fail_check
  layer-allowed attrs [] r h = h
  layer-allowed attrs (l ∷ []) r h = ground (arith, h)
  layer-allowed attrs (l ∷ m ∷ ls) r h = absurd (cc h)

  vpc-allowed :
      (attrs : Attributes) (vs : List Text) (r : CheckResult)
      → (vpc_verdict say metro field attrs vs r).allowed ≡ true
      → r.allowed ≡ true
  unfolding vpc_verdict fail_check
  vpc-allowed attrs [] r h = layer-allowed attrs attrs.layers r h
  vpc-allowed attrs (v ∷ vs) r h = absurd (cc h)

  any_layer-allowed :
      (attrs : Attributes) (ls : List Text) (r : CheckResult)
      → (any_layer say metro field attrs ls r).allowed ≡ true
      → r.allowed ≡ true
  unfolding any_layer
  any_layer-allowed attrs [] r h = h
  any_layer-allowed attrs (l ∷ ls) r h = vpc-allowed attrs attrs.vpc_references r h

  pub consistency-allowed :
      (attrs : Attributes) (r : CheckResult)
      → (check_subnet_consistency say metro field attrs r).allowed ≡ true
      → r.allowed ≡ true
  unfolding check_subnet_consistency
  consistency-allowed attrs r h = any_layer-allowed attrs attrs.layers r h

  module _ (kube : Kube) (client : Client) where
    abbrev collected_subnets :
        Text → Text → Attributes → CheckResult → List Identifier → Attributes × CheckResult
    collected_subnets fd pe attrs r ids =
        collect_subnet_attributes say metro field kube client fd pe attrs r ids

    abbrev pub evaluated : Evaluation → List Text → Evaluation
    evaluated ev fds = evaluate_failure_domains say metro field kube client ev fds

    abbrev pub visit : Text → Evaluation → Evaluation
    visit fd ev = got_domain say metro field kube client fd ev (kube.get_domain fd)

    pub collect-allowed :
        (fd pe : Text) (attrs : Attributes) (r : CheckResult) (ids : List Identifier)
        → (collected_subnets fd pe attrs r ids).1.allowed ≡ true
        → r.allowed ≡ true
    unfolding collect_subnet_attributes fail_check fail_check_internal
    collect-allowed fd pe attrs r [] h = h
    collect-allowed fd pe attrs r (id ∷ ids) h = elim (Answer-cases (get_subnets client id)) [
      | inl (ss, e) ↦
          collect-allowed fd pe (note_subnets fd pe attrs ss) r ids
            (rw (e, collect_subnet_attributes) at h)
      | inr (m, e) ↦ absurd (cc (rw (e, collect_subnet_attributes) at h))
    ]

    -- A visit that allows finds the Prism Element of the failure domain.
    pub record Visited (fd : Text) (g : Got NutanixFailureDomain) (ev after : Evaluation)
        : Type 0 where
      pub pe : Text
      pub domain : NutanixFailureDomain
      pub is_domain : g ≡ found domain
      pub is_element : element_of kube client g ≡ ok pe
      pub before_allowed : ev.result.allowed ≡ true
      pub is_after : after ≡ on_element say metro field kube client fd ev domain pe

    resolved :
        (fd : Text) (ev : Evaluation) (d : NutanixFailureDomain) (a : Answer (List (Option Text)))
        → get_clusters client d.prism_element ≡ a
        → (resolve_prism_element say metro field kube client fd ev d a).result.allowed ≡ true
        → Visited fd (found d) ev (resolve_prism_element say metro field kube client fd ev d a)
    unfolding resolve_prism_element on_element element_of one_cluster fail_check fail_check_internal
    resolved fd ev d (err e) p h = absurd (cc h)
    resolved fd ev d (ok []) p h = absurd (cc h)
    resolved fd ev d (ok (none ∷ [])) p h = absurd (cc h)
    resolved fd ev d (ok (a ∷ b ∷ cs)) p h = absurd (cc h)
    resolved fd ev d (ok (some pe ∷ [])) p h = record {
      pe = pe;
      domain = d;
      is_domain = refl;
      is_element = rw p refl;
      before_allowed = collect-allowed fd pe ev.attributes ev.result d.subnets h;
      is_after = refl;
    }

    got-Visited :
        (fd : Text) (ev : Evaluation) (g : Got NutanixFailureDomain)
        → (got_domain say metro field kube client fd ev g).result.allowed ≡ true
        → Visited fd g ev (got_domain say metro field kube client fd ev g)
    unfolding got_domain fail_check fail_check_internal
    got-Visited fd ev (not_found e) h = absurd (cc h)
    got-Visited fd ev (get_failed e) h = absurd (cc h)
    got-Visited fd ev (found d) h = resolved fd ev d (get_clusters client d.prism_element) refl h

    pub visit-Visited :
        (fd : Text) (ev : Evaluation)
        → (visit fd ev).result.allowed ≡ true
        → Visited fd (kube.get_domain fd) ev (visit fd ev)
    visit-Visited fd ev h = got-Visited fd ev (kube.get_domain fd) h

    pub evaluate-allowed :
        (ev : Evaluation) (fds : List Text)
        → (evaluated ev fds).result.allowed ≡ true
        → ev.result.allowed ≡ true
    unfolding evaluate_failure_domains
    evaluate-allowed ev [] h = h
    evaluate-allowed ev (fd ∷ fds) h = elim (Bool-cases (is_empty fd)) [
      | inl e ↦ evaluate-allowed ev fds (rw (e, evaluate_failure_domains) at h)
      | inr e ↦
          (visit-Visited fd ev (
            evaluate-allowed (visit fd ev) fds
              (rw (e, evaluate_failure_domains) at h))).before_allowed
    ]

    on-elements :
        (fd : Text) (ev after : Evaluation) (d : NutanixFailureDomain) (pe : Text)
        → after ≡ on_element say metro field kube client fd ev d pe
        → after.elements ≡ add_element ev.elements pe
    unfolding on_element
    on-elements fd ev after d pe e = rw e refl

    evaluate-elements :
        (ev : Evaluation) (fds : List Text)
        → (evaluated ev fds).result.allowed ≡ true
        → collect_elements kube client ev.elements (filter_by named fds)
          ≡ elements (evaluated ev fds).elements
    unfolding evaluate_failure_domains collect_elements failure_domain_prism_element
    evaluate-elements ev [] h = refl
    evaluate-elements ev (fd ∷ fds) h = elim (Bool-cases (is_empty fd)) [
      | inl e ↦
          rw (filter-unnamed fd fds e, evaluate_failure_domains, e)
            (evaluate-elements ev fds (rw (e, evaluate_failure_domains) at h))
      | inr e ↦
          let later = rw (e, evaluate_failure_domains) at h in
          let v = visit-Visited fd ev (evaluate-allowed (visit fd ev) fds later) in
          let same = on-elements fd ev (visit fd ev) v.domain v.pe v.is_after in
          rw (filter-named fd fds e, evaluate_failure_domains, e, collect_elements, v.is_element)
            (rw same at (evaluate-elements (visit fd ev) fds later))
    ]

    -- What is known when the check of a NutanixMetro allows.
    pub record Evaluated (fds : List Text) : Type 0 where
      pub metro_found : kube.get_metro metro ≡ found fds
      pub allowed :
          (evaluated (no_evaluation say metro field kube client) fds).result.allowed ≡ true
      pub two : length (evaluated (no_evaluation say metro field kube client) fds).elements ≡ 2
      pub consistent :
          let out = evaluated (no_evaluation say metro field kube client) fds in
          (check_subnet_consistency say metro field out.attributes out.result).allowed ≡ true

    verdict_two :
        (fds : List Text)
        → kube.get_metro metro ≡ found fds
        → (metro_verdict say metro field kube client
            (evaluated (no_evaluation say metro field kube client) fds)).allowed
          ≡ true
        → Evaluated fds
    unfolding metro_verdict fail_check
    verdict_two fds e h =
        let out = evaluated (no_evaluation say metro field kube client) fds in
        elim (Bool-cases out.result.allowed) [
          | inr n ↦ absurd (cc (rw n at h, n))
          | inl a ↦ elim (Bool-cases (length out.elements == 2)) [
            | inl two ↦ record {
              metro_found = e;
              allowed = a;
              two = (==_iff (length out.elements) 2).0 two;
              consistent = rw (a, two) at h;
            }
            | inr n ↦
                let refused =
                  consistency-allowed out.attributes
                    (fail_check say field (wrong_metro_span metro (length out.elements)) out.result)
                    (rw (a, n) at h) in
                absurd (cc refused)
          ]
        ]

    got-Evaluated :
        (g : Got (List Text))
        → kube.get_metro metro ≡ g
        → (got_metro say metro field kube client g).allowed ≡ true
        → (fds : List Text) × Evaluated fds
    unfolding got_metro fail_check fail_check_internal
    got-Evaluated (not_found e) p h = absurd (cc h)
    got-Evaluated (get_failed e) p h = absurd (cc h)
    got-Evaluated (found fds) p h = (fds, verdict_two fds p h)

    pub run_metro-Evaluated :
        (run_metro say metro field kube client none).allowed ≡ true
        → (fds : List Text) × Evaluated fds
    unfolding run_metro
    run_metro-Evaluated h = got-Evaluated (kube.get_metro metro) refl h

    -- A NutanixMetro that its check allows is in the management cluster, and its failure domains, those
    -- with an empty name aside, stand on two different Prism Elements.
    pub run_metro-SpansTwo :
        (run_metro say metro field kube client none).allowed ≡ true
        → (fds : List Text) × (kube.get_metro metro ≡ found fds)
          × SpansTwo kube client (filter_by named fds)
    run_metro-SpansTwo h =
        let (fds, ev) = run_metro-Evaluated h in
        let out = evaluated (no_evaluation say metro field kube client) fds in
        let same = evaluate-elements (no_evaluation say metro field kube client) fds ev.allowed in
        (
          fds,
          ev.metro_found,
          length-SpansTwo kube client (filter_by named fds) out.elements
              (collect-Collected kube client (filter_by named fds) [] out.elements same) ev.two,
        )
