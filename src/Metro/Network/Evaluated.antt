-- ===== src/Metro/Network/Evaluated.antt =====
-- evaluateFailureDomains records every subnet of the failure domains, and nothing else.
use cluster_api_runtime_exte.Prelude.{
  ◌≡◌, sym, subst, true, false, List, [], ◌∷◌, Text, is_empty, Bool-cases, inl, inr,
}
use cluster_api_runtime_exte.Prism.{PcSubnet, Client}
use cluster_api_runtime_exte.Metro.Report.{Complaint}
use cluster_api_runtime_exte.Metro.Domains.{Kube, Got, found, NutanixFailureDomain}
use cluster_api_runtime_exte.Metro.Elements.{failure_domain_prism_element}
use cluster_api_runtime_exte.Metro.Elements.Distinct.{In}
use cluster_api_runtime_exte.Metro.Network.{Evaluation, on_element, evaluate_failure_domains}
use cluster_api_runtime_exte.Metro.Network.Recorded.{
  Grows, Grows-refl, Grows-trans, Recorded, Recorded-Grows,
}
use cluster_api_runtime_exte.Metro.Network.Observed.{
  Observed, Sound, collect-Sound, collect-Grows, collect-Recorded,
}
use cluster_api_runtime_exte.Metro.Network.Spans.{
  evaluated, visit, Visited, visit-Visited, evaluate-allowed,
}

module _ (say : Complaint → Text) (metro field : Text) (kube : Kube) (client : Client) where
  abbrev after : Evaluation → List Text → Evaluation
  after ev fds = evaluated say metro field kube client ev fds

  abbrev step : Text → Evaluation → Evaluation
  step fd ev = visit say metro field kube client fd ev

  abbrev V : Text → Evaluation → Type 0
  V fd ev = Visited say metro field kube client fd (kube.get_domain fd) ev (step fd ev)

  visit-Grows :
      (fd : Text) (ev : Evaluation) → V fd ev → Grows ev.attributes (step fd ev).attributes
  unfolding on_element
  visit-Grows fd ev v =
      rw v.is_after
        (collect-Grows kube client say metro field fd v.pe ev.attributes ev.result v.domain.subnets)

  visit-Sound :
      (fd : Text) (ev : Evaluation)
      → V fd ev
      → Sound kube client ev.attributes
      → Sound kube client (step fd ev).attributes
  unfolding on_element failure_domain_prism_element
  visit-Sound fd ev v sound = rw v.is_after (
      collect-Sound kube client say metro field fd v.pe ev.attributes ev.result v.domain.subnets
        (λ t a here. record {
          pe = v.pe;
          domain = v.domain;
          is_domain = v.is_domain;
          is_element = v.is_element;
          is_listed = a;
          is_here = here;
        })
        sound)

  same_domain :
      (g : Got NutanixFailureDomain) (d e : NutanixFailureDomain)
      → g ≡ found d
      → g ≡ found e
      → d ≡ e
  same_domain g d e p q = cc (p, q)

  visit-Recorded :
      (fd : Text) (ev : Evaluation) (s : PcSubnet)
      → V fd ev
      → (step fd ev).result.allowed ≡ true
      → Observed kube client fd s
      → Recorded fd s (step fd ev).attributes
  unfolding on_element failure_domain_prism_element
  visit-Recorded fd ev s v h o =
      let domains = same_domain (kube.get_domain fd) o.domain v.domain o.is_domain v.is_domain in
      let elements : o.pe ≡ v.pe = cc (o.is_element, v.is_element) in
      rw v.is_after (
        collect-Recorded kube client say metro field fd v.pe ev.attributes ev.result
          v.domain.subnets s (rw v.is_after at h) (rw domains at o.is_listed)
          (rw elements at o.is_here))

  pub evaluate-Sound :
      (ev : Evaluation) (fds : List Text)
      → (after ev fds).result.allowed ≡ true
      → Sound kube client ev.attributes
      → Sound kube client (after ev fds).attributes
  unfolding evaluate_failure_domains
  evaluate-Sound ev [] h sound = sound
  evaluate-Sound ev (fd ∷ fds) h sound = elim (Bool-cases (is_empty fd)) [
    | inl e ↦
        rw (evaluate_failure_domains, e)
          (evaluate-Sound ev fds (rw (e, evaluate_failure_domains) at h) sound)
    | inr e ↦
        let later = rw (e, evaluate_failure_domains) at h in
        let v =
          visit-Visited say metro field kube client fd ev
            (evaluate-allowed say metro field kube client (step fd ev) fds later) in
        rw (evaluate_failure_domains, e)
          (evaluate-Sound (step fd ev) fds later (visit-Sound fd ev v sound))
  ]

  evaluate-Grows :
      (ev : Evaluation) (fds : List Text)
      → (after ev fds).result.allowed ≡ true
      → Grows ev.attributes (after ev fds).attributes
  unfolding evaluate_failure_domains
  evaluate-Grows ev [] h = Grows-refl ev.attributes
  evaluate-Grows ev (fd ∷ fds) h = elim (Bool-cases (is_empty fd)) [
    | inl e ↦
        rw (evaluate_failure_domains, e)
          (evaluate-Grows ev fds (rw (e, evaluate_failure_domains) at h))
    | inr e ↦
        let later = rw (e, evaluate_failure_domains) at h in
        let v =
          visit-Visited say metro field kube client fd ev
            (evaluate-allowed say metro field kube client (step fd ev) fds later) in
        rw (evaluate_failure_domains, e)
          (Grows-trans ev.attributes (step fd ev).attributes (after (step fd ev) fds).attributes
            (visit-Grows fd ev v) (evaluate-Grows (step fd ev) fds later))
  ]

  pub evaluate-Recorded :
      (ev : Evaluation) (fds : List Text) (fd : Text) (s : PcSubnet)
      → (after ev fds).result.allowed ≡ true
      → In fd fds
      → is_empty fd ≡ false
      → Observed kube client fd s
      → Recorded fd s (after ev fds).attributes
  unfolding evaluate_failure_domains
  evaluate-Recorded ev [] fd s h a full o = absurd a
  evaluate-Recorded ev (fe ∷ fds) fd s h a full o = elim (Bool-cases (is_empty fe)) [
    | inl e ↦ elim a [
      | inl same ↦ absurd (cc (rw (sym same) at e, full))
      | inr later ↦
          rw (evaluate_failure_domains, e)
            (evaluate-Recorded ev fds fd s (rw (e, evaluate_failure_domains) at h) later full o)
    ]
    | inr e ↦
        let rest = rw (e, evaluate_failure_domains) at h in
        let here = evaluate-allowed say metro field kube client (step fe ev) fds rest in
        let v = visit-Visited say metro field kube client fe ev here in
        elim a [
          | inr later ↦
              rw (evaluate_failure_domains, e)
                (evaluate-Recorded (step fe ev) fds fd s rest later full o)
          | inl same ↦
              let seen = subst (λ (f : Text). Observed kube client f s) same o in
              rw (evaluate_failure_domains, e, same)
                (Recorded-Grows fe s (step fe ev).attributes (after (step fe ev) fds).attributes
                  (evaluate-Grows (step fe ev) fds rest) (visit-Recorded fe ev s v here seen))
        ]
  ]
