-- ===== src/Metro/Network/Layers.antt =====
-- The subnets of a NutanixMetro that its check lets through.
use cluster_api_runtime_exte.Prelude.{
  ◌≡◌, refl, sym, ◌∙◌, true, false, List, [], ◌∷◌, none, some, Text, is_empty, lookup, Bool-cases,
  Option-cases, inl, inr,
}
use cluster_api_runtime_exte.Preflight.{CheckResult}
use cluster_api_runtime_exte.Prism.{PcSubnet, Client}
use cluster_api_runtime_exte.Metro.Report.{Complaint, fail_check}
use cluster_api_runtime_exte.Metro.Domains.{Kube, found}
use cluster_api_runtime_exte.Metro.Elements.Distinct.{In}
use cluster_api_runtime_exte.Metro.Network.{
  Attributes, new_attributes, subnet_layer_name, subnet_profile_key, supported_layer,
  equal_subnet_profile_sets, check_subnet_consistency, any_layer, vpc_verdict, layer_verdict,
  no_evaluation, run_metro,
}
use cluster_api_runtime_exte.Metro.Network.Evaluated.{evaluate-Sound, evaluate-Recorded}
use cluster_api_runtime_exte.Metro.Network.Sets.{profiles-In}
use cluster_api_runtime_exte.Metro.Network.Recorded.{profiles_of, Recorded}
use cluster_api_runtime_exte.Metro.Network.Observed.{Observed, Sound}
use cluster_api_runtime_exte.Metro.Network.Spans.{evaluated, Evaluated, run_metro-Evaluated}

module _ (kube : Kube) (client : Client) where
  -- A subnet that a failure domain of the list has.
  pub record Seen (fds : List Text) (fd : Text) (s : PcSubnet) : Type 0 where
    pub is_in : In fd fds
    pub is_named : is_empty fd ≡ false
    pub observed : Observed kube client fd s

  -- What the check promises of the subnets that the failure domains of the NutanixMetro have.
  pub record Consistent (fds : List Text) : Type 0 where
    pub one_layer :
        (fd fe : Text) (s t : PcSubnet)
        → Seen fds fd s
        → Seen fds fe t
        → subnet_layer_name s.subnet_type ≡ subnet_layer_name t.subnet_type
    pub supported :
        (fd : Text) (s : PcSubnet)
        → Seen fds fd s
        → supported_layer (subnet_layer_name s.subnet_type) ≡ true
    pub no_vpc :
        (fd v : Text) (s : PcSubnet) → Seen fds fd s → s.vpc_reference ≡ some v → is_empty v ≡ true
    pub same_profiles :
        (fd fe : Text) (s t : PcSubnet)
        → Seen fds fd s
        → Seen fds fe t
        → (u : PcSubnet) × Observed kube client fe u × (subnet_profile_key s ≡ subnet_profile_key u)

module _ (say : Complaint → Text) (metro field : Text) (kube : Kube) (client : Client) where
  Sound-start : Sound kube client new_attributes
  unfolding lookup
  Sound-start = record { justified = λ fd p a. absurd a; distinct = tt }

  -- The layer that all subnets have.
  record OneLayer (attrs : Attributes) : Type 0 where
    layer : Text
    only : attrs.layers ≡ layer ∷ []
    no_vpc : attrs.vpc_references ≡ []
    is_supported : supported_layer layer ≡ true
    equal_profiles : equal_subnet_profile_sets attrs.profiles_by_failure_domain ≡ true

  layers-OneLayer :
      (attrs : Attributes) (ls vs : List Text) (r : CheckResult) (l : Text)
      → attrs.layers ≡ ls
      → attrs.vpc_references ≡ vs
      → In l ls
      → (vpc_verdict say metro field attrs vs r).allowed ≡ true
      → OneLayer attrs
  unfolding vpc_verdict layer_verdict fail_check
  layers-OneLayer attrs ls (v ∷ vs) r l p q a h = absurd (cc h)
  layers-OneLayer attrs [] [] r l p q a h = absurd a
  layers-OneLayer attrs (x ∷ y ∷ ls) [] r l p q a h = absurd (cc (rw p at h))
  layers-OneLayer attrs (x ∷ []) [] r l p q a h =
      let opened = rw p at h in
      elim (Bool-cases (supported_layer x)) [
        | inr n ↦ absurd (cc (rw n at opened))
        | inl ok_layer ↦
            elim (Bool-cases (equal_subnet_profile_sets attrs.profiles_by_failure_domain)) [
              | inr n ↦ absurd (cc (rw (ok_layer, n) at opened))
              | inl eq ↦ record {
                layer = x;
                only = p;
                no_vpc = q;
                is_supported = ok_layer;
                equal_profiles = eq;
              }
            ]
      ]

  consistent-OneLayer :
      (attrs : Attributes) (ls : List Text) (r : CheckResult) (l : Text)
      → attrs.layers ≡ ls
      → In l ls
      → (any_layer say metro field attrs ls r).allowed ≡ true
      → OneLayer attrs
  unfolding any_layer
  consistent-OneLayer attrs [] r l p a h = absurd a
  consistent-OneLayer attrs (x ∷ ls) r l p a h =
      layers-OneLayer attrs (x ∷ ls) attrs.vpc_references r l p refl a h

  lookup_of :
      (fd p : Text) (attrs : Attributes)
      → In p (profiles_of fd attrs)
      → (ps : List Text) × (lookup fd attrs.profiles_by_failure_domain ≡ some ps) × In p ps
  lookup_of fd p attrs a = elim (Option-cases (lookup fd attrs.profiles_by_failure_domain)) [
    | inl e ↦ absurd (rw e at a)
    | inr (ps, e) ↦ (ps, e, rw e at a)
  ]

  module _ (fds : List Text) (ev : Evaluated say metro field kube client fds) where
    abbrev final : Attributes
    final =
        (evaluated say metro field kube client (no_evaluation say metro field kube client)
          fds).attributes

    recorded : (fd : Text) (s : PcSubnet) → Seen kube client fds fd s → Recorded fd s final
    recorded fd s seen =
        evaluate-Recorded say metro field kube client (no_evaluation say metro field kube client)
          fds fd s ev.allowed seen.is_in seen.is_named seen.observed

    final-Sound : Sound kube client final
    final-Sound =
        evaluate-Sound say metro field kube client (no_evaluation say metro field kube client) fds
          ev.allowed Sound-start

    final-OneLayer : (fd : Text) (s : PcSubnet) → Seen kube client fds fd s → OneLayer final
    unfolding check_subnet_consistency
    final-OneLayer fd s seen =
        consistent-OneLayer final final.layers
          (evaluated say metro field kube client (no_evaluation say metro field kube client)
            fds).result
          (subnet_layer_name s.subnet_type) refl (recorded fd s seen).layer_in ev.consistent

    layer_of :
        (fd : Text) (s : PcSubnet) (seen : Seen kube client fds fd s) (o : OneLayer final)
        → subnet_layer_name s.subnet_type ≡ o.layer
    layer_of fd s seen o = elim (rw o.only at (recorded fd s seen).layer_in) [
      | inl e ↦ e
      | inr n ↦ absurd n
    ]

    without_vpc :
        (fd v : Text) (s : PcSubnet)
        → Seen kube client fds fd s
        → s.vpc_reference ≡ some v
        → is_empty v ≡ true
    without_vpc fd v s seen e = elim (Bool-cases (is_empty v)) [
      | inl yes_empty ↦ yes_empty
      | inr full ↦
          absurd (rw (final-OneLayer fd s seen).no_vpc at ((recorded fd s seen).vpc_in v e full))
    ]

    profile_of :
        (fd fe : Text) (s t : PcSubnet)
        → Seen kube client fds fd s
        → Seen kube client fds fe t
        → (u : PcSubnet) × Observed kube client fe u × (subnet_profile_key s ≡ subnet_profile_key u)
    profile_of fd fe s t seen later =
        let (ps, l, a) =
          lookup_of fd (subnet_profile_key s) final (recorded fd s seen).profile_in in
        let (qs, k, b) =
          lookup_of fe (subnet_profile_key t) final (recorded fe t later).profile_in in
        let there =
          profiles-In final.profiles_by_failure_domain fd fe ps qs final-Sound.distinct
            (final-OneLayer fd s seen).equal_profiles l k (subnet_profile_key s) a in
        final-Sound.justified fe (subnet_profile_key s) (rw k there)

    Evaluated-Consistent : Consistent kube client fds
    Evaluated-Consistent = record {
      one_layer = λ fd fe s t a b.
          let o = final-OneLayer fd s a in layer_of fd s a o ∙ sym (layer_of fe t b o);
      supported = λ fd s a. let o = final-OneLayer fd s a in rw (layer_of fd s a o) o.is_supported;
      no_vpc = without_vpc;
      same_profiles = profile_of;
    }

  -- When the check of a NutanixMetro allows, the subnets that its failure domains list, those of other
  -- Prism Elements aside, are all on one layer, VLAN or overlay, and in no VPC, and of two failure
  -- domains that have such subnets each has for every subnet of the other one of the same layer,
  -- network and prefix.
  pub run_metro-Consistent :
      (run_metro say metro field kube client none).allowed ≡ true
      → (fds : List Text) × (kube.get_metro metro ≡ found fds) × Consistent kube client fds
  run_metro-Consistent h =
      let (fds, ev) = run_metro-Evaluated say metro field kube client h in
      (fds, ev.metro_found, Evaluated-Consistent fds ev)
