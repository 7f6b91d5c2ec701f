-- ===== src/Metro/Network/Observed.antt =====
-- The subnets of the failure domains of a NutanixMetro, as the management cluster and Prism Central
-- have them, and how metroSubnetAttributes records them.
use cluster_api_runtime_exte.Prelude.{
  ◌≡◌, refl, subst, true, false, List, [], ◌∷◌, Text, lookup, insert, text_eq, Any, All, Bool-cases,
  inl, inr,
}
use cluster_api_runtime_exte.Preflight.{CheckResult}
use cluster_api_runtime_exte.Prism.{Identifier, PcSubnet, Client, ok, get_subnets}
use cluster_api_runtime_exte.Metro.Report.{Complaint, fail_check, fail_check_internal}
use cluster_api_runtime_exte.Metro.Domains.{Kube, found, NutanixFailureDomain}
use cluster_api_runtime_exte.Metro.Elements.{add_element}
use cluster_api_runtime_exte.Metro.Elements.Distinct.{In, Distinct, add-Distinct}
use cluster_api_runtime_exte.Metro.Elements.Span.{Element, Answer-cases}
use cluster_api_runtime_exte.Metro.Network.{
  Attributes, subnet_profile_key, on_other_element, known_profiles, add_profile, note_subnet,
  note_subnets, collect_subnet_attributes,
}
use cluster_api_runtime_exte.Metro.Network.Recorded.{
  profiles_of, profile-In, Grows, Grows-refl, Grows-trans, Recorded, Recorded-Grows, notes-Grows,
  notes-Recorded,
}

abbrev pub DistinctSets : List (Text × List Text) → Type 0
DistinctSets m = All (λ (e : Text × List Text). Distinct e.1) m

DistinctSets-insert :
    (k : Text) (v : List Text) (m : List (Text × List Text))
    → Distinct v
    → DistinctSets m
    → DistinctSets (insert k v m)
unfolding insert
DistinctSets-insert k v [] d ds = (d, tt)
DistinctSets-insert k v ((j, w) ∷ m) d ds = elim (Bool-cases (text_eq j k)) [
  | inl e ↦ rw (insert, e) (d, ds.1)
  | inr e ↦ rw (insert, e) (ds.0, DistinctSets-insert k v m d ds.1)
]

DistinctSets-lookup :
    (k : Text) (m : List (Text × List Text))
    → DistinctSets m
    → Distinct (known_profiles (lookup k m))
unfolding lookup
DistinctSets-lookup k [] ds = tt
DistinctSets-lookup k ((j, w) ∷ m) ds = elim (Bool-cases (text_eq j k)) [
  | inl e ↦ rw (lookup, e) ds.0
  | inr e ↦ rw (lookup, e) (DistinctSets-lookup k m ds.1)
]

module _ (kube : Kube) (client : Client) where
  -- One of the identifiers finds the subnet.
  abbrev pub Lists : List Identifier → PcSubnet → Type 0
  Lists ids s =
      Any (λ id. (ss : List PcSubnet) × (get_subnets client id ≡ ok ss) × Any (λ t. t ≡ s) ss) ids

  -- A subnet that a failure domain lists, of its Prism Element or of none.
  pub record Observed (fd : Text) (s : PcSubnet) : Type 0 where
    pub pe : Text
    pub domain : NutanixFailureDomain
    pub is_domain : kube.get_domain fd ≡ found domain
    pub is_element : Element kube client fd pe
    pub is_listed : Lists domain.subnets s
    pub is_here : on_other_element s.cluster_reference pe ≡ false

  -- Every profile that is recorded is that of a subnet, and no profile is recorded twice.
  pub record Sound (attrs : Attributes) : Type 0 where
    pub justified :
        (fd p : Text)
        → In p (profiles_of fd attrs)
        → (s : PcSubnet) × Observed fd s × (p ≡ subnet_profile_key s)
    pub distinct : DistinctSets attrs.profiles_by_failure_domain

  note-Sound :
      (fd pe : Text) (attrs : Attributes) (s : PcSubnet)
      → (on_other_element s.cluster_reference pe ≡ false → Observed fd s)
      → Sound attrs
      → Sound (note_subnet fd pe attrs s)
  unfolding note_subnet add_profile
  note-Sound fd pe attrs s seen sound =
      let m = attrs.profiles_by_failure_domain in
      elim (Bool-cases (on_other_element s.cluster_reference pe)) [
        | inl e ↦ rw (note_subnet, e) sound
        | inr e ↦
            rw (note_subnet, e)
              (record {
                justified = λ fe q a. elim (profile-In fd fe (subnet_profile_key s) q m a) [
                  | inl b ↦ sound.justified fe q b
                  | inr (p, k) ↦ (s, subst (λ (f : Text). Observed f s) p (seen e), k)
                ];
                distinct =
                    DistinctSets-insert fd
                      (add_element (known_profiles (lookup fd m)) (subnet_profile_key s)) m
                      (add-Distinct (known_profiles (lookup fd m)) (subnet_profile_key s)
                        (DistinctSets-lookup fd m sound.distinct))
                      sound.distinct;
              })
      ]

  notes-Sound :
      (fd pe : Text) (attrs : Attributes) (ss : List PcSubnet)
      → ((t : PcSubnet)
          → Any (λ u. u ≡ t) ss
          → on_other_element t.cluster_reference pe ≡ false
          → Observed fd t)
      → Sound attrs
      → Sound (note_subnets fd pe attrs ss)
  unfolding note_subnets
  notes-Sound fd pe attrs [] seen sound = sound
  notes-Sound fd pe attrs (s ∷ ss) seen sound =
      notes-Sound fd pe (note_subnet fd pe attrs s) ss (λ t a. seen t (inr a))
        (note-Sound fd pe attrs s (seen s (inl refl)) sound)

  module _ (say : Complaint → Text) (metro field : Text) where
    abbrev collected_subnets :
        Text → Text → Attributes → CheckResult → List Identifier → Attributes × CheckResult
    collected_subnets fd pe attrs r ids =
        collect_subnet_attributes say metro field kube client fd pe attrs r ids

    pub collect-Sound :
        (fd pe : Text) (attrs : Attributes) (r : CheckResult) (ids : List Identifier)
        → ((t : PcSubnet)
            → Lists ids t
            → on_other_element t.cluster_reference pe ≡ false
            → Observed fd t)
        → Sound attrs
        → Sound (collected_subnets fd pe attrs r ids).0
    unfolding collect_subnet_attributes
    collect-Sound fd pe attrs r [] seen sound = sound
    collect-Sound fd pe attrs r (id ∷ ids) seen sound =
        elim (Answer-cases (get_subnets client id)) [
          | inr (m, e) ↦ rw (collect_subnet_attributes, e) sound
          | inl (ss, e) ↦
              rw (collect_subnet_attributes, e)
                (collect-Sound fd pe (note_subnets fd pe attrs ss) r ids (λ t a. seen t (inr a))
                  (notes-Sound fd pe attrs ss (λ t a. seen t (inl (ss, e, a))) sound))
        ]

    pub collect-Grows :
        (fd pe : Text) (attrs : Attributes) (r : CheckResult) (ids : List Identifier)
        → Grows attrs (collected_subnets fd pe attrs r ids).0
    unfolding collect_subnet_attributes
    collect-Grows fd pe attrs r [] = Grows-refl attrs
    collect-Grows fd pe attrs r (id ∷ ids) = elim (Answer-cases (get_subnets client id)) [
      | inr (m, e) ↦ rw (collect_subnet_attributes, e) (Grows-refl attrs)
      | inl (ss, e) ↦
          let next = note_subnets fd pe attrs ss in
          rw (collect_subnet_attributes, e)
            (Grows-trans attrs next (collected_subnets fd pe next r ids).0
              (notes-Grows fd pe attrs ss) (collect-Grows fd pe next r ids))
    ]

    same_subnets :
        (id : Identifier) (ss ts : List PcSubnet)
        → get_subnets client id ≡ ok ss
        → get_subnets client id ≡ ok ts
        → ts ≡ ss
    same_subnets id ss ts p q = cc (p, q)

    pub collect-Recorded :
        (fd pe : Text) (attrs : Attributes) (r : CheckResult) (ids : List Identifier) (s : PcSubnet)
        → (collected_subnets fd pe attrs r ids).1.allowed ≡ true
        → Lists ids s
        → on_other_element s.cluster_reference pe ≡ false
        → Recorded fd s (collected_subnets fd pe attrs r ids).0
    unfolding collect_subnet_attributes fail_check fail_check_internal
    collect-Recorded fd pe attrs r [] s h a here = absurd a
    collect-Recorded fd pe attrs r (id ∷ ids) s h a here =
        elim (Answer-cases (get_subnets client id)) [
          | inr (m, e) ↦ absurd (cc (rw (e, collect_subnet_attributes) at h))
          | inl (ss, e) ↦
              let next = note_subnets fd pe attrs ss in
              elim a [
                | inr later ↦
                    rw (collect_subnet_attributes, e)
                      (collect-Recorded fd pe next r ids s (rw (e, collect_subnet_attributes) at h)
                        later here)
                | inl (ts, p, among) ↦
                    let within =
                      subst (λ (us : List PcSubnet). Any (λ t. t ≡ s) us)
                        (same_subnets id ss ts e p) among in
                    rw (collect_subnet_attributes, e)
                      (Recorded-Grows fd s next (collected_subnets fd pe next r ids).0
                        (collect-Grows fd pe next r ids)
                        (notes-Recorded fd pe attrs ss s here within))
              ]
        ]
