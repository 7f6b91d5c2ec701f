-- ===== src/Metro/Sites/Apart.antt =====
-- When the sites of a NutanixMetro are told apart.
use cluster_api_runtime_exte.Prelude.{
  ◌≡◌, ◌↔◌, refl, ap, true, false, List, [], ◌∷◌, none, Text, codes, text_eq, text_eq_iff, is_empty,
  lookup, All, Bool-cases, Option-cases, ◌⊎◌, inl, inr,
}
use cluster_api_runtime_exte.Preflight.{CheckResult}
use cluster_api_runtime_exte.Prism.{ok}
use cluster_api_runtime_exte.Metro.Report.{Complaint, passed, fail_check}
use cluster_api_runtime_exte.Metro.Domains.{Kube, MetroSite}
use cluster_api_runtime_exte.Metro.Sites.{
  MetroSiteIdentity, sites_of, note_site, noted, note_sites, report_duplicate_site_field,
  check_metro_sites, check_metros, listed_sites, run_sites_identity,
}

module _ (value : MetroSiteIdentity → Text) where
  abbrev Shares : MetroSiteIdentity → MetroSiteIdentity → Type 0
  Shares s t = (value s ≡ value t) × (is_empty (value s) ≡ false)

  -- No two of the sites have the same value, unless it is empty.
  abbrev pub Unshared : List MetroSiteIdentity → Type 0
  Unshared [] = Unit {0}
  Unshared (s ∷ ss) = All (λ t. Shares s t → ⊥) ss × Unshared ss

  abbrev Fresh : List (Text × Text) → MetroSiteIdentity → Type 0
  Fresh seen s = (is_empty (value s) ≡ true) ⊎ (lookup (value s) seen ≡ none)

  Fresh-tail :
      (seen : List (Text × Text)) (s t : MetroSiteIdentity)
      → Fresh ((value s, s.name) ∷ seen) t
      → Fresh seen t
  unfolding lookup
  Fresh-tail seen s t (inl e) = inl e
  Fresh-tail seen s t (inr h) = elim (Bool-cases (text_eq (value s) (value t))) [
    | inl e ↦ absurd (cc (rw e at h))
    | inr e ↦ inr (rw e at h)
  ]

  Fresh-apart :
      (seen : List (Text × Text)) (s t : MetroSiteIdentity)
      → Fresh ((value s, s.name) ∷ seen) t
      → Shares s t
      → ⊥
  unfolding lookup
  Fresh-apart seen s t (inl e) (same, full) = absurd (cc (ap is_empty same, e, full))
  Fresh-apart seen s t (inr h) (same, full) =
      let e = (text_eq_iff (value s) (value t)).1 same in absurd (cc (rw e at h))

  Fresh-cons :
      (seen : List (Text × Text)) (s t : MetroSiteIdentity)
      → Fresh seen t
      → (Shares s t → ⊥)
      → is_empty (value s) ≡ false
      → Fresh ((value s, s.name) ∷ seen) t
  unfolding lookup
  Fresh-cons seen s t (inl e) apart full = inl e
  Fresh-cons seen s t (inr h) apart full = elim (Bool-cases (text_eq (value s) (value t))) [
    | inl e ↦ absurd (apart ((text_eq_iff (value s) (value t)).0 e, full))
    | inr e ↦ inr (rw e h)
  ]

  All-tail :
      (seen : List (Text × Text)) (s : MetroSiteIdentity) (ss : List MetroSiteIdentity)
      → All (Fresh ((value s, s.name) ∷ seen)) ss
      → All (Fresh seen) ss
  All-tail seen s [] f = tt
  All-tail seen s (t ∷ ss) f = (Fresh-tail seen s t f.0, All-tail seen s ss f.1)

  All-apart :
      (seen : List (Text × Text)) (s : MetroSiteIdentity) (ss : List MetroSiteIdentity)
      → All (Fresh ((value s, s.name) ∷ seen)) ss
      → All (λ t. Shares s t → ⊥) ss
  All-apart seen s [] f = tt
  All-apart seen s (t ∷ ss) f = (Fresh-apart seen s t f.0, All-apart seen s ss f.1)

  All-cons :
      (seen : List (Text × Text)) (s : MetroSiteIdentity) (ss : List MetroSiteIdentity)
      → is_empty (value s) ≡ false
      → All (Fresh seen) ss
      → All (λ t. Shares s t → ⊥) ss
      → All (Fresh ((value s, s.name) ∷ seen)) ss
  All-cons seen s [] full f a = tt
  All-cons seen s (t ∷ ss) full f a =
      (Fresh-cons seen s t f.0 a.0 full, All-cons seen s ss full f.1 a.1)

  All-empty :
      (s : MetroSiteIdentity) (ss : List MetroSiteIdentity)
      → is_empty (value s) ≡ true
      → All (λ t. Shares s t → ⊥) ss
  All-empty s [] e = tt
  All-empty s (t ∷ ss) e = ((λ sh. absurd (cc (sh.1, e))), All-empty s ss e)

  All-Fresh : (ss : List MetroSiteIdentity) → All (Fresh []) ss
  unfolding lookup
  All-Fresh [] = tt
  All-Fresh (s ∷ ss) = (inr refl, All-Fresh ss)

  module _ (say : Complaint → Text) (field : Text) (metro : Text) (field_name : Text) where
    abbrev SeenState : Type 0
    SeenState = List (Text × Text) × CheckResult

    abbrev note : SeenState → MetroSiteIdentity → SeenState
    note st s = note_site say field metro value field_name st s

    abbrev notes : SeenState → List MetroSiteIdentity → SeenState
    notes st ss = note_sites say field metro value field_name st ss

    notes_sound :
        (st : SeenState) (ss : List MetroSiteIdentity)
        → (notes st ss).1.allowed ≡ true
        → (st.1.allowed ≡ true) × All (Fresh st.0) ss × Unshared ss
    unfolding note_sites note_site noted fail_check
    notes_sound st [] h = (h, tt, tt)
    notes_sound st (s ∷ ss) h =
        let rest = notes_sound (note st s) ss h in
        elim (Bool-cases (is_empty (value s))) [
          | inl e ↦ (
            rw (e, note_site) at rest.0,
            (inl e, rw (e, note_site) at rest.1),
            (All-empty s ss e, rest.2),
          )
          | inr e ↦ elim (Option-cases (lookup (value s) st.0)) [
            | inl l ↦
                let clear = rw (e, l) at rest.1 in
                (
                  rw (e, l) at rest.0,
                  (inr l, All-tail st.0 s ss clear),
                  (All-apart st.0 s ss clear, rest.2),
                )
            | inr (other, l) ↦ let never = rw (e, l) at rest.0 in absurd (cc never)
          ]
        ]

    notes_complete :
        (st : SeenState) (ss : List MetroSiteIdentity)
        → st.1.allowed ≡ true
        → All (Fresh st.0) ss
        → Unshared ss
        → (notes st ss).1.allowed ≡ true
    unfolding note_sites note_site noted fail_check
    notes_complete st [] a f u = a
    notes_complete st (s ∷ ss) a f u = elim (Bool-cases (is_empty (value s))) [
      | inl e ↦ rw (e, note_sites, note_site) (notes_complete st ss a f.1 u.1)
      | inr e ↦ elim f.0 [
        | inl full ↦ absurd (cc (full, e))
        | inr l ↦
            rw (e, l, note_sites, note_site)
              (notes_complete ((value s, s.name) ∷ st.0, st.1) ss a (All-cons st.0 s ss e f.1 u.0)
                u.1)
      ]
    ]

    report-allowed :
        (r : CheckResult) (ss : List MetroSiteIdentity)
        → ((report_duplicate_site_field say field metro value field_name r ss).allowed ≡ true)
          ↔ ((r.allowed ≡ true) × Unshared ss)
    unfolding report_duplicate_site_field
    report-allowed r ss = (
      λ h. let s = notes_sound ([], r) ss h in (s.0, s.2),
      λ (a, u). notes_complete ([], r) ss a (All-Fresh ss) u,
    )

-- The sites of a NutanixMetro prefer different failure domains and have different labels.
abbrev pub Pinned : List MetroSiteIdentity → Type 0
Pinned ss = Unshared (λ s. s.preferred) ss × Unshared (λ s. s.group_label) ss

module _ (say : Complaint → Text) (field : Text) where
  metro-allowed :
      (r : CheckResult) (metro : Text) (ss : List MetroSiteIdentity)
      → ((check_metro_sites say field r metro ss).allowed ≡ true) ↔ ((r.allowed ≡ true) × Pinned ss)
  unfolding check_metro_sites
  metro-allowed r metro ss =
      let first =
        report_duplicate_site_field say field metro (λ s. s.preferred)
          (codes "preferredFailureDomain") r ss in
      let preferred =
        report-allowed (λ s. s.preferred) say field metro (codes "preferredFailureDomain") r ss in
      let label =
        report-allowed (λ s. s.group_label) say field metro (codes "groupNameLabel") first ss in
      (
        λ h. let l = label.0 h in let p = preferred.0 l.0 in (p.0, (p.1, l.1)),
        λ (a, (p, l)). label.1 (preferred.1 (a, p), l),
      )

  metros-allowed :
      (metro_names : List Text) (sites : List MetroSite) (r : CheckResult) (metros : List Text)
      → ((check_metros say field metro_names sites r metros).allowed ≡ true)
        ↔ ((r.allowed ≡ true) × All (λ metro. Pinned (sites_of metro_names metro sites)) metros)
  unfolding check_metros
  metros-allowed metro_names sites r [] = (λ h. (h, tt), λ h. h.0)
  metros-allowed metro_names sites r (metro ∷ metros) =
      let here = sites_of metro_names metro sites in
      let one = metro-allowed r metro here in
      let rest =
        metros-allowed metro_names sites (check_metro_sites say field r metro here) metros in
      (
        λ h. let t = rest.0 h in let o = one.0 t.0 in (o.0, (o.1, t.1)),
        λ (a, (p, t)). rest.1 (one.1 (a, p), t),
      )

  -- The check of the metro sites, when they can be listed, allows the cluster exactly when for each of
  -- its NutanixMetros no two of its sites have the same preferred failure domain and no two the same
  -- group label, empty ones aside.
  pub run_sites_identity-allowed :
      (kube : Kube) (metro_names : List Text) (sites : List MetroSite)
      → kube.list_sites ≡ ok sites
      → ((run_sites_identity say field kube metro_names).allowed ≡ true)
        ↔ All (λ metro. Pinned (sites_of metro_names metro sites)) metro_names
  unfolding run_sites_identity listed_sites
  run_sites_identity-allowed kube metro_names sites e =
      let all = metros-allowed metro_names sites passed metro_names in
      rw e (λ h. (all.0 h).1, λ p. all.1 (refl, p))
