-- ===== src/Metro/Sites.antt =====
-- metroSitesIdentityCheck, reportDuplicateSiteField and metroVHACategoryNameCheck of metro.go. The Go
-- map from the values that were seen to the names of their sites is an association list.
pub mod Apart
pub mod Names
use cluster_api_runtime_exte.Prelude.{
  ℕ, Bool, true, false, ◌&&◌, List, [], ◌∷◌, ◌++◌, Option, none, some, Text, codes, text_eq,
  is_empty, length, leb, lookup, filter_by, decimal, if◌then◌else◌,
}
use cluster_api_runtime_exte.Preflight.{CheckResult}
use cluster_api_runtime_exte.Prism.{Answer, ok, err}
use cluster_api_runtime_exte.Metro.Report.{
  Complaint, sites_unknown, shared_by_sites, category_too_long, passed, fail_check,
  fail_check_internal,
}
use cluster_api_runtime_exte.Metro.Domains.{Kube, MetroSite, member}

pub record MetroSiteIdentity : Type 0 where
  pub name : Text
  pub preferred : Text
  pub group_label : Text

label_text : Option Text → Text
label_text none = []
label_text (some l) = l

site_identity : MetroSite → MetroSiteIdentity
unfolding label_text
site_identity s = record {
  name = s.name;
  preferred = s.preferred;
  group_label = label_text s.group_label;
}

-- The sites of a NutanixMetro, in the order of the list: what `sitesByMetro` holds for it.
unfoldable pub sites_of : List Text → Text → List MetroSite → List MetroSiteIdentity
unfolding site_identity member
sites_of metro_names metro [] = []
sites_of metro_names metro (s ∷ ss) =
    let rest = sites_of metro_names metro ss in
    if member s.metro metro_names && text_eq s.metro metro then site_identity s ∷ rest else rest

abbrev vha_default_movement_group : Text
vha_default_movement_group = codes "default"

abbrev pub prism_category_value_max_len : ℕ
prism_category_value_max_len = 64

unfoldable pub vha_domain_name : Text → Text → Text
vha_domain_name cluster_name metro_name = cluster_name ++ (codes "-" ++ metro_name)

unfoldable pub vha_category_value : Text → Text → ℕ → Text
vha_category_value domain_name group idx =
    codes "k8s-vha-capx-" ++ (domain_name ++ (codes "-" ++ (group ++ (codes "-" ++ decimal idx))))

module _ (say : Complaint → Text) (field : Text) where
  module _ (metro : Text) (value : MetroSiteIdentity → Text) (field_name : Text) where
    noted :
        List (Text × Text) × CheckResult
        → MetroSiteIdentity
        → Option Text
        → List (Text × Text) × CheckResult
    noted st site (some other) = (
      st.0,
      fail_check say field (shared_by_sites other site.name metro field_name (value site)) st.1,
    )
    noted st site none = ((value site, site.name) ∷ st.0, st.1)

    -- The body of the loop: a site that shares its value is reported and not recorded.
    unfoldable pub note_site :
        List (Text × Text) × CheckResult → MetroSiteIdentity → List (Text × Text) × CheckResult
    unfolding noted
    note_site st site =
        if is_empty (value site) then st else noted st site (lookup (value site) st.0)

    unfoldable pub note_sites :
        List (Text × Text) × CheckResult → List MetroSiteIdentity → List (Text × Text) × CheckResult
    unfolding note_site
    note_sites st [] = st
    note_sites st (site ∷ sites) = note_sites (note_site st site) sites

    unfoldable pub report_duplicate_site_field : CheckResult → List MetroSiteIdentity → CheckResult
    unfolding note_sites
    report_duplicate_site_field r sites = (note_sites ([], r) sites).1

  unfoldable pub check_metro_sites : CheckResult → Text → List MetroSiteIdentity → CheckResult
  unfolding report_duplicate_site_field
  check_metro_sites r metro sites =
      report_duplicate_site_field metro (λ s. s.group_label) (codes "groupNameLabel")
        (report_duplicate_site_field metro (λ s. s.preferred) (codes "preferredFailureDomain") r
          sites)
        sites

  unfoldable pub check_metros : List Text → List MetroSite → CheckResult → List Text → CheckResult
  unfolding check_metro_sites
  check_metros metro_names sites r [] = r
  check_metros metro_names sites r (metro ∷ metros) =
      check_metros metro_names sites (check_metro_sites r metro (sites_of metro_names metro sites))
        metros

  listed_sites : List Text → Answer (List MetroSite) → CheckResult
  unfolding check_metros
  listed_sites metro_names (err e) = fail_check_internal say field (sites_unknown e) passed
  listed_sites metro_names (ok sites) = check_metros metro_names sites passed metro_names

  unfoldable pub run_sites_identity : Kube → List Text → CheckResult
  unfolding listed_sites
  run_sites_identity kube metro_names = listed_sites metro_names kube.list_sites

  -- The length is that of an ASCII text, as the names of Kubernetes objects are.
  unfoldable pub check_category : Text → CheckResult → Text → CheckResult
  unfolding vha_domain_name vha_category_value
  check_category cluster_name r metro =
      let value =
        vha_category_value (vha_domain_name cluster_name metro) vha_default_movement_group 0 in
      if leb (length value) prism_category_value_max_len
      then r
      else fail_check say field (category_too_long value cluster_name metro) r

  check_categories : Text → CheckResult → List Text → CheckResult
  unfolding check_category
  check_categories cluster_name r [] = r
  check_categories cluster_name r (metro ∷ metros) =
      check_categories cluster_name (check_category cluster_name r metro) metros

  unfoldable pub run_category_name : Text → List Text → CheckResult
  unfolding check_categories
  run_category_name cluster_name metro_names = check_categories cluster_name passed metro_names
