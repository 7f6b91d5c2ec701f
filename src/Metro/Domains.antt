-- ===== src/Metro/Domains.antt =====
-- The failure domains of a cluster: forEachClusterFailureDomain, referencedMetros,
-- metroNameFromFailureDomain and clusterFailureDomainNames of metro.go, and getFailureDomainNames of
-- failuredomain.go. What the management cluster answers is a parameter.
use cluster_api_runtime_exte.Prelude.{
  Bool, true, false, not, ◌&&◌, ◌||◌, List, [], ◌∷◌, ◌++◌, Option, none, some, Text, codes, text_eq,
  is_empty, ltb, ◌==◌, any, filter_by, if◌then◌else◌,
}
use cluster_api_runtime_exte.Prism.{Identifier, Answer, ok, err}

pub record MetroSite : Type 0 where
  pub name : Text
  pub metro : Text
  pub preferred : Text
  pub group_label : Option Text

pub record NutanixFailureDomain : Type 0 where
  pub prism_element : Identifier
  pub subnets : List Identifier

pub data Got (A : Type 0) : Type 0 where
  found : A → Got A
  not_found get_failed : Text → Got A

-- The objects of the cluster's namespace by name; a NutanixMetro is the names of its domains.
pub record Kube : Type 0 where
  pub get_metro : Text → Got (List Text)
  pub get_site : Text → Got MetroSite
  pub get_domain : Text → Got NutanixFailureDomain
  pub list_sites : Answer (List MetroSite)

-- The failure domains of the control plane, or none where a pointer on the way is nil, and the machine
-- deployments of the topology, by name and failure domain.
pub record CheckDependencies : Type 0 where
  pub cluster_name : Text
  pub control_plane : Option (List Text)
  pub machine_deployments : List (Text × Text)

abbrev pub metro_prefix : Text
metro_prefix = codes "NutanixMetro/"

abbrev pub site_prefix : Text
site_prefix = codes "NutanixMetroSite/"

-- The rest of a text behind a prefix: `strings.HasPrefix` and the slice from its length on.
unfoldable pub strip_prefix : Text → Text → Option Text
strip_prefix [] s = some s
strip_prefix (c ∷ p) [] = none
strip_prefix (c ∷ p) (d ∷ s) = let rest = strip_prefix p s in if c == d then rest else none

abbrev pub is_some : Option Text → Bool
is_some none = false
is_some (some x) = true

unfoldable pub is_metro : Text → Bool
unfolding strip_prefix
is_metro fd = is_some (strip_prefix metro_prefix fd)

unfoldable pub is_metro_site : Text → Bool
unfolding strip_prefix
is_metro_site fd = is_some (strip_prefix site_prefix fd)

abbrev pub cp_failure_domains_field : Text
cp_failure_domains_field =
    codes
      "$.spec.topology.variables[?@.name==\"clusterConfig\"].value.controlPlane.nutanix.failureDomains"

unfoldable pub deployment_field : Text → Text
deployment_field name =
    codes "$.spec.topology.workers.machineDeployments[?@.name==\""
    ++ (name ++ codes "\"].failureDomain")

abbrev pub named : Text → Bool
named fd = not (is_empty fd)

unfoldable pub control_plane_domains : Option (List Text) → List (Text × Text)
control_plane_domains none = []
control_plane_domains (some []) = []
control_plane_domains (some (fd ∷ fds)) =
    let rest = control_plane_domains (some fds) in
    if named fd then (fd, cp_failure_domains_field) ∷ rest else rest

unfoldable pub deployment_domains : List (Text × Text) → List (Text × Text)
unfolding deployment_field
deployment_domains [] = []
deployment_domains (md ∷ mds) =
    let rest = deployment_domains mds in
    if named md.1 then (md.1, deployment_field md.0) ∷ rest else rest

-- The failure domains that are visited, each with its field, in the order of the visits.
unfoldable pub cluster_failure_domains : CheckDependencies → List (Text × Text)
unfolding control_plane_domains deployment_domains
cluster_failure_domains d =
    control_plane_domains d.control_plane ++ deployment_domains d.machine_deployments

unfoldable pub member : Text → List Text → Bool
member x xs = any (λ y. text_eq y x) xs

-- The order of `sort.Strings`, on ASCII text.
unfoldable pub text_ltb : Text → Text → Bool
text_ltb [] [] = false
text_ltb [] (c ∷ t) = true
text_ltb (c ∷ s) [] = false
text_ltb (c ∷ s) (d ∷ t) = ltb c d || (c == d && text_ltb s t)

-- Into a set that is kept sorted.
unfoldable pub insert_name : Text → List Text → List Text
unfolding text_ltb
insert_name x [] = x ∷ []
insert_name x (y ∷ ys) =
    let rest = insert_name x ys in
    if text_eq x y then y ∷ ys else if text_ltb x y then x ∷ y ∷ ys else y ∷ rest

pub record MetroReference : Type 0 where
  pub metro_name : Text
  pub field : Text
  pub error : Option Text

module _ (kube : Kube) where
  open kube use {get_metro, get_site, get_domain}

  -- The error of a `Get`; the text that the code wraps round it is left out.
  fetched : {A : Type 0} → Got A → Answer A
  fetched (found a) = ok a
  fetched (not_found e) = err e
  fetched (get_failed e) = err e

  names_of_metro : Answer (List Text) → Answer (List Text)
  names_of_metro (err e) = err e
  names_of_metro (ok names) = ok (filter_by named names)

  -- The preferred failure domain of a site has to be one of its NutanixMetro.
  site_names : MetroSite → Answer (List Text) → Answer (List Text)
  site_names s (err e) = err e
  site_names s (ok names) =
      let fds = filter_by named names in
      if member s.preferred fds
      then ok fds
      else err (codes "preferredFailureDomain is not from the referenced NutanixMetro")

  site_domains : Answer MetroSite → Answer (List Text)
  unfolding site_names fetched
  site_domains (err e) = err e
  site_domains (ok s) = site_names s (fetched (get_metro s.metro))

  domain_names : Text → Option Text → Option Text → Answer (List Text)
  unfolding names_of_metro site_domains fetched
  domain_names fd (some metro) site = names_of_metro (fetched (get_metro metro))
  domain_names fd none (some site) = site_domains (fetched (get_site site))
  domain_names fd none none = ok (fd ∷ [])

  unfoldable pub get_failure_domain_names : Text → Answer (List Text)
  unfolding domain_names strip_prefix
  get_failure_domain_names fd =
      domain_names fd (strip_prefix metro_prefix fd) (strip_prefix site_prefix fd)

  insert_names : List Text → List Text → List Text
  insert_names set [] = set
  insert_names set (n ∷ ns) = insert_names (if named n then insert_name n set else set) ns

  first_error : Option Text → Text → Option Text
  first_error none e = some e
  first_error (some d) e = some d

  add_names : List Text × Option Text → Answer (List Text) → List Text × Option Text
  unfolding insert_names first_error
  add_names st (ok ns) = (insert_names st.0 ns, st.1)
  add_names st (err e) = (st.0, first_error st.1 e)

  names_from : List Text × Option Text → List (Text × Text) → List Text × Option Text
  unfolding add_names
  names_from st [] = st
  names_from st (v ∷ vs) = names_from (add_names st (get_failure_domain_names v.0)) vs

  -- The names, and the first error.
  unfoldable pub cluster_failure_domain_names : CheckDependencies → List Text × Option Text
  unfolding names_from
  cluster_failure_domain_names d = names_from ([], none) (cluster_failure_domains d)

  site_metro : Answer MetroSite → Answer Text
  site_metro (err e) = err e
  site_metro (ok s) = ok s.metro

  metro_of : Option Text → Option Text → Answer Text
  unfolding site_metro fetched
  metro_of (some metro) site = ok metro
  metro_of none (some site) = site_metro (fetched (get_site site))
  metro_of none none = ok []

  -- The empty name for a failure domain without a NutanixMetro.
  unfoldable pub metro_name_from_failure_domain : Text → Answer Text
  unfolding metro_of
  metro_name_from_failure_domain fd =
      metro_of (strip_prefix metro_prefix fd) (strip_prefix site_prefix fd)

  -- The set of keys that were seen, and the references.
  add_metro :
      List Text × List MetroReference → Text → Text → Answer Text → List Text × List MetroReference
  add_metro st fd field (err e) =
      let key = codes "err:" ++ fd in
      if member key st.0
      then st
      else (key ∷ st.0, st.1 ++ (record { metro_name = fd; field = field; error = some e } ∷ []))
  add_metro st fd field (ok metro) =
      if is_empty metro || member metro st.0
      then st
      else (metro ∷ st.0, st.1 ++ (record { metro_name = metro; field = field; error = none } ∷ []))

  metros_from :
      List Text × List MetroReference → List (Text × Text) → List Text × List MetroReference
  unfolding add_metro
  metros_from st [] = st
  metros_from st (v ∷ vs) =
      metros_from (add_metro st v.0 v.1 (metro_name_from_failure_domain v.0)) vs

  unfoldable pub referenced_metros : CheckDependencies → List MetroReference
  unfolding metros_from
  referenced_metros d = (metros_from ([], []) (cluster_failure_domains d)).1
