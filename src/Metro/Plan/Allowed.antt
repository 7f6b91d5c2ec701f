-- ===== src/Metro/Plan/Allowed.antt =====
-- What holds of a cluster on a NutanixMetro that all its metro checks allow.
use cluster_api_runtime_exte.Prelude.{
  ◌+◌, ◌≤◌, ◌≡◌, refl, sym, ◌∙◌, Bool, true, false, List, [], ◌∷◌, ◌++◌, map, Option, none, some,
  Option-cases, Text, is_empty, length, ltb, filter_by, all, all-append, All, inl, inr, arith,
}
use cluster_api_runtime_exte.Prism.{Client, Answer, ok}
use cluster_api_runtime_exte.Metro.Report.{Complaint, fail_check}
use cluster_api_runtime_exte.Metro.Domains.{
  Kube, found, CheckDependencies, MetroReference, referenced_metros, cluster_failure_domain_names,
  named,
}
use cluster_api_runtime_exte.Metro.Pools.{run_single_metro, cluster_node_pools}
use cluster_api_runtime_exte.Metro.Pools.Verdict.{protected, run_all_node_pools-allowed}
use cluster_api_runtime_exte.Metro.Elements.{Rtt, run_scale}
use cluster_api_runtime_exte.Metro.Elements.Span.{SpansTwo, run_scale-allowed}
use cluster_api_runtime_exte.Metro.Elements.Hosting.{OffHost, run_hosting-allowed}
use cluster_api_runtime_exte.Metro.Sites.Names.{run_category_name-allowed}
use cluster_api_runtime_exte.Metro.Network.Spans.{run_metro-SpansTwo}
use cluster_api_runtime_exte.Metro.Plan.{
  MetroCheck, metro_check, scale_check, hosting_check, node_pools_check, category_check,
  metro_names, first_field, single_checks, placed_checks, checks_of, new_metro_checks,
  run_metro_check,
}

module _ (say : Complaint → Text) (kube : Kube) (client : Client) (host : Answer Text)
    (rtt : Text → Text → Rtt) where
  abbrev pub allows : MetroCheck → Bool
  allows c = (run_metro_check say kube client host rtt c).allowed

  -- A NutanixMetro that its own check allows.
  pub record GoodMetro (metro : Text) : Type 0 where
    pub domains : List Text
    pub metro_found : kube.get_metro metro ≡ found domains
    pub on_two : SpansTwo kube client (filter_by named domains)

  -- The cluster is on the one NutanixMetro.
  pub record Placed (d : CheckDependencies) (metro : Text) : Type 0 where
    pub only_metro : metro_names (referenced_metros kube d) ≡ metro ∷ []
    pub is_good : GoodMetro metro
    pub domains_known : (cluster_failure_domain_names kube d).1 ≡ none
    pub on_two : SpansTwo kube client (cluster_failure_domain_names kube d).0
    pub is_protected : protected d ≡ true
    pub is_short : length d.cluster_name + length metro ≤ 40
    pub off_host :
        (h : Text)
        → host ≡ ok h
        → is_empty h ≡ false
        → All (OffHost kube client h) (cluster_failure_domain_names kube d).0

  run_scale-known :
      (field : Text) (fds : List Text) (e : Option Text)
      → (run_scale say kube client field fds e).allowed ≡ true
      → e ≡ none
  unfolding run_scale fail_check
  run_scale-known field fds none h = refl
  run_scale-known field fds (some e) h = absurd (cc h)

  names-GoodMetro :
      (refs : List MetroReference)
      → all allows (map metro_check refs) ≡ true
      → All GoodMetro (metro_names refs)
  unfolding metro_names run_metro_check
  names-GoodMetro [] h = tt
  names-GoodMetro (r ∷ rs) h =
      let here : allows (metro_check r) ≡ true = ground (arith, h) in
      let rest = names-GoodMetro rs (ground (arith, h)) in
      elim (Option-cases r.error) [
        | inr (e, p) ↦ rw (metro_names, p) rest
        | inl p ↦
            let (fds, metro_found, two) =
              run_metro-SpansTwo say r.metro_name r.field kube client
                (rw (run_metro_check, p) at here) in
            rw (metro_names, p)
              (record { domains = fds; metro_found = metro_found; on_two = two }, rest)
      ]

  single_checks-allowed :
      (m : Text) (ms : List Text) (field : Text)
      → all allows (single_checks (m ∷ ms) field) ≡ true
      → ms ≡ []
  unfolding single_checks run_metro_check run_single_metro fail_check
  single_checks-allowed m [] field h = refl
  single_checks-allowed m (n ∷ ms) field h =
      let more : ltb 1 (length (m ∷ n ∷ ms)) ≡ true = ground arith in absurd (cc (rw (more) at h))

  placed :
      (d : CheckDependencies) (field metro : Text) (fds : List Text × Option Text)
      → all allows (placed_checks d fds (metro ∷ []) field) ≡ true
      → metro_names (referenced_metros kube d) ≡ metro ∷ []
      → cluster_failure_domain_names kube d ≡ fds
      → GoodMetro metro
      → Placed d metro
  unfolding placed_checks run_metro_check
  placed d field metro (fds, some e) h one all_known good =
      let scale : allows (scale_check fds field (some e)) ≡ true = ground (arith, h) in
      absurd (cc (run_scale-known field fds (some e) scale))
  placed d field metro (fds, none) h one all_known good =
      let scale : allows (scale_check fds field none) ≡ true = ground (arith, h) in
      let hosting : allows (hosting_check fds field none) ≡ true = ground (arith, h) in
      let pools : allows (node_pools_check (cluster_node_pools d)) ≡ true = ground (arith, h) in
      let category : allows (category_check d.cluster_name (metro ∷ []) field) ≡ true =
        ground (arith, h) in
      record {
        only_metro = one;
        is_good = good;
        domains_known = rw all_known refl;
        on_two = rw all_known ((run_scale-allowed say kube client field fds).0 scale);
        is_protected = sym (run_all_node_pools-allowed say d) ∙ pools;
        is_short = ((run_category_name-allowed say field d.cluster_name (metro ∷ [])).0 category).0;
        off_host = λ u p full. rw all_known (
            (run_hosting-allowed say kube client u field fds full).0
              (rw (run_metro_check, p) at hosting));
      }

  checks-Placed :
      (d : CheckDependencies) (refs : List MetroReference) (metro : Text) (more : List Text)
      → referenced_metros kube d ≡ refs
      → metro_names refs ≡ metro ∷ more
      → all allows (checks_of kube d refs) ≡ true
      → Placed d metro
  unfolding checks_of
  checks-Placed d refs metro more same e h =
      let field = first_field [] refs in
      let fds = cluster_failure_domain_names kube d in
      let names = metro_names refs in
      let parts =
        all-append allows (map metro_check refs)
          (single_checks names field ++ placed_checks d fds names field) in
      let rest = all-append allows (single_checks names field) (placed_checks d fds names field) in
      let metros : all allows (map metro_check refs) ≡ true = ground (arith, h, parts, rest) in
      let single : all allows (single_checks names field) ≡ true = ground (arith, h, parts, rest) in
      let others : all allows (placed_checks d fds names field) ≡ true =
        ground (arith, h, parts, rest) in
      let only = single_checks-allowed metro more field (rw e at single) in
      let one : metro_names refs ≡ metro ∷ [] = rw only at e in
      placed d field metro fds (rw one at others) (rw same one) refl
        (rw one at (names-GoodMetro refs metros)).0

  -- When the clients and the version of Prism Central are known and all metro checks of a cluster that
  -- has a NutanixMetro allow, it has just the one, which is in the management cluster with its failure
  -- domains on two different Prism Elements; all failure domains of the cluster are known and stand on
  -- two different Prism Elements, none of them the one that hosts Prism Central, if that is known; the
  -- control plane, if configured, and every machine deployment is on a NutanixMetro or a site of one;
  -- and the names of cluster and NutanixMetro have together at most 40 characters.
  pub new_metro_checks-Placed :
      (d : CheckDependencies) (metro : Text) (more : List Text)
      → metro_names (referenced_metros kube d) ≡ metro ∷ more
      → all allows (new_metro_checks kube true d) ≡ true
      → Placed d metro
  unfolding new_metro_checks
  new_metro_checks-Placed d metro more e h =
      checks-Placed d (referenced_metros kube d) metro more refl e h
