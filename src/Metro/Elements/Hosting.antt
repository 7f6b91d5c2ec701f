-- ===== src/Metro/Elements/Hosting.antt =====
-- When Prism Central stands apart from the failure domains.
use cluster_api_runtime_exte.Prelude.{
  ◌≡◌, ◌≢◌, ◌↔◌, refl, true, false, List, [], ◌∷◌, none, Text, text_eq, text_eq_iff, is_empty, All,
  Bool-cases, inl, inr,
}
use cluster_api_runtime_exte.Prism.{Client, ok}
use cluster_api_runtime_exte.Metro.Report.{Complaint, fail_check, fail_check_internal}
use cluster_api_runtime_exte.Metro.Domains.{Kube}
use cluster_api_runtime_exte.Metro.Elements.{
  failure_domain_prism_element, hosting_scan, hosting_verdict, run_hosting,
}
use cluster_api_runtime_exte.Metro.Elements.Span.{Element, Answer-cases}

module _ (kube : Kube) (client : Client) where
  abbrev pub OffHost : Text → Text → Type 0
  OffHost host fd = (u : Text) × Element kube client fd u × (u ≢ host)

module _ (say : Complaint → Text) (kube : Kube) (client : Client) where
  off_host :
      (fd host u v : Text)
      → Element kube client fd u
      → text_eq u host ≡ true
      → Element kube client fd v
      → v ≡ host
  off_host fd host u v e same known = let s = (text_eq_iff u host).0 same in cc (s, e, known)

  scan-allowed :
      (field host : Text) (fds : List Text)
      → ((hosting_scan say kube client field host fds).allowed ≡ true)
        ↔ All (OffHost kube client host) fds
  unfolding hosting_scan fail_check fail_check_internal
  scan-allowed field host [] = (λ h. tt, λ h. refl)
  scan-allowed field host (fd ∷ fds) =
      let rest = scan-allowed field host fds in
      elim (Answer-cases (failure_domain_prism_element kube client fd)) [
        | inr (m, e) ↦ (
          λ h. absurd (cc (rw (e, hosting_scan) at h)),
          λ ((u, known, off), later). absurd (cc (known, e)),
        )
        | inl (u, e) ↦ elim (Bool-cases (text_eq u host)) [
          | inl same ↦ (
            λ h. absurd (cc (rw (e, same, hosting_scan) at h)),
            λ ((v, known, off), later). absurd (off (off_host fd host u v e same known)),
          )
          | inr apart ↦ (
            λ h. (
              (u, e, λ p. absurd (cc ((text_eq_iff u host).1 p, apart))),
              rest.0 (rw (e, apart, hosting_scan) at h),
            ),
            λ (off, later). rw (e, apart, hosting_scan) (rest.1 later),
          )
        ]
      ]

  -- The check of Prism Central's own Prism Element allows the cluster, when that Prism Element is
  -- known, exactly when every failure domain stands on a known Prism Element other than it.
  pub run_hosting-allowed :
      (host field : Text) (names : List Text)
      → is_empty host ≡ false
      → ((run_hosting say kube client (ok host) field names none).allowed ≡ true)
        ↔ All (OffHost kube client host) names
  unfolding run_hosting hosting_verdict
  run_hosting-allowed host field names e = rw e (scan-allowed field host names)
