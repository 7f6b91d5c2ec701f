-- ===== src/Metro/Report.antt =====
-- The causes that the checks of metro.go report: failCheck and failCheckInternal. The wording is a
-- parameter, a function of which complaint it is and of what it mentions.
use cluster_api_runtime_exte.Prelude.{ℕ, true, false, List, [], ◌∷◌, ◌++◌, Text}
use cluster_api_runtime_exte.Preflight.{CheckResult}
use cluster_api_runtime_exte.Prism.{Identifier}

pub data Complaint : Type 0 where
  pool_without_domain : Text → Complaint
  pool_not_metro : Text → Text → Complaint
  several_metros : List Text → Complaint
  span_unknown : Text → Complaint
  elements_unknown : Text → Complaint
  element_unknown : Text → Text → Complaint
  wrong_span : ℕ → List Text → Complaint
  hosting_unknown : Text → Complaint
  hosts_prism_central : Text → Text → Complaint
  rtt_unknown : Text → Complaint
  rtt_exceeded : ℕ → Complaint
  sites_unknown : Text → Complaint
  shared_by_sites : Text → Text → Text → Text → Text → Complaint
  category_too_long : Text → Text → Text → Complaint
  metro_unresolved metro_unknown : Text → Text → Complaint
  metro_missing : Text → Complaint
  domain_missing : Text → Text → Complaint
  domain_unknown : Text → Text → Text → Complaint
  cluster_unknown : Identifier → Text → Text → Text → Complaint
  wrong_clusters : ℕ → Identifier → Text → Text → Complaint
  cluster_without_id : Identifier → Text → Text → Complaint
  subnet_unknown : Identifier → Text → Text → Text → Complaint
  wrong_metro_span : Text → ℕ → Complaint
  vpc_backed several_layers : Text → List Text → Complaint
  unsupported_layer : Text → Text → Complaint
  profiles_differ : Text → Complaint

abbrev pub passed : CheckResult
passed = record { allowed = true; internal_error = false; causes = []; warnings = [] }

unfoldable pub fail_check : (Complaint → Text) → Text → Complaint → CheckResult → CheckResult
fail_check say field c r = record r {
  allowed = false;
  causes = r.causes ++ (record { message = say c; field = field } ∷ []);
}

unfoldable pub fail_check_internal :
    (Complaint → Text) → Text → Complaint → CheckResult → CheckResult
unfolding fail_check
fail_check_internal say field c r = fail_check say field c (record r { internal_error = true })
