-- ===== src/Preflight/Run/Spec.antt =====
-- What `run` is for: the result of every check, in the order of the checkers and of their checks.
use cluster_api_runtime_exte.Prelude.{List, Option, map, if◌then◌else◌}
use cluster_api_runtime_exte.Preflight.{Check, NamedResult}
use cluster_api_runtime_exte.Preflight.Skip.{Evaluator, skips}
use cluster_api_runtime_exte.Preflight.Run.{Checker, run_check, skipped_result}

unfoldable pub check_result : Evaluator → Check → NamedResult
check_result e c = if skips e c.name then skipped_result c.name else run_check c

module _ {C : Type 0} (e : Evaluator) (cluster : C) (old : Option C) where
  unfoldable pub checker_results : Checker C → List NamedResult
  checker_results c = map (check_result e) (c.init cluster old)

  unfoldable pub run : List (Checker C) → List (List NamedResult)
  run checkers = map checker_results checkers
