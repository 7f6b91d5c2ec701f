-- ===== src/Preflight/Run.antt =====
-- `run` of pkg/webhook/preflight/preflight.go: a goroutine for each checker and one for each check.
-- A checker's goroutine owns the slice of its checks' slots; a check's goroutine owns one slot.
-- Goroutines interleave in any order; a wait group lets its waiter pass when every goroutine that
-- was added to it is done. `NamedResults` are the contents of the slices once `run` returns.
pub mod Spec
pub mod Schedules
pub mod Tests
use mathlib.Core.Option
use cluster_api_runtime_exte.Prelude.{
  ℕ, zero, suc, ◌≡◌, Bool, true, false, List, [], ◌∷◌, ◌++◌, map, Option, none, some, Text, codes,
  all, if◌then◌else◌,
}
use cluster_api_runtime_exte.Preflight.{
  Check, CheckResult, NamedResult, Outcome, returned, panicked,
}
use cluster_api_runtime_exte.Preflight.Skip.{Evaluator, skips}

-- `Init` of a checker, on the cluster and on the cluster before an update.
pub record Checker (C : Type 0) : Type 0 where
  pub init : C → Option C → List Check

-- Go's `%q` of a check's name, which holds no code that would need an escape.
abbrev quote : Text → Text
quote name = codes "\"" ++ (name ++ codes "\"")

unfoldable pub skipped_result : Text → NamedResult
skipped_result name = record {
  name = name;
  result = record {
    allowed = true;
    internal_error = false;
    causes = [];
    warnings = (codes "Cluster has skipped preflight check " ++ quote name) ∷ [];
  };
}

abbrev panic_message : Text
panic_message =
    codes
      "The preflight check code had a specific internal error called a \"panic\". This error should not happen under normal circumstances. Please report it, and include the following information: "

unfoldable pub panic_result : Text → Text → NamedResult
panic_result name value = record {
  name = name;
  result = record {
    allowed = false;
    internal_error = true;
    causes = record { message = panic_message ++ value; field = [] } ∷ [];
    warnings = [];
  };
}

unfoldable pub outcome_result : Text → Outcome → NamedResult
unfolding panic_result
outcome_result name (returned r) = record { name = name; result = r }
outcome_result name (panicked value) = panic_result name value

-- The goroutine of a check, with its deferred `recover`.
unfoldable pub run_check : Check → NamedResult
unfolding outcome_result
run_check c = outcome_result c.name c.run

-- A slot of `resultsOrderedByCheck`: the loop has not reached its check, the check's goroutine is
-- running, or the result stands there.
pub data Slot : Type 0 where
  pending running : Check → Slot
  written : NamedResult → Slot

-- The body of the loop over the checks: it writes a skipped result itself, or starts a goroutine.
unfoldable pub start : Evaluator → Check → Slot
start e c = if skips e c.name then written (skipped_result c.name) else running c

abbrev pub is_started : Slot → Bool
is_started (pending _) = false
is_started (running _) = true
is_started (written _) = true

-- The goroutine of a checker: before `Init` returns, over its checks, and done.
pub data Worker (C : Type 0) : Type 0 where
  initializing : Checker C → Worker C
  checking : List Slot → Worker C
  stored : List NamedResult → Worker C

-- The loop starts the first check that it has not reached; a running check writes its own slot.
pub data SlotStep (e : Evaluator) (s t : List Slot) : Type 0 where
  spawn :
      (before after : List Slot) (c : Check)
      → all is_started before ≡ true
      → s ≡ before ++ (pending c ∷ after)
      → t ≡ before ++ (start e c ∷ after)
      → SlotStep e s t
  finish :
      (before after : List Slot) (c : Check)
      → s ≡ before ++ (running c ∷ after)
      → t ≡ before ++ (written (run_check c) ∷ after)
      → SlotStep e s t

module _ {C : Type 0} (e : Evaluator) (cluster : C) (old : Option C) where
  pub data WorkerStep (v w : Worker C) : Type 0 where
    enter :
        (c : Checker C)
        → v ≡ initializing c
        → w ≡ checking (map pending (c.init cluster old))
        → WorkerStep v w
    check : (s t : List Slot) → v ≡ checking s → SlotStep e s t → w ≡ checking t → WorkerStep v w
    -- `checksWG.Wait` returns: every slot is written.
    store : (rs : List NamedResult) → v ≡ checking (map written rs) → w ≡ stored rs → WorkerStep v w

  -- One step of the program: one goroutine of one checker moves.
  pub data Step (vs ws : List (Worker C)) : Type 0 where
    move :
        (before after : List (Worker C)) (v w : Worker C)
        → WorkerStep v w
        → vs ≡ before ++ (v ∷ after)
        → ws ≡ before ++ (w ∷ after)
        → Step vs ws

  -- `n` steps, one after the other.
  pub data Steps (vs : List (Worker C)) : List (Worker C) → ℕ → Type 0 where
    here : Steps vs vs zero
    next : {us ws : List (Worker C)} {n : ℕ} → Steps vs us n → Step us ws → Steps vs ws (suc n)

-- The state once every checker's goroutine is started.
abbrev pub launch : {C : Type 0} → List (Checker C) → List (Worker C)
launch checkers = map initializing checkers

-- `checkersWG.Wait`: `run` returns once every checker has stored its results.
unfoldable pub collected : {C : Type 0} → List (Worker C) → Option (List (List NamedResult))
collected [] = some []
collected (stored rs ∷ ws) = Option.map (λ rest. rs ∷ rest) (collected ws)
collected (initializing _ ∷ ws) = none
collected (checking _ ∷ ws) = none
