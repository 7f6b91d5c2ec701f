-- ===== src/Preflight/Run/Tests.antt =====
-- One schedule of two checkers.
use cluster_api_runtime_exte.Prelude.{ℕ, ◌≡◌, ◌≤◌, refl, false, List, [], ◌∷◌, none, some, codes}
use cluster_api_runtime_exte.Preflight.{Check, panicked}
use cluster_api_runtime_exte.Preflight.Skip.{Evaluator, skips}
use cluster_api_runtime_exte.Preflight.Run.{
  Checker, Worker, checking, stored, written, pending, Steps, here, next, move, launch, collected,
  enter, check, store, spawn, finish, start, run_check, running, initializing,
}
use cluster_api_runtime_exte.Preflight.Run.Spec.{run}
use cluster_api_runtime_exte.Preflight.Run.Schedules.{run_deterministic, run_terminates, step_bound}

abbrev evaluator : Evaluator
evaluator = record { names = []; all = false }

abbrev panicking : Check
panicking = record { name = codes "Registry"; run = panicked (codes "nil map") }

abbrev checkers : List (Checker ℕ)
checkers = record { init = λ c old. [] } ∷ record { init = λ c old. panicking ∷ [] } ∷ []

abbrev first : Checker ℕ
first = record { init = λ c old. [] }

abbrev second : Checker ℕ
second = record { init = λ c old. panicking ∷ [] }

-- The second checker runs its check before the first one is entered.
schedule :
    Steps evaluator 7 none (launch checkers) (stored [] ∷ stored (run_check panicking ∷ []) ∷ []) 6
unfolding start run_check skips
schedule =
    next
      (next
        (next
          (next
            (next
              (next here (
                move (initializing first ∷ []) [] (initializing second)
                  (checking (pending panicking ∷ [])) (enter second refl refl) refl refl))
              (move (initializing first ∷ []) [] (checking (pending panicking ∷ []))
                (checking (running panicking ∷ []))
                (check (pending panicking ∷ []) (running panicking ∷ []) refl
                  (spawn [] [] panicking refl refl refl) refl)
                refl refl))
            (move (initializing first ∷ []) [] (checking (running panicking ∷ []))
              (checking (written (run_check panicking) ∷ []))
              (check (running panicking ∷ []) (written (run_check panicking) ∷ []) refl
                (finish [] [] panicking refl refl) refl)
              refl refl))
          (move [] (checking (written (run_check panicking) ∷ []) ∷ []) (initializing first)
            (checking []) (enter first refl refl) refl refl))
        (move (checking [] ∷ []) [] (checking (written (run_check panicking) ∷ []))
          (stored (run_check panicking ∷ [])) (store (run_check panicking ∷ []) refl refl) refl
          refl))
      (move [] (stored (run_check panicking ∷ []) ∷ []) (checking []) (stored [])
        (store [] refl refl) refl refl)

run_deterministic_example : [] ∷ (run_check panicking ∷ []) ∷ [] ≡ run evaluator 7 none checkers
unfolding collected
run_deterministic_example =
    run_deterministic evaluator 7 none checkers _ 6 ([] ∷ (run_check panicking ∷ []) ∷ []) schedule
      refl

run_terminates_example :
    (6 ≤ step_bound evaluator 7 none checkers)
    × ((us : List (Worker ℕ)) × (m : ℕ) × Steps evaluator 7 none
          (stored [] ∷ stored (run_check panicking ∷ []) ∷ [])
          us
          m
        × (collected us ≡ some (run evaluator 7 none checkers)))
run_terminates_example = run_terminates evaluator 7 none checkers _ 6 schedule
