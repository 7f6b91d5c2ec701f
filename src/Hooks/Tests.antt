-- ===== src/Hooks/Tests.antt =====
-- Two hooks before an upgrade: one fails and wants a retry in 30 seconds, the other succeeds. The
-- second answers first.
use cluster_api_runtime_exte.Prelude.{
  zero, suc, ℤ, pos, negsuc, leb, ◌+◌, ◌-◌, ◌*◌, ◌≤◌, ◌≡◌, refl, sym, true, false, List, [], ◌∷◌,
  length, some, codes, join, arith, if◌then◌else◌,
}
use cluster_api_runtime_exte.Hooks.Aggregate.{Response, success, failure, aggregate_responses}
use cluster_api_runtime_exte.Hooks.Aggregate.Laws.{Lowest, expected, aggregate_responses_lem}
use cluster_api_runtime_exte.Hooks.Run.{
  Hook, new_response, running, sent, State, launch, run_hook, send, done, close, receive, finish,
  Panics, Steps, here, next, IsOver, run_hooks_in_parallel,
}
use cluster_api_runtime_exte.Hooks.Run.Ends.{hooks_terminate}
use cluster_api_runtime_exte.Hooks.Run.Orders.{run_hooks_in_parallel_lem}

abbrev lowest : ℤ → ℤ → ℤ
lowest (pos zero) b = b
lowest (pos (suc m)) (pos zero) = pos (suc m)
lowest (pos (suc m)) (pos (suc n)) = if leb m n then pos (suc m) else pos (suc n)
lowest (pos (suc m)) (negsuc n) = negsuc n
lowest (negsuc m) (pos n) = negsuc m
lowest (negsuc m) (negsuc n) = if leb n m then negsuc m else negsuc n

zero_right : (a : ℤ) → lowest a (pos 0) ≡ a
zero_right (pos zero) = refl
zero_right (pos (suc n)) = refl
zero_right (negsuc n) = refl

lowest_comm : (a b : ℤ) → lowest a b ≡ lowest b a
lowest_comm (pos zero) b = sym (zero_right b)
lowest_comm (pos (suc m)) (pos zero) = refl
lowest_comm (pos (suc m)) (pos (suc n)) = ground arith
lowest_comm (pos (suc m)) (negsuc n) = refl
lowest_comm (negsuc m) (pos zero) = refl
lowest_comm (negsuc m) (pos (suc n)) = refl
lowest_comm (negsuc m) (negsuc n) = ground arith

lowest_assoc : (a b c : ℤ) → lowest (lowest a b) c ≡ lowest a (lowest b c)
lowest_assoc (pos zero) b c = refl
lowest_assoc (pos (suc m)) (pos zero) c = refl
lowest_assoc (pos (suc m)) (pos (suc n)) (pos zero) = ground arith
lowest_assoc (pos (suc m)) (pos (suc n)) (pos (suc k)) = ground arith
lowest_assoc (pos (suc m)) (pos (suc n)) (negsuc k) = ground arith
lowest_assoc (pos (suc m)) (negsuc n) (pos k) = ground arith
lowest_assoc (pos (suc m)) (negsuc n) (negsuc k) = ground arith
lowest_assoc (negsuc m) (pos zero) c = refl
lowest_assoc (negsuc m) (pos (suc n)) (pos zero) = refl
lowest_assoc (negsuc m) (pos (suc n)) (pos (suc k)) = ground arith
lowest_assoc (negsuc m) (pos (suc n)) (negsuc k) = refl
lowest_assoc (negsuc m) (negsuc n) (pos k) = ground arith
lowest_assoc (negsuc m) (negsuc n) (negsuc k) = ground arith

laws : Lowest lowest
laws = record {
  zero_left = λ a. refl;
  zero_right = zero_right;
  lowest_comm = lowest_comm;
  lowest_assoc = lowest_assoc;
}

abbrev failing : Response
failing = record { status = failure; message = codes "not yet"; retry_after = pos 30 }

abbrev passing : Response
passing = record { status = success; message = codes "ready"; retry_after = pos 0 }

abbrev hooks : List Hook
hooks = (λ r. failing) ∷ (λ r. passing) ∷ []

abbrev over : State
over = record {
  goroutines = [];
  waiting = 0;
  capacity = 2;
  channel = [];
  closed = true;
  individual_responses = passing ∷ failing ∷ [];
  over = true;
}

aggregate_responses_lem_example :
    aggregate_responses true lowest new_response (passing ∷ failing ∷ [])
    ≡ some (record { status = failure; message = codes "not yet"; retry_after = pos 30 })
unfolding join codes
aggregate_responses_lem_example =
    aggregate_responses_lem true lowest laws new_response (passing ∷ failing ∷ [])

-- The states after the second hook has ended, and after the first.
abbrev halfway : State
halfway = record {
  goroutines = running (λ r. failing) ∷ [];
  waiting = 1;
  capacity = 2;
  channel = passing ∷ [];
  closed = false;
  individual_responses = [];
  over = false;
}

abbrev all_read : State
all_read = record {
  goroutines = sent ∷ [];
  waiting = 1;
  capacity = 2;
  channel = [];
  closed = false;
  individual_responses = passing ∷ failing ∷ [];
  over = false;
}

first_part : Steps (launch hooks) halfway 3
unfolding launch
first_part =
    next
      (next (next here (run_hook (running (λ r. failing) ∷ []) [] (λ r. passing) refl))
        (send (running (λ r. failing) ∷ []) [] passing refl refl (omega arith)))
      (done (running (λ r. failing) ∷ []) [] 1 refl refl)

second_part : Steps (launch hooks) all_read 7
second_part =
    next
      (next
        (next (next first_part (run_hook [] [] (λ r. failing) refl)) (receive passing [] refl refl))
        (send [] [] failing refl refl (omega arith)))
      (receive failing [] refl refl)

schedule : Steps (launch hooks) over 10
schedule =
    next (next (next second_part (done [] [] 0 refl refl)) (close refl refl))
      (finish refl refl refl)

hooks_terminate_example :
    (10 ≤ 4 * length hooks + 2)
    × (¬ Panics over)
    × ((t : State) × Steps over t (4 * length hooks + 2 - 10) × IsOver t)
    × (IsOver over → 10 ≡ 4 * length hooks + 2)
hooks_terminate_example = hooks_terminate hooks over 10 schedule

run_hooks_in_parallel_lem_example :
    let direct = expected true lowest new_response (failing ∷ passing ∷ []) in
    (out : Response) × (run_hooks_in_parallel true lowest new_response over ≡ some out)
    × (out.status ≡ direct.status)
    × (out.retry_after ≡ direct.retry_after)
run_hooks_in_parallel_lem_example =
    run_hooks_in_parallel_lem true lowest laws hooks new_response over 10 schedule refl
