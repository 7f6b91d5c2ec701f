-- ===== src/Preflight/Run/Schedules.antt =====
-- Every schedule of the goroutines of `run` ends, and ends with the results of `Spec.run`.
use cluster_api_runtime_exte.Prelude.{
  Option-cases, ℕ, zero, suc, ◌+◌, ◌*◌, ◌<◌, ◌≤◌, ◌≡◌, refl, sym, ap, ◌∙◌, ◌⊎◌, inl, inr, List, [],
  ◌∷◌, ◌++◌, map, Option, some, arith, length,
}
use cluster_api_runtime_exte.Preflight.{Check, NamedResult}
use cluster_api_runtime_exte.Preflight.Skip.{Evaluator}
use cluster_api_runtime_exte.Preflight.Run.{
  Checker, Slot, pending, running, written, start, run_check, Worker, initializing, checking,
  stored, SlotStep, spawn, finish, WorkerStep, enter, check, store, Step, move, Steps, here, next,
  launch, collected,
}
use cluster_api_runtime_exte.Preflight.Run.Spec.{check_result, checker_results, run}

-- The result that a slot has or will have, and the steps that it still takes.
value : Evaluator → Slot → NamedResult
value e (pending c) = check_result e c
value e (running c) = run_check c
value e (written r) = r

slot_work : Slot → ℕ
slot_work (pending c) = 2
slot_work (running c) = 1
slot_work (written r) = 0

slots_work : List Slot → ℕ
slots_work [] = 0
slots_work (s ∷ ss) = slot_work s + slots_work ss

value-start : (e : Evaluator) (c : Check) → value e (start e c) ≡ check_result e c
unfolding value start check_result
value-start e c = ground arith

work-start : (e : Evaluator) (c : Check) → slot_work (start e c) ≤ 1
unfolding slot_work start
work-start e c = ground arith

slots_work-append : (s t : List Slot) → slots_work (s ++ t) ≡ slots_work s + slots_work t
unfolding slots_work
slots_work-append [] t = omega arith
slots_work-append (x ∷ s) t = omega (arith, slots_work-append s t)

-- Replacing one slot by another of the same value keeps all values.
values_replace :
    (e : Evaluator) (before after : List Slot) (a b : Slot)
    → value e a ≡ value e b
    → map (value e) (before ++ (a ∷ after)) ≡ map (value e) (before ++ (b ∷ after))
values_replace e [] after a b h = rw h
values_replace e (x ∷ before) after a b h = rw (values_replace e before after a b h)

module _ (e : Evaluator) where
  SlotStep-values : {s t : List Slot} → SlotStep e s t → map (value e) s ≡ map (value e) t
  unfolding value
  SlotStep-values (spawn before after c h p q) =
      rw (p, q) (values_replace e before after (pending c) (start e c) (sym (value-start e c)))
  SlotStep-values (finish before after c p q) =
      rw (p, q) (values_replace e before after (running c) (written (run_check c)) refl)

  SlotStep-work : {s t : List Slot} → SlotStep e s t → slots_work t < slots_work s
  unfolding slots_work slot_work
  SlotStep-work (spawn before after c h p q) =
      rw (p, q, slots_work-append before _)
        (omega (arith, slots_work-append before (pending c ∷ after), work-start e c))
  SlotStep-work (finish before after c p q) =
      rw (p, q)
        (omega (
          arith,
          slots_work-append before (running c ∷ after),
          slots_work-append before (written (run_check c) ∷ after),
        ))

  -- The values of the slots behind a written one can go on.
  SlotStep-behind :
      {s t : List Slot} (r : NamedResult)
      → SlotStep e s t
      → SlotStep e (written r ∷ s) (written r ∷ t)
  SlotStep-behind r (spawn before after c h p q) =
      spawn (written r ∷ before) after c h (ap (λ l. written r ∷ l) p) (ap (λ l. written r ∷ l) q)
  SlotStep-behind r (finish before after c p q) =
      finish (written r ∷ before) after c (ap (λ l. written r ∷ l) p) (ap (λ l. written r ∷ l) q)

  -- The wait group of the checks never waits for ever: a slot can move, or all are written.
  slots_progress :
      (s : List Slot)
      → ((rs : List NamedResult) × (s ≡ map written rs)) ⊎ ((t : List Slot) × SlotStep e s t)
  slots_progress [] = inl ([], refl)
  slots_progress (pending c ∷ s) = inr (start e c ∷ s, spawn [] s c refl refl refl)
  slots_progress (running c ∷ s) = inr (written (run_check c) ∷ s, finish [] s c refl refl)
  slots_progress (written r ∷ s) = elim (slots_progress s) [
    | inl (rs, p) ↦ inl (r ∷ rs, ap (λ l. written r ∷ l) p)
    | inr (t, st) ↦ inr (written r ∷ t, SlotStep-behind r st)
  ]

slots_work-pending : (cs : List Check) → slots_work (map pending cs) ≡ 2 * length cs
unfolding slots_work slot_work
slots_work-pending [] = refl
slots_work-pending (c ∷ cs) = omega (arith, slots_work-pending cs)

values-pending :
    (e : Evaluator) (cs : List Check) → map (value e) (map pending cs) ≡ map (check_result e) cs
unfolding value
values-pending e [] = refl
values-pending e (c ∷ cs) = rw (values-pending e cs)

values-written : (e : Evaluator) (rs : List NamedResult) → map (value e) (map written rs) ≡ rs
unfolding value
values-written e [] = refl
values-written e (r ∷ rs) = rw (values-written e rs)

module _ {C : Type 0} (e : Evaluator) (cluster : C) (old : Option C) where
  results : Worker C → List NamedResult
  results (initializing c) = checker_results e cluster old c
  results (checking s) = map (value e) s
  results (stored rs) = rs

  -- Two steps for each check, one to enter the checks, and one to store their results.
  worker_work : Worker C → ℕ
  worker_work (initializing c) = 2 + 2 * length (c.init cluster old)
  worker_work (checking s) = 1 + slots_work s
  worker_work (stored rs) = 0

  work : List (Worker C) → ℕ
  work [] = 0
  work (w ∷ ws) = worker_work w + work ws

  WorkerStep-results : {v w : Worker C} → WorkerStep e cluster old v w → results v ≡ results w
  unfolding results checker_results
  WorkerStep-results (enter c p q) = rw (p, q) (sym (values-pending e (c.init cluster old)))
  WorkerStep-results (check s t p st q) = rw (p, q) (SlotStep-values e st)
  WorkerStep-results (store rs p q) = rw (p, q) (values-written e rs)

  WorkerStep-work : {v w : Worker C} → WorkerStep e cluster old v w → worker_work w < worker_work v
  unfolding worker_work
  WorkerStep-work (enter c p q) = rw (p, q) (omega (arith, slots_work-pending (c.init cluster old)))
  WorkerStep-work (check s t p st q) = rw (p, q) (omega (arith, SlotStep-work e st))
  WorkerStep-work (store rs p q) = rw (p, q) (omega arith)

  results_replace :
      (before after : List (Worker C)) (v w : Worker C)
      → results v ≡ results w
      → map results (before ++ (v ∷ after)) ≡ map results (before ++ (w ∷ after))
  results_replace [] after v w h = rw h
  results_replace (x ∷ before) after v w h = rw (results_replace before after v w h)

  work_replace :
      (before after : List (Worker C)) (v w : Worker C)
      → worker_work w < worker_work v
      → work (before ++ (w ∷ after)) < work (before ++ (v ∷ after))
  unfolding work
  work_replace [] after v w h = omega arith
  work_replace (x ∷ before) after v w h = omega (arith, work_replace before after v w h)

  Steps-results :
      {vs ws : List (Worker C)} {n : ℕ}
      → Steps e cluster old vs ws n
      → map results vs ≡ map results ws
  Steps-results here = refl
  Steps-results (next r (move before after v w st p q)) =
      Steps-results r ∙ rw (p, q) (results_replace before after v w (WorkerStep-results st))

  Steps-work :
      {vs ws : List (Worker C)} {n : ℕ} → Steps e cluster old vs ws n → n + work ws ≤ work vs
  Steps-work here = omega arith
  Steps-work (next r (move before after v w st p q)) =
      let fewer = work_replace before after v w (WorkerStep-work st) in
      omega (arith, Steps-work r, ap work p, ap work q)

  results-launch :
      (checkers : List (Checker C)) → map results (launch checkers) ≡ run e cluster old checkers
  unfolding results run
  results-launch [] = refl
  results-launch (c ∷ cs) = rw (results-launch cs)

  collected-results :
      (ws : List (Worker C)) (rs : List (List NamedResult))
      → collected ws ≡ some rs
      → map results ws ≡ rs
  unfolding results collected
  collected-results [] rs h = cc
  collected-results (stored r ∷ ws) rs h = elim (Option-cases (collected ws)) [
    | inl e ↦ cc
    | inr (rest, e) ↦ rw (collected-results ws rest e) (cc)
  ]
  collected-results (initializing _ ∷ ws) rs h = cc
  collected-results (checking _ ∷ ws) rs h = cc

  Step-behind :
      {vs ws : List (Worker C)} (w : Worker C)
      → Step e cluster old vs ws
      → Step e cluster old (w ∷ vs) (w ∷ ws)
  Step-behind x (move before after v w st p q) =
      move (x ∷ before) after v w st (ap (λ l. x ∷ l) p) (ap (λ l. x ∷ l) q)

  -- A checker's goroutine is done, or it can move.
  worker_progress :
      (w : Worker C)
      → ((rs : List NamedResult) × (w ≡ stored rs))
        ⊎ ((v : Worker C) × WorkerStep e cluster old w v)
  worker_progress (initializing c) =
      inr (checking (map pending (c.init cluster old)), enter c refl refl)
  worker_progress (stored rs) = inl (rs, refl)
  worker_progress (checking s) = elim (slots_progress e s) [
    | inl (rs, p) ↦ inr (stored rs, store rs (ap checking p) refl)
    | inr (t, st) ↦ inr (checking t, check s t refl st refl)
  ]

  -- `run` never blocks for ever: it returns, or a goroutine can move.
  progress :
      (ws : List (Worker C))
      → ((rs : List (List NamedResult)) × (collected ws ≡ some rs))
        ⊎ ((us : List (Worker C)) × Step e cluster old ws us)
  unfolding collected
  progress [] = inl ([], refl)
  progress (w ∷ ws) = elim (worker_progress w) [
    | inr (v, st) ↦ inr (v ∷ ws, move [] ws w v st refl refl)
    | inl (rs, p) ↦ elim (progress ws) [
      | inr (us, st) ↦ inr (w ∷ us, Step-behind w st)
      | inl (rest, q) ↦ inl (rs ∷ rest, rw (p, q) refl)
    ]
  ]

  Steps-front :
      {vs us ws : List (Worker C)} {n : ℕ}
      → Step e cluster old vs us
      → Steps e cluster old us ws n
      → Steps e cluster old vs ws (suc n)
  Steps-front st here = next here st
  Steps-front st (next r last) = next (Steps-front st r) last

  Step-work : {vs ws : List (Worker C)} → Step e cluster old vs ws → work ws < work vs
  Step-work st = omega (arith, Steps-work (next here st))

  finishes_within :
      (k : ℕ) (ws : List (Worker C))
      → work ws < k
      → (us : List (Worker C)) × (n : ℕ) × (rs : List (List NamedResult)) × Steps e cluster old ws
          us n
        × (collected us ≡ some rs)
  finishes_within zero ws h = absurd (omega arith)
  finishes_within (suc k) ws h = elim (progress ws) [
    | inl (rs, p) ↦ (ws, 0, rs, here, p)
    | inr (us, st) ↦
        let (last, n, rs, r, p) = finishes_within k us (omega (arith, Step-work st)) in
        (last, suc n, rs, Steps-front st r, p)
  ]

  -- Whatever the order in which the goroutines move, once `run` returns its results are those of
  -- the checks in the order of the checkers and of their checks: the result of the check's run, an
  -- internal error if that panics, and a warning for a skipped check.
  pub run_deterministic :
      (checkers : List (Checker C)) (ws : List (Worker C)) (n : ℕ) (rs : List (List NamedResult))
      → Steps e cluster old (launch checkers) ws n
      → collected ws ≡ some rs
      → rs ≡ run e cluster old checkers
  run_deterministic checkers ws n rs r h =
      sym (collected-results ws rs h) ∙ sym (Steps-results r) ∙ results-launch checkers

  -- The number of steps that the goroutines can take at most: two for each checker and two for
  -- each check.
  pub step_bound : List (Checker C) → ℕ
  step_bound [] = 0
  step_bound (c ∷ cs) = 2 + 2 * length (c.init cluster old) + step_bound cs

  work-launch : (checkers : List (Checker C)) → work (launch checkers) ≡ step_bound checkers
  unfolding work worker_work step_bound
  work-launch [] = refl
  work-launch (c ∷ cs) = omega (arith, work-launch cs)

  -- From every state that the goroutines of `run` can reach, `run` can go on to return the results
  -- of `Spec.run`, and no schedule takes more than two steps for each checker and each check, so
  -- that no schedule runs for ever.
  pub run_terminates :
      (checkers : List (Checker C)) (ws : List (Worker C)) (n : ℕ)
      → Steps e cluster old (launch checkers) ws n
      → (n ≤ step_bound checkers)
        × ((us : List (Worker C)) × (m : ℕ) × Steps e cluster old ws us m
            × (collected us ≡ some (run e cluster old checkers)))
  run_terminates checkers ws n r =
      let (us, m, rs, s, p) = finishes_within (suc (work ws)) ws (omega arith) in
      (
        omega (arith, Steps-work r, work-launch checkers),
        (
          us,
          m,
          s,
          p
              ∙ ap some (
                  sym (collected-results us rs p)
                  ∙ sym (Steps-results s)
                  ∙ sym (Steps-results r)
                  ∙ results-launch checkers),
        ),
      )
