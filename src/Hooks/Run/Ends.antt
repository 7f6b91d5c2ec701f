-- ===== src/Hooks/Run/Ends.antt =====
-- The goroutines of the hooks end, the channel is closed and read, and the loop that reads it ends.
use cluster_api_runtime_exte.Prelude.{
  ℕ, zero, suc, ◌+◌, ◌-◌, ◌*◌, ◌≤◌, ◌≡◌, refl, subst, ap, Bool, true, false, List, [], ◌∷◌, map,
  length, length-append, arith, ◌⊎◌, inl, inr,
}
use cluster_api_runtime_exte.Hooks.Aggregate.{Response}
use cluster_api_runtime_exte.Hooks.Run.{
  Hook, new_response, Goroutine, running, returned, sent, State, launch, Step, run_hook, send, done,
  close, receive, finish, Panics, Steps, here, next, IsOver,
}
use cluster_api_runtime_exte.Hooks.Run.Invariant.{
  amount, amount_insert, IsValid, Step-IsValid, Steps-IsValid, over_ended, IsValid-Panics,
}

-- The steps that a goroutine has ahead of it, with the reading of its response.
abbrev goroutine_work : Goroutine → ℕ
goroutine_work (running h) = 4
goroutine_work (returned r) = 3
goroutine_work sent = 1

abbrev to_come : Bool → ℕ
to_come true = 0
to_come false = 1

work : State → ℕ
work s = amount goroutine_work s.goroutines + length s.channel + to_come s.closed + to_come s.over

Step-work : {s t : State} → Step s t → work s ≡ 1 + work t
unfolding work
Step-work {s} (run_hook before after h p) = omega (
  arith,
  ap (amount goroutine_work) p,
  amount_insert goroutine_work before after (running h),
  amount_insert goroutine_work before after (returned (h new_response)),
)
Step-work {s} (send before after x p o l) = omega (
  arith,
  ap (amount goroutine_work) p,
  amount_insert goroutine_work before after (returned x),
  amount_insert goroutine_work before after sent,
  length-append s.channel (x ∷ []),
)
Step-work {s} (done before after n p w) =
    omega (arith, ap (amount goroutine_work) p, amount_insert goroutine_work before after sent)
Step-work {s} (close w o) = omega (arith, ap to_come o)
Step-work {s} (receive x rest p o) = omega (arith, ap (length {A = Response}) p)
Step-work {s} (finish p c o) = omega (arith, ap to_come o)

Steps-work : {s t : State} {n : ℕ} → Steps s t n → work s ≡ n + work t
Steps-work here = omega arith
Steps-work (next r st) = omega (arith, Steps-work r, Step-work st)

work-running : (hooks : List Hook) → amount goroutine_work (map running hooks) ≡ 4 * length hooks
work-running [] = refl
work-running (h ∷ hooks) = omega (arith, work-running hooks)

launch-work : (hooks : List Hook) → work (launch hooks) ≡ 4 * length hooks + 2
unfolding work launch
launch-work hooks = omega (arith, work-running hooks)

-- The loop has ended, or a step leads on: nothing waits for ever.
progress :
    (gs : List Goroutine) (w c : ℕ) (ch : List Response) (closed : Bool) (read : List Response)
    (over : Bool)
    → let s : State = record {
      goroutines = gs;
      waiting = w;
      capacity = c;
      channel = ch;
      closed = closed;
      individual_responses = read;
      over = over;
    } in
      IsValid s → IsOver s ⊎ ((t : State) × Step s t)
progress gs w c ch cl read true v = inl refl
progress gs w c (r ∷ rest) cl read false v = inr (_, receive r rest refl refl)
progress [] w c [] true read false v = inr (_, finish refl refl refl)
progress [] w c [] false read false v = inr (_, close v.counted refl)
progress (running h ∷ gs) w c [] cl read false v = inr (_, run_hook [] gs h refl)
progress (returned r ∷ gs) w c [] true read false v =
    let z = v.closed_last refl in absurd (omega (arith, v.counted))
progress (returned r ∷ gs) w c [] false read false v =
    inr (_, send [] gs r refl refl (omega (arith, v.room)))
progress (sent ∷ gs) w c [] cl read false v = inr (_, done [] gs (length gs) refl v.counted)

over-work : {s : State} → IsValid s → IsOver s → work s ≡ 0
unfolding work
over-work {s} v o = let (g, c) = over_ended v o in rw (g, c, (v.over_last o).0, o) refl

Steps-eq : {s t : State} (m n : ℕ) → m ≡ n → Steps s t m → Steps s t n
Steps-eq {s} {t} m n e r = subst (λ (k : ℕ). Steps s t k) e r

-- From a state with `k` steps ahead a run goes on to one that is over.
run_on :
    (k : ℕ) (u s : State) (n : ℕ)
    → IsValid s
    → Steps u s n
    → work s ≡ k
    → (t : State) × Steps u t (n + k) × IsOver t
run_on zero u s n v r w =
    elim (progress s.goroutines s.waiting s.capacity s.channel s.closed s.individual_responses
      s.over v) [
        | inl o ↦ (s, Steps-eq n (n + 0) (omega arith) r, o)
        | inr (t, st) ↦ let less = Step-work st in absurd (omega arith)
      ]
run_on (suc k) u s n v r w =
    elim (progress s.goroutines s.waiting s.capacity s.channel s.closed s.individual_responses
      s.over v) [
        | inl o ↦ let none_left = over-work v o in absurd (omega arith)
        | inr (t, st) ↦
            let less = Step-work st in
            let rest = run_on k u t (suc n) (Step-IsValid st v) (next r st) (omega arith) in
            (rest.0, Steps-eq (suc n + k) (n + suc k) (omega arith) rest.1, rest.2)
      ]

-- Every run from the launch of the hooks has at most four steps for each hook and two more (the
-- return of the hook, its send, `wg.Done` and the reading of its response; the closing of the channel
-- and the end of the loop). In no state that it reaches does a goroutine send on the closed channel
-- or take the counter of the wait group below zero. From every state that it reaches a run goes on
-- until the loop over the channel has ended, and it has ended only after exactly that many steps.
pub hooks_terminate :
    (hooks : List Hook) (s : State) (n : ℕ)
    → Steps (launch hooks) s n
    → (n ≤ 4 * length hooks + 2)
      × (¬ Panics s)
      × ((t : State) × Steps s t (4 * length hooks + 2 - n) × IsOver t)
      × (IsOver s → n ≡ 4 * length hooks + 2)
hooks_terminate hooks s n r =
    let v = Steps-IsValid hooks r in
    let all = launch-work hooks in
    let ahead = Steps-work r in
    let left = 4 * length hooks + 2 - n in
    let rest = run_on left s s 0 v here (omega arith) in
    (
      omega arith,
      IsValid-Panics v,
      (rest.0, Steps-eq (0 + left) left (omega arith) rest.1, rest.2),
      λ o. omega (arith, over-work v o),
    )
