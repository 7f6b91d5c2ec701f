-- ===== src/Hooks/Run.antt =====
-- runHooksInParallel of common/pkg/capi/clustertopology/handlers/lifecycle/parallel.go: the goroutines
-- of the hooks, the wait group, the goroutine that closes the channel and the loop that reads it, as
-- a step relation. They move in any order.
pub mod Ends
pub mod Invariant
pub mod Orders
use cluster_api_runtime_exte.Prelude.{
  ℤ, pos, ℕ, zero, suc, ◌<◌, ◌≡◌, Bool, true, false, List, [], ◌∷◌, ◌++◌, map, length, Option, Text,
  codes,
}
use cluster_api_runtime_exte.Hooks.Aggregate.{Status, other_status, Response, aggregate_responses}

-- A hook as what it makes of the response that it is handed.
abbrev pub Hook : Type 0
Hook = Response → Response

-- `reflect.New`: the zero value of the response.
abbrev pub new_response : Response
new_response = record { status = other_status (codes ""); message = codes ""; retry_after = pos 0 }

-- The goroutine of a hook: before the return of the hook, before the send, and before `wg.Done`. A
-- goroutine that has called `wg.Done` has ended, and is no longer in the state.
pub data Goroutine : Type 0 where
  running : Hook → Goroutine
  returned : Response → Goroutine
  sent : Goroutine

-- `waiting` is the counter of the wait group; `capacity`, `channel` and `closed` are the response
-- channel; `over` says that the loop over the channel has ended.
pub record State : Type 0 where
  pub goroutines : List Goroutine
  pub waiting : ℕ
  pub capacity : ℕ
  pub channel : List Response
  pub closed : Bool
  pub individual_responses : List Response
  pub over : Bool

unfoldable pub launch : List Hook → State
launch hooks = record {
  goroutines = map running hooks;
  waiting = length hooks;
  capacity = length hooks;
  channel = [];
  closed = false;
  individual_responses = [];
  over = false;
}

-- parallelBCC, parallelACPI, parallelBCU, parallelACPU and parallelBCD, which have one shape, and
-- what their hook method starts: each of their hooks' methods in a goroutine.
pub record ParallelHook : Type 0 where
  pub name : Text
  pub hooks : List Hook

unfoldable pub start_hooks : ParallelHook → State
unfolding launch
start_hooks p = launch p.hooks

-- A hook returns. Its response is sent, for which the channel has to be open and to have room. The
-- goroutine calls `wg.Done` and ends. When the counter is zero the goroutine that waits for it closes
-- the channel. The loop reads a response, or ends on a channel that is closed and empty.
pub data Step (s : State) : State → Type 0 where
  run_hook :
      (before after : List Goroutine) (h : Hook)
      → s.goroutines ≡ before ++ (running h ∷ after)
      → Step s (record s { goroutines = before ++ (returned (h new_response) ∷ after) })
  send :
      (before after : List Goroutine) (r : Response)
      → s.goroutines ≡ before ++ (returned r ∷ after)
      → s.closed ≡ false
      → length s.channel < s.capacity
      → Step s (record s { goroutines = before ++ (sent ∷ after); channel = s.channel ++ (r ∷ []) })
  done :
      (before after : List Goroutine) (n : ℕ)
      → s.goroutines ≡ before ++ (sent ∷ after)
      → s.waiting ≡ suc n
      → Step s (record s { goroutines = before ++ after; waiting = n })
  close : s.waiting ≡ 0 → s.closed ≡ false → Step s (record s { closed = true })
  receive :
      (r : Response) (rest : List Response)
      → s.channel ≡ r ∷ rest
      → s.over ≡ false
      → Step s
          (record s { channel = rest; individual_responses = s.individual_responses ++ (r ∷ []) })
  finish : s.channel ≡ [] → s.closed ≡ true → s.over ≡ false → Step s (record s { over = true })

-- What a goroutine would panic on: a send on the closed channel, and a `wg.Done` that takes the
-- counter below zero.
pub data Panics (s : State) : Type 0 where
  send_on_closed :
      (before after : List Goroutine) (r : Response)
      → s.goroutines ≡ before ++ (returned r ∷ after)
      → s.closed ≡ true
      → Panics s
  negative_counter :
      (before after : List Goroutine)
      → s.goroutines ≡ before ++ (sent ∷ after)
      → s.waiting ≡ 0
      → Panics s

pub data Steps (s : State) : State → ℕ → Type 0 where
  here : Steps s s zero
  next : {t u : State} {n : ℕ} → Steps s t n → Step t u → Steps s u (suc n)

-- The loop over the channel has ended.
abbrev pub IsOver : State → Type 0
IsOver s = s.over ≡ true

-- What `runHooksInParallel` makes of its response in a state that is over.
unfoldable pub run_hooks_in_parallel : Bool → (ℤ → ℤ → ℤ) → Response → State → Option Response
unfolding aggregate_responses
run_hooks_in_parallel retries lowest response s =
    aggregate_responses retries lowest response s.individual_responses
