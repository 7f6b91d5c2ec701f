-- ===== src/Hooks/Run/Orders.antt =====
-- Every order of the goroutines ends with the same status and retry.
use cluster_api_runtime_exte.Prelude.{
  ℤ, pos, ℕ, ◌≡◌, refl, sym, ap, ◌∙◌, Bool, false, ◌||◌, List, [], ◌∷◌, ◌++◌, map, some, any, arith,
  inl, inr, Bool-cases,
}
use cluster_api_runtime_exte.Hooks.Aggregate.{Response}
use cluster_api_runtime_exte.Hooks.Aggregate.Laws.{
  Lowest, failed, retry_of, lowest_retry, expected, aggregate_responses_lem,
}
use cluster_api_runtime_exte.Hooks.Run.{
  Hook, new_response, Goroutine, running, returned, sent, State, launch, Step, run_hook, send, done,
  close, receive, finish, Steps, here, next, IsOver, run_hooks_in_parallel,
}
use cluster_api_runtime_exte.Hooks.Run.Invariant.{Steps-IsValid, over_ended}

-- A fold of the responses that does not depend on their order.
module _ {M : Type 0} (unit : M) (op : M → M → M) (measure : Response → M)
    (unit_left : (a : M) → op unit a ≡ a) (op_comm : (a b : M) → op a b ≡ op b a)
    (op_assoc : (a b c : M) → op (op a b) c ≡ op a (op b c)) where
  total : List Response → M
  total [] = unit
  total (r ∷ rs) = op (measure r) (total rs)

  -- The response that a goroutine has still to send.
  value : Goroutine → M
  value (running h) = measure (h new_response)
  value (returned r) = measure r
  value sent = unit

  ahead : List Goroutine → M
  unfolding value
  ahead [] = unit
  ahead (g ∷ gs) = op (value g) (ahead gs)

  exchange : (a b c : M) → op a (op b c) ≡ op b (op a c)
  exchange a b c = sym (op_assoc a b c) ∙ ap (λ x. op x c) (op_comm a b) ∙ op_assoc b a c

  total_snoc :
      (rs : List Response) (r : Response) → total (rs ++ (r ∷ [])) ≡ op (measure r) (total rs)
  unfolding total
  total_snoc [] r = refl
  total_snoc (x ∷ rs) r =
      ap (op (measure x)) (total_snoc rs r) ∙ exchange (measure x) (measure r) (total rs)

  ahead_insert :
      (before after : List Goroutine) (g : Goroutine)
      → ahead (before ++ (g ∷ after)) ≡ op (value g) (ahead (before ++ after))
  unfolding ahead
  ahead_insert [] after g = refl
  ahead_insert (x ∷ before) after g =
      ap (op (value x)) (ahead_insert before after g)
      ∙ exchange (value x) (value g) (ahead (before ++ after))

  all_responses : State → M
  unfolding total ahead
  all_responses s = op (total s.individual_responses) (op (total s.channel) (ahead s.goroutines))

  Step-all : {s t : State} → Step s t → all_responses s ≡ all_responses t
  unfolding all_responses value total
  Step-all {s} (run_hook before after h p) =
      rw
        (
          p,
          ahead_insert before after (running h),
          ahead_insert before after (returned (h new_response)),
        )
        refl
  Step-all {s} (send before after x p o l) =
      rw
        (
          p,
          ahead_insert before after (returned x),
          ahead_insert before after sent,
          total_snoc s.channel x,
          unit_left (ahead (before ++ after)),
        )
        (ap (op (total s.individual_responses)) (
          exchange (total s.channel) (measure x) (ahead (before ++ after))
          ∙ sym (op_assoc (measure x) (total s.channel) (ahead (before ++ after)))))
  Step-all {s} (done before after n p w) =
      rw (p, ahead_insert before after sent, unit_left (ahead (before ++ after))) refl
  Step-all (close w o) = refl
  Step-all {s} (receive x rest p o) =
      rw (p, total_snoc s.individual_responses x)
        (ap (op (total s.individual_responses))
            (op_assoc (measure x) (total rest) (ahead s.goroutines))
          ∙ exchange (total s.individual_responses) (measure x)
              (op (total rest) (ahead s.goroutines))
          ∙ sym (
              op_assoc (measure x) (total s.individual_responses)
                (op (total rest) (ahead s.goroutines))))
  Step-all (finish p c o) = refl

  Steps-all : {s t : State} {n : ℕ} → Steps s t n → all_responses s ≡ all_responses t
  Steps-all here = refl
  Steps-all (next r st) = Steps-all r ∙ Step-all st

  ahead-running :
      (hooks : List Hook)
      → ahead (map running hooks) ≡ total (map (λ (h : Hook). h new_response) hooks)
  unfolding ahead value total
  ahead-running [] = refl
  ahead-running (h ∷ hooks) = ap (op (measure (h new_response))) (ahead-running hooks)

  over-total :
      (hooks : List Hook) {s : State} {n : ℕ}
      → Steps (launch hooks) s n
      → IsOver s
      → total s.individual_responses ≡ total (map (λ (h : Hook). h new_response) hooks)
  unfolding all_responses total ahead launch
  over-total hooks {s} r o =
      let run = Steps-all r in
      let ended = over_ended (Steps-IsValid hooks r) o in
      let right : all_responses s ≡ total s.individual_responses =
        rw (ended.0, ended.1)
          (ap (op (total s.individual_responses)) (unit_left unit)
            ∙ op_comm (total s.individual_responses) unit
            ∙ unit_left (total s.individual_responses)) in
      sym (
        sym (
          unit_left (op unit (ahead (map running hooks)))
          ∙ unit_left (ahead (map running hooks))
          ∙ ahead-running hooks)
        ∙ run
        ∙ right)

or_left : (a : Bool) → (false || a) ≡ a
or_left a = ground arith

or_comm : (a b : Bool) → (a || b) ≡ (b || a)
or_comm a b = ground arith

or_assoc : (a b c : Bool) → ((a || b) || c) ≡ (a || (b || c))
or_assoc a b c = ground arith

module _ (retries : Bool) (lowest : ℤ → ℤ → ℤ) (laws : Lowest lowest) where
  open laws use {zero_left, lowest_comm, lowest_assoc}

  total-failed :
      (rs : List Response)
      → total false (λ a b. a || b) failed or_left or_comm or_assoc rs ≡ any failed rs
  unfolding total
  total-failed [] = refl
  total-failed (r ∷ rs) = ap (λ b. failed r || b) (total-failed rs)

  total-retry :
      (rs : List Response)
      → total (pos 0) lowest (retry_of retries lowest) zero_left lowest_comm lowest_assoc rs
        ≡ lowest_retry retries lowest rs
  unfolding total
  total-retry [] = refl
  total-retry (r ∷ rs) = ap (lowest (retry_of retries lowest r)) (total-retry rs)

  expected_same :
      (r : Response) (rs qs : List Response)
      → any failed rs ≡ any failed qs
      → lowest_retry retries lowest rs ≡ lowest_retry retries lowest qs
      → ((expected retries lowest r rs).status ≡ (expected retries lowest r qs).status)
        × ((expected retries lowest r rs).retry_after ≡ (expected retries lowest r qs).retry_after)
  expected_same r rs qs f l = elim (Bool-cases (any failed qs)) [
    | inl e ↦ rw (f, l, e) (refl, refl)
    | inr e ↦ rw (f, l, e) (refl, refl)
  ]

  -- By the laws of `LowestNonZeroInt32`, whatever the order in which the goroutines of the hooks
  -- run and send and the channel is read, once the loop over the channel has ended the aggregated
  -- response is there, without a panic, and its status and retry are those of the responses of the
  -- hooks aggregated in the order of the hooks.
  pub run_hooks_in_parallel_lem :
      (hooks : List Hook) (response : Response) (s : State) (n : ℕ)
      → Steps (launch hooks) s n
      → IsOver s
      → let direct = expected retries lowest response (map (λ (h : Hook). h new_response) hooks) in
        (out : Response) × (run_hooks_in_parallel retries lowest response s ≡ some out)
        × (out.status ≡ direct.status)
        × (out.retry_after ≡ direct.retry_after)
  unfolding run_hooks_in_parallel
  run_hooks_in_parallel_lem hooks response s n r o =
      let responses = map (λ (h : Hook). h new_response) hooks in
      let fails =
        sym (total-failed s.individual_responses)
        ∙ over-total false (λ a b. a || b) failed or_left or_comm or_assoc hooks r o
        ∙ total-failed responses in
      let retry =
        sym (total-retry s.individual_responses)
        ∙ over-total (pos 0) lowest (retry_of retries lowest) zero_left lowest_comm lowest_assoc
            hooks r o
        ∙ total-retry responses in
      let same = expected_same response s.individual_responses responses fails retry in
      (
        expected retries lowest response s.individual_responses,
        aggregate_responses_lem retries lowest laws response s.individual_responses,
        same.0,
        same.1,
      )
