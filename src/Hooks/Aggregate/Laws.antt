-- ===== src/Hooks/Aggregate/Laws.antt =====
-- What the aggregated response is, without the loop.
use cluster_api_runtime_exte.Prelude.{
  ℤ, pos, ◌≡◌, refl, sym, ap, ◌∙◌, Bool, true, false, not, ◌&&◌, ◌||◌, List, [], ◌∷◌, ◌++◌,
  append-nil, append_assoc, some, Text, codes, join, is_empty, any, ◌⊎◌, inl, inr, Bool-cases,
  arith, if◌then◌else◌,
}
use cluster_api_runtime_exte.Hooks.Aggregate.{
  is_positive, Status, success, failure, other_status, Response, Totals, no_totals, add_message,
  add_retry, add_status, add_responses, set_retry, conclude, aggregate_responses,
}

-- `LowestNonZeroInt32`: the lowest of two numbers that are not 0, and 0 gives way to the other.
pub record Lowest (lowest : ℤ → ℤ → ℤ) : Type 0 where
  pub zero_left : (a : ℤ) → lowest (pos 0) a ≡ a
  pub zero_right : (a : ℤ) → lowest a (pos 0) ≡ a
  pub lowest_comm : (a b : ℤ) → lowest a b ≡ lowest b a
  pub lowest_assoc : (a b c : ℤ) → lowest (lowest a b) c ≡ lowest a (lowest b c)

abbrev pub is_failure : Status → Bool
is_failure failure = true
is_failure success = false
is_failure (other_status s) = false

abbrev pub is_success : Status → Bool
is_success success = true
is_success failure = false
is_success (other_status s) = false

abbrev pub failed : Response → Bool
failed r = is_failure r.status

abbrev pub succeeded : Response → Bool
succeeded r = is_success r.status

-- The messages of the responses with `p` that have one.
abbrev pub message_if : Bool → Text → List Text
message_if b m = if b && not (is_empty m) then m ∷ [] else []

abbrev pub messages : (Response → Bool) → List Response → List Text
messages p [] = []
messages p (r ∷ rs) = message_if (p r) r.message ++ messages p rs

add_message_lem : (m : Text) (ms : List Text) → add_message m ms ≡ ms ++ message_if true m
unfolding add_message
add_message_lem [] ms = sym (append-nil ms)
add_message_lem (c ∷ m) ms = refl

module _ (retries : Bool) (lowest : ℤ → ℤ → ℤ) where
  -- What a response adds to the retry.
  abbrev pub retry_of : Response → ℤ
  retry_of r = if failed r && retries then r.retry_after else pos 0

  abbrev pub lowest_retry : List Response → ℤ
  lowest_retry [] = pos 0
  lowest_retry (r ∷ rs) = lowest (retry_of r) (lowest_retry rs)

  abbrev pub expected : Response → List Response → Response
  expected r rs =
      if any failed rs
      then record {
        status = failure;
        message = join (codes ", ") (messages failed rs);
        retry_after = if is_positive (lowest_retry rs) then lowest_retry rs else r.retry_after;
      }
      else record r { status = success; message = join (codes ", ") (messages succeeded rs) }

  step_failures :
      (t : Totals) (r : Response) (s : Status)
      → (add_status retries lowest t r s).failure_messages
        ≡ t.failure_messages ++ message_if (is_failure s) r.message
  unfolding add_status
  step_failures t r failure = add_message_lem r.message t.failure_messages
  step_failures t r success = sym (append-nil t.failure_messages)
  step_failures t r (other_status s) = sym (append-nil t.failure_messages)

  step_successes :
      (t : Totals) (r : Response) (s : Status)
      → (add_status retries lowest t r s).success_messages
        ≡ t.success_messages ++ message_if (is_success s) r.message
  unfolding add_status
  step_successes t r success = add_message_lem r.message t.success_messages
  step_successes t r failure = sym (append-nil t.success_messages)
  step_successes t r (other_status s) = sym (append-nil t.success_messages)

  step_status :
      (t : Totals) (r : Response) (s : Status)
      → is_failure (add_status retries lowest t r s).aggregated_status
        ≡ (is_failure s || is_failure t.aggregated_status)
  unfolding add_status
  step_status t r failure = refl
  step_status t r success = refl
  step_status t r (other_status s) = refl

  add_failures :
      (t : Totals) (rs : List Response)
      → (add_responses retries lowest t rs).failure_messages
        ≡ t.failure_messages ++ messages failed rs
  unfolding add_responses
  add_failures t [] = sym (append-nil t.failure_messages)
  add_failures t (r ∷ rs) =
      add_failures (add_status retries lowest t r r.status) rs
      ∙ ap (λ ms. ms ++ messages failed rs) (step_failures t r r.status)
      ∙ append_assoc t.failure_messages (message_if (failed r) r.message) (messages failed rs)

  add_successes :
      (t : Totals) (rs : List Response)
      → (add_responses retries lowest t rs).success_messages
        ≡ t.success_messages ++ messages succeeded rs
  unfolding add_responses
  add_successes t [] = sym (append-nil t.success_messages)
  add_successes t (r ∷ rs) =
      add_successes (add_status retries lowest t r r.status) rs
      ∙ ap (λ ms. ms ++ messages succeeded rs) (step_successes t r r.status)
      ∙ append_assoc t.success_messages (message_if (succeeded r) r.message) (messages succeeded rs)

  add_statuses :
      (t : Totals) (rs : List Response)
      → is_failure (add_responses retries lowest t rs).aggregated_status
        ≡ (is_failure t.aggregated_status || any failed rs)
  unfolding add_responses
  add_statuses t [] = ground arith
  add_statuses t (r ∷ rs) =
      ground
        (arith, add_statuses (add_status retries lowest t r r.status) rs, step_status t r r.status)

  abbrev IsPlain : Status → Type 0
  IsPlain s = (s ≡ success) ⊎ (s ≡ failure)

  step-IsPlain :
      (t : Totals) (r : Response) (s : Status)
      → IsPlain t.aggregated_status
      → IsPlain (add_status retries lowest t r s).aggregated_status
  unfolding add_status
  step-IsPlain t r failure h = inr refl
  step-IsPlain t r success h = h
  step-IsPlain t r (other_status s) h = h

  add-IsPlain :
      (t : Totals) (rs : List Response)
      → IsPlain t.aggregated_status
      → IsPlain (add_responses retries lowest t rs).aggregated_status
  unfolding add_responses
  add-IsPlain t [] h = h
  add-IsPlain t (r ∷ rs) h =
      add-IsPlain (add_status retries lowest t r r.status) rs (step-IsPlain t r r.status h)

  module _ (laws : Lowest lowest) where
    open laws use {zero_left, zero_right, lowest_assoc}

    retry_step :
        (t : Totals) (r : Response) (s : Status)
        → (add_status retries lowest t r s).retry_after_seconds
          ≡ lowest t.retry_after_seconds (if is_failure s && retries then r.retry_after else pos 0)
    unfolding add_status add_retry
    retry_step t r success = sym (zero_right t.retry_after_seconds)
    retry_step t r (other_status s) = sym (zero_right t.retry_after_seconds)
    retry_step t r failure = elim (Bool-cases retries) [
      | inl e ↦ rw e refl
      | inr e ↦ rw e (sym (zero_right t.retry_after_seconds))
    ]

    add_retries :
        (t : Totals) (rs : List Response)
        → (add_responses retries lowest t rs).retry_after_seconds
          ≡ lowest t.retry_after_seconds (lowest_retry rs)
    unfolding add_responses
    add_retries t [] = sym (zero_right t.retry_after_seconds)
    add_retries t (r ∷ rs) =
        add_retries (add_status retries lowest t r r.status) rs
        ∙ ap (λ s. lowest s (lowest_retry rs)) (retry_step t r r.status)
        ∙ lowest_assoc t.retry_after_seconds (retry_of r) (lowest_retry rs)

    no_retry : (rs : List Response) → retries ≡ false → lowest_retry rs ≡ pos 0
    no_retry [] h = refl
    no_retry (r ∷ rs) h =
        let none_here : retry_of r ≡ pos 0 = ground arith in
        rw (none_here, no_retry rs h) (zero_left (pos 0))

    positive-retries : (rs : List Response) → is_positive (lowest_retry rs) ≡ true → retries ≡ true
    positive-retries rs h = elim (Bool-cases retries) [
      | inl e ↦ e
      | inr e ↦ let zero = ap is_positive (no_retry rs e) in absurd (cc (zero, h))
    ]

    conclude_lem :
        (r : Response) (rs : List Response) (t : Totals)
        → t.failure_messages ≡ messages failed rs
        → t.success_messages ≡ messages succeeded rs
        → t.retry_after_seconds ≡ lowest_retry rs
        → (s : Status) → IsPlain s
        → is_failure s ≡ any failed rs
        → conclude retries lowest r t s ≡ some (expected r rs)
    unfolding conclude set_retry
    conclude_lem r rs t fm sm tr success p h = rw (← h, sm) refl
    conclude_lem r rs t fm sm tr failure p h = elim (Bool-cases (is_positive (lowest_retry rs))) [
      | inl e ↦ rw (← h, fm, tr, e, positive-retries rs e) refl
      | inr e ↦ rw (← h, fm, tr, e) refl
    ]
    conclude_lem r rs t fm sm tr (other_status s) (inl p) h = absurd (cc p)
    conclude_lem r rs t fm sm tr (other_status s) (inr p) h = absurd (cc p)

    -- By the laws of `LowestNonZeroInt32`, an aggregated response is a failure if a response is
    -- one and otherwise a success, with the messages of the responses of that status. The retry
    -- of a failure is the lowest of the failed responses, if it is positive; the type assertion
    -- does not panic.
    pub aggregate_responses_lem :
        (r : Response) (rs : List Response)
        → aggregate_responses retries lowest r rs ≡ some (expected r rs)
    unfolding aggregate_responses
    aggregate_responses_lem r rs =
        conclude_lem r rs (add_responses retries lowest no_totals rs) (add_failures no_totals rs)
          (add_successes no_totals rs) (add_retries no_totals rs ∙ zero_left (lowest_retry rs))
          (add_responses retries lowest no_totals rs).aggregated_status
          (add-IsPlain no_totals rs (inl refl)) (add_statuses no_totals rs)
