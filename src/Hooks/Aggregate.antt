-- ===== src/Hooks/Aggregate.antt =====
-- aggregateResponses of common/pkg/capi/clustertopology/handlers/lifecycle/parallel.go. The two types
-- of responses are told apart by whether they are a `RetryResponseObject`. `util.LowestNonZeroInt32`
-- of Cluster API is a parameter.
pub mod Laws
use cluster_api_runtime_exte.Prelude.{
  ℤ, pos, negsuc, zero, suc, Bool, true, false, List, [], ◌∷◌, ◌++◌, Option, none, some, Text,
  codes, join, is_empty, if◌then◌else◌,
}

abbrev pub is_positive : ℤ → Bool
is_positive (pos zero) = false
is_positive (pos (suc n)) = true
is_positive (negsuc n) = false

-- `ResponseStatus` is a text: a hook may leave it at something else than the two constants.
pub data Status : Type 0 where
  success failure : Status
  other_status : Text → Status

-- `retry_after` is a field of the responses that are a `RetryResponseObject` only.
-- It is an `int32`.
pub record Response : Type 0 where
  pub status : Status
  pub message : Text
  pub retry_after : ℤ

-- The variables of the loop.
pub record Totals : Type 0 where
  pub success_messages : List Text
  pub failure_messages : List Text
  pub retry_after_seconds : ℤ
  pub aggregated_status : Status

abbrev pub no_totals : Totals
no_totals = record {
  success_messages = [];
  failure_messages = [];
  retry_after_seconds = pos 0;
  aggregated_status = success;
}

unfoldable pub add_message : Text → List Text → List Text
add_message m ms = if is_empty m then ms else ms ++ (m ∷ [])

module _ (retries : Bool) (lowest : ℤ → ℤ → ℤ) where
  -- The retry that a failed response adds to those before it.
  unfoldable pub add_retry : ℤ → ℤ → ℤ
  add_retry seconds r = if retries then lowest seconds r else seconds

  -- The body of the loop over the responses.
  unfoldable pub add_status : Totals → Response → Status → Totals
  unfolding add_message add_retry
  add_status t r failure = record t {
    aggregated_status = failure;
    failure_messages = add_message r.message t.failure_messages;
    retry_after_seconds = add_retry t.retry_after_seconds r.retry_after;
  }
  add_status t r success = record t { success_messages = add_message r.message t.success_messages }
  add_status t r (other_status s) = t

  unfoldable pub add_responses : Totals → List Response → Totals
  unfolding add_status
  add_responses t [] = t
  add_responses t (r ∷ rs) = add_responses (add_status t r r.status) rs

  -- The type assertion of a response that is no `RetryResponseObject` panics, which is none.
  unfoldable pub set_retry : Response → ℤ → Option Response
  set_retry r seconds = if retries then some (record r { retry_after = seconds }) else none

  unfoldable pub conclude : Response → Totals → Status → Option Response
  unfolding set_retry
  conclude r t failure =
      let denied : Response = record r {
        status = failure;
        message = join (codes ", ") t.failure_messages;
      } in
      if is_positive t.retry_after_seconds
      then set_retry denied t.retry_after_seconds
      else some denied
  conclude r t success =
      some (record r { status = success; message = join (codes ", ") t.success_messages })
  conclude r t (other_status s) = some (record r { status = other_status s })

  unfoldable pub aggregate_responses : Response → List Response → Option Response
  unfolding add_responses conclude
  aggregate_responses r rs = let t = add_responses no_totals rs in conclude r t t.aggregated_status
