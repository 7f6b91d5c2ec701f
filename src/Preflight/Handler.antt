-- ===== src/Preflight/Handler.antt =====
-- `WebhookHandler.Handle` of pkg/webhook/preflight/preflight.go. The decoder, the comparison of two
-- specs (`cmp.Equal`, ignoring `Paused`) and `Topology.IsDefined` are parameters: they are libraries'.
-- The spec of a cluster is its `Paused` field and a body that only those libraries look into.
pub mod Results
pub mod Guards
pub mod Admission
pub mod Tests
use cluster_api_runtime_exte.Prelude.{
  ℕ, Bool, true, false, not, List, [], ◌∷◌, ◌++◌, Option, none, some, Text, codes, is_empty,
  if◌then◌else◌,
}
use cluster_api_runtime_exte.Preflight.{Cause, NamedResult}
use cluster_api_runtime_exte.Preflight.Skip.{Evaluator, new, skips_all}
use cluster_api_runtime_exte.Preflight.Run.{Checker}
use cluster_api_runtime_exte.Preflight.Run.Spec.{run}

pub data Operation : Type 0 where
  create update delete connect : Operation

pub record Spec (S : Type 0) : Type 0 where
  pub paused : Option Bool
  pub body : S

pub record Cluster (S : Type 0) : Type 0 where
  pub annotations : List (Text × Text)
  pub deletion_timestamp : Option ℕ
  pub spec : Spec S

pub record Request (R : Type 0) : Type 0 where
  pub operation : Operation
  pub object : R
  pub old_object : R

pub data Decoded (A : Type 0) : Type 0 where
  decoded : A → Decoded A
  malformed : Text → Decoded A

pub record StatusCause : Type 0 where
  pub type : Text
  pub message : Text
  pub field : Text

pub data Reason : Type 0 where
  no_reason internal_error_reason invalid_reason : Reason

pub record Summary : Type 0 where
  pub allowed : Bool
  pub internal_error : Bool
  pub causes : List StatusCause
  pub warnings : List Text

pub record Verdict : Type 0 where
  pub message : Text
  pub code : ℕ
  pub reason : Reason

-- `admission.Allowed` with the warnings added, `admission.Errored`, and the response that the
-- handler fills itself.
pub data Response : Type 0 where
  allowed_with : List Text → Response
  errored : ℕ → Text → Response
  summarized : Summary → Verdict → Response

abbrev pub status_bad_request : ℕ
status_bad_request = 400

abbrev pub status_internal_server_error : ℕ
status_internal_server_error = 500

abbrev pub status_unprocessable_entity : ℕ
status_unprocessable_entity = 422

-- `ptr.Deref(paused, false)`.
abbrev pub is_paused : Option Bool → Bool
is_paused none = false
is_paused (some b) = b

add_causes : Text → List StatusCause → List Cause → List StatusCause
add_causes name acc [] = acc
add_causes name acc (c ∷ cs) =
    add_causes name (acc ++ (record { type = name; message = c.message; field = c.field } ∷ [])) cs

-- The body of the loop over the results.
add_result : Summary → NamedResult → Summary
unfolding add_causes
add_result resp r = record {
  allowed = if not r.allowed then false else resp.allowed;
  internal_error = if r.internal_error then true else resp.internal_error;
  causes = add_causes r.name resp.causes r.causes;
  warnings = resp.warnings ++ r.warnings;
}

add_results : Summary → List NamedResult → Summary
unfolding add_result
add_results resp [] = resp
add_results resp (r ∷ rs) = add_results (add_result resp r) rs

add_all : Summary → List (List NamedResult) → Summary
unfolding add_results
add_all resp [] = resp
add_all resp (rs ∷ rss) = add_all (add_results resp rs) rss

abbrev empty_summary : Summary
empty_summary = record { allowed = true; internal_error = false; causes = []; warnings = [] }

unfoldable pub summarize : List (List NamedResult) → Summary
unfolding add_all
summarize results = add_all empty_summary results

abbrev pub cause_summary : StatusCause → Text
cause_summary c =
    let text = c.type ++ (codes ": " ++ c.message) in
    if is_empty c.field then text else text ++ (codes " (field: " ++ (c.field ++ codes ")"))

-- The loop that writes the causes to the builder, with a separator before all but the first.
write_causes : Bool → Text → List StatusCause → Text
write_causes first builder [] = builder
write_causes first builder (c ∷ cs) =
    write_causes false ((if first then builder else builder ++ codes "; ") ++ cause_summary c) cs

unfoldable pub causes_summary : List StatusCause → Text
unfolding write_causes
causes_summary causes = write_causes true [] causes

-- The `switch` at the end.
unfoldable pub judge : Summary → Verdict
judge resp =
    if resp.internal_error
    then record {
      message =
          codes "preflight checks failed due to an internal error: " ++ causes_summary resp.causes;
      code = status_internal_server_error;
      reason = internal_error_reason;
    }
    else if not resp.allowed
    then record {
      message = codes "preflight checks failed: " ++ causes_summary resp.causes;
      code = status_unprocessable_entity;
      reason = invalid_reason;
    }
    else record { message = []; code = 0; reason = no_reason }

abbrev skipped_all_warning : Text
skipped_all_warning = codes "Cluster has skipped all preflight checks"

abbrev pub is_set : Option ℕ → Bool
is_set none = false
is_set (some _) = true

abbrev pub is_delete : Operation → Bool
is_delete delete = true
is_delete create = false
is_delete update = false
is_delete connect = false

module _ {S R : Type 0} (decode decode_raw : R → Decoded (Cluster S)) (same_body : S → S → Bool)
    (topology_is_defined : S → Bool) (checkers : List (Checker (Cluster S))) where
  -- From `skip.New` on.
  unfoldable pub check_cluster : Cluster S → Option (Cluster S) → Response
  check_cluster cluster old =
      let e = new cluster.annotations in
      if skips_all e
      then allowed_with (skipped_all_warning ∷ [])
      else let resp = summarize (run e cluster old checkers) in summarized resp (judge resp)

  check_update : Cluster S → Decoded (Cluster S) → Response
  check_update cluster (malformed message) = errored status_bad_request message
  check_update cluster (decoded old) =
      if same_body old.spec.body cluster.spec.body
      then allowed_with []
      else check_cluster cluster (some old)

  check_operation : Operation → Cluster S → R → Response
  check_operation update cluster old_object = check_update cluster (decode_raw old_object)
  check_operation create cluster old_object = check_cluster cluster none
  check_operation delete cluster old_object = check_cluster cluster none
  check_operation connect cluster old_object = check_cluster cluster none

  check_decoded : Request R → Decoded (Cluster S) → Response
  check_decoded req (malformed message) = errored status_bad_request message
  check_decoded req (decoded cluster) =
      if is_set cluster.deletion_timestamp
      then allowed_with []
      else if not (topology_is_defined cluster.spec.body)
      then allowed_with []
      else if is_paused cluster.spec.paused
      then allowed_with []
      else check_operation req.operation cluster req.old_object

  pub handle : Request R → Response
  unfolding check_decoded
  handle req =
      if is_delete req.operation then allowed_with [] else check_decoded req (decode req.object)
