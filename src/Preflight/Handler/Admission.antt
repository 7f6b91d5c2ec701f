-- ===== src/Preflight/Handler/Admission.antt =====
-- What admits or denies a request whose checks run, check by check.
use cluster_api_runtime_exte.Prelude.{
  ◌≡◌, refl, ap, ◌∙◌, inl, inr, Bool, true, false, not, ◌&&◌, ◌||◌, List, [], ◌∷◌, Option, some,
  arith, any, all, concat, all-concat, any-concat, all-map, any-map, Any, Text,
}
use cluster_api_runtime_exte.Preflight.{Check, NamedResult, panicked}
use cluster_api_runtime_exte.Preflight.Skip.{Evaluator, new, skips}
use cluster_api_runtime_exte.Preflight.Run.{Checker, run_check, skipped_result, outcome_result}
use cluster_api_runtime_exte.Preflight.Run.Spec.{run, check_result, checker_results}
use cluster_api_runtime_exte.Preflight.Handler.{
  update, Cluster, Request, Decoded, decoded, Summary, allowed_with, summarized, summarize, judge,
  handle, check_decoded, check_operation, check_update,
}
use cluster_api_runtime_exte.Preflight.Handler.Results.{summarize_lem, judge_lem}
use cluster_api_runtime_exte.Preflight.Handler.Guards.{IsChecked, handle_checked}

-- A check that is not skipped lets the request through.
abbrev pub passes : Evaluator → Check → Bool
passes e c = skips e c.name || (run_check c).allowed

-- A check that is not skipped meets an internal error.
abbrev pub breaks : Evaluator → Check → Bool
breaks e c = not (skips e c.name) && (run_check c).internal_error

allowed-check_result : (e : Evaluator) (c : Check) → (check_result e c).allowed ≡ passes e c
unfolding check_result skipped_result
allowed-check_result e c = ground arith

internal_error-check_result :
    (e : Evaluator) (c : Check) → (check_result e c).internal_error ≡ breaks e c
unfolding check_result skipped_result
internal_error-check_result e c = ground arith

all_ext {ℓ} :
    {A : Type ℓ} (p q : A → Bool) (xs : List A) → ((x : A) → p x ≡ q x) → all p xs ≡ all q xs
all_ext p q [] h = refl
all_ext p q (x ∷ xs) h = rw (h x, all_ext p q xs h)

any_ext {ℓ} :
    {A : Type ℓ} (p q : A → Bool) (xs : List A) → ((x : A) → p x ≡ q x) → any p xs ≡ any q xs
any_ext p q [] h = refl
any_ext p q (x ∷ xs) h = rw (h x, any_ext p q xs h)

module _ {C : Type 0} (e : Evaluator) (cluster : C) (old : Option C)
    (checkers : List (Checker C)) where
  allowed-run :
      all (λ r. r.allowed) (concat (run e cluster old checkers))
      ≡ all (λ k. all (passes e) (k.init cluster old)) checkers
  unfolding run checker_results
  allowed-run =
      all-concat (λ (r : NamedResult). r.allowed) (run e cluster old checkers)
      ∙ all-map (all (λ (r : NamedResult). r.allowed)) (checker_results e cluster old) checkers
      ∙ all_ext _ _ checkers (λ k.
        all-map (λ (r : NamedResult). r.allowed) (check_result e) (k.init cluster old)
        ∙ all_ext _ _ (k.init cluster old) (allowed-check_result e))

  internal_error-run :
      any (λ r. r.internal_error) (concat (run e cluster old checkers))
      ≡ any (λ k. any (breaks e) (k.init cluster old)) checkers
  unfolding run checker_results
  internal_error-run =
      any-concat (λ (r : NamedResult). r.internal_error) (run e cluster old checkers)
      ∙ any-map (any (λ (r : NamedResult). r.internal_error)) (checker_results e cluster old)
          checkers
      ∙ any_ext _ _ checkers (λ k.
        any-map (λ (r : NamedResult). r.internal_error) (check_result e) (k.init cluster old)
        ∙ any_ext _ _ (k.init cluster old) (internal_error-check_result e))

  -- The answer allows the request exactly if every check of every checker that the annotation does
  -- not skip does, and it reports an internal error exactly if a check that is not skipped does.
  pub summarize-run :
      ((summarize (run e cluster old checkers)).allowed
        ≡ all (λ k. all (passes e) (k.init cluster old)) checkers)
      × ((summarize (run e cluster old checkers)).internal_error
          ≡ any (λ k. any (breaks e) (k.init cluster old)) checkers)
  summarize-run = (
    ap (λ (r : Summary). r.allowed) (summarize_lem (run e cluster old checkers)) ∙ allowed-run,
    ap (λ (r : Summary). r.internal_error) (summarize_lem (run e cluster old checkers))
        ∙ internal_error-run,
  )

-- A check that the evaluator does not skip and whose run panics.
abbrev pub Panics : Evaluator → Check → Type 0
Panics e c = (skips e c.name ≡ false) × ((value : Text) × (c.run ≡ panicked value))

Panics-break : (e : Evaluator) (c : Check) → Panics e c → (passes e c ≡ false) × (breaks e c ≡ true)
unfolding run_check outcome_result
Panics-break e c (s, (v, p)) = rw (s, p) (refl, refl)

module _ {ℓ} {A : Type ℓ} (p : A → Bool) where
  all-false : (xs : List A) → Any (λ x. p x ≡ false) xs → all p xs ≡ false
  all-false [] a = absurd a
  all-false (x ∷ xs) (inl h) = rw h
  all-false (x ∷ xs) (inr a) = ground (arith, all-false xs a)

  any-true : (xs : List A) → Any (λ x. p x ≡ true) xs → any p xs ≡ true
  any-true [] a = absurd a
  any-true (x ∷ xs) (inl h) = rw h
  any-true (x ∷ xs) (inr a) = ground (arith, any-true xs a)

Any-map {ℓ} :
    {A : Type ℓ} (P Q : A → Type 0) (xs : List A) → ((x : A) → P x → Q x) → Any P xs → Any Q xs
Any-map P Q [] f a = a
Any-map P Q (x ∷ xs) f (inl h) = inl (f x h)
Any-map P Q (x ∷ xs) f (inr a) = inr (Any-map P Q xs f a)

module _ {S R : Type 0} (decode decode_raw : R → Decoded (Cluster S)) (same_body : S → S → Bool)
    (topology_is_defined : S → Bool) (checkers : List (Checker (Cluster S))) where
  -- If the checks of a request run and one that is not skipped panics, the request is denied with an
  -- internal error, whatever the other checks say.
  pub panic_denies :
      (req : Request R) (cluster : Cluster S) (old : Option (Cluster S))
      → IsChecked decode decode_raw same_body topology_is_defined req cluster old
      → Any (λ k. Any (Panics (new cluster.annotations)) (k.init cluster old)) checkers
      → (resp : Summary) × (handle decode decode_raw same_body topology_is_defined checkers req
          ≡ summarized resp (judge resp))
        × (resp.allowed ≡ false)
        × ((judge resp).code ≡ 500)
  panic_denies req cluster old c broken =
      let e = new cluster.annotations in
      let resp = summarize (run e cluster old checkers) in
      let sums = summarize-run e cluster old checkers in
      let denied =
        all-false (λ k. all (passes e) (k.init cluster old)) checkers
          (Any-map _ _ checkers
            (λ k a.
              all-false (passes e) (k.init cluster old)
                (Any-map _ _ (k.init cluster old) (λ x p. (Panics-break e x p).0) a))
            broken) in
      let crashed =
        any-true (λ k. any (breaks e) (k.init cluster old)) checkers
          (Any-map _ _ checkers
            (λ k a.
              any-true (breaks e) (k.init cluster old)
                (Any-map _ _ (k.init cluster old) (λ x p. (Panics-break e x p).1) a))
            broken) in
      (
        resp,
        handle_checked decode decode_raw same_body topology_is_defined checkers req cluster old c,
        sums.0 ∙ denied,
        (judge_lem resp).0.1 (sums.1 ∙ crashed),
      )

  -- A change of the spec that comes with the pause is never checked: the update that pauses the
  -- cluster is let through without warnings, whatever it changes, and so is the update that lifts
  -- the pause and leaves the rest of the spec as it is.
  pub paused_change_unchecked :
      (first second : Request R) (edited resumed : Cluster S)
      → first.operation ≡ update
      → second.operation ≡ update
      → decode first.object ≡ decoded edited
      → edited.spec.paused ≡ some true
      → decode second.object ≡ decoded resumed
      → decode_raw second.old_object ≡ decoded edited
      → same_body edited.spec.body resumed.spec.body ≡ true
      → (handle decode decode_raw same_body topology_is_defined checkers first ≡ allowed_with [])
        × (handle decode decode_raw same_body topology_is_defined checkers second ≡ allowed_with [])
  unfolding handle check_decoded check_operation check_update
  paused_change_unchecked first second edited resumed u1 u2 d1 p d2 d3 s = ground arith
