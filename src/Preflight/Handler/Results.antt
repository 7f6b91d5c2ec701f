-- ===== src/Preflight/Handler/Results.antt =====
-- The summary of the results, against its description by the whole list of results.
use cluster_api_runtime_exte.Prelude.{
  ◌↔◌, ◌≡◌, refl, sym, ◌∙◌, true, false, ◌&&◌, ◌||◌, List, [], ◌∷◌, ◌++◌, map, append-nil,
  append_assoc, arith, any, all, concat, concat_map, Text, codes, join,
}
use cluster_api_runtime_exte.Preflight.{Cause, NamedResult}
use cluster_api_runtime_exte.Preflight.Handler.{
  StatusCause, Summary, add_causes, add_result, add_results, add_all, summarize, cause_summary,
  write_causes, causes_summary, judge,
}

-- The causes of a result, each under the name of its check.
abbrev pub status_causes : NamedResult → List StatusCause
status_causes r = map (λ c. record { type = r.name; message = c.message; field = c.field }) r.causes

-- A summary goes on from `acc` over the results `rs`.
abbrev extend : Summary → List NamedResult → Summary
extend acc rs = record {
  allowed = acc.allowed && all (λ r. r.allowed) rs;
  internal_error = acc.internal_error || any (λ r. r.internal_error) rs;
  causes = acc.causes ++ concat_map status_causes rs;
  warnings = acc.warnings ++ concat_map (λ r. r.warnings) rs;
}

add_causes_lem :
    (r : NamedResult) (acc : List StatusCause) (cs : List Cause)
    → add_causes r.name acc cs
      ≡ acc ++ map (λ c. record { type = r.name; message = c.message; field = c.field }) cs
unfolding add_causes
add_causes_lem r acc [] = sym (append-nil acc)
add_causes_lem r acc (c ∷ cs) =
    let entry : StatusCause = record { type = r.name; message = c.message; field = c.field } in
    add_causes_lem r (acc ++ (entry ∷ [])) cs ∙ append_assoc acc (entry ∷ []) _

extend-add_result :
    (acc : Summary) (r : NamedResult) (rs : List NamedResult)
    → extend (add_result acc r) rs ≡ extend acc (r ∷ rs)
unfolding add_result
extend-add_result acc r rs = ground (
  arith,
  add_causes_lem r acc.causes r.causes,
  append_assoc acc.causes (status_causes r) (concat_map status_causes rs),
  append_assoc acc.warnings r.warnings (concat_map (λ (x : NamedResult). x.warnings) rs),
)

add_results_lem : (acc : Summary) (rs : List NamedResult) → add_results acc rs ≡ extend acc rs
unfolding add_results
add_results_lem acc [] = ground (arith, append-nil acc.causes, append-nil acc.warnings)
add_results_lem acc (r ∷ rs) = add_results_lem (add_result acc r) rs ∙ extend-add_result acc r rs

add_results-append :
    (acc : Summary) (rs ss : List NamedResult)
    → add_results acc (rs ++ ss) ≡ add_results (add_results acc rs) ss
unfolding add_results
add_results-append acc [] ss = refl
add_results-append acc (r ∷ rs) ss = add_results-append (add_result acc r) rs ss

add_all_lem :
    (acc : Summary) (rss : List (List NamedResult)) → add_all acc rss ≡ add_results acc (concat rss)
unfolding add_all add_results
add_all_lem acc [] = refl
add_all_lem acc (rs ∷ rss) =
    add_all_lem (add_results acc rs) rss ∙ sym (add_results-append acc rs (concat rss))

-- The summary of the results of all checkers: it allows the request exactly if every result does,
-- reports an internal error exactly if some result does, and holds the causes, each under the name
-- of its check, and the warnings of all results in the order of the checkers and their checks.
pub summarize_lem :
    (rss : List (List NamedResult))
    → summarize rss ≡ record {
      allowed = all (λ r. r.allowed) (concat rss);
      internal_error = any (λ r. r.internal_error) (concat rss);
      causes = concat_map status_causes (concat rss);
      warnings = concat_map (λ r. r.warnings) (concat rss);
    }
unfolding summarize
summarize_lem rss = add_all_lem _ rss ∙ add_results_lem _ (concat rss)

write_causes_lem :
    (builder text : Text) (cs : List StatusCause)
    → write_causes false (builder ++ text) cs
      ≡ builder ++ join (codes "; ") (text ∷ map cause_summary cs)
unfolding write_causes join
write_causes_lem builder text [] = refl
write_causes_lem builder text (c ∷ cs) =
    let sep = codes "; " in
    let rest = join sep (cause_summary c ∷ map cause_summary cs) in
    write_causes_lem ((builder ++ text) ++ sep) (cause_summary c) cs
    ∙ append_assoc (builder ++ text) sep rest
    ∙ append_assoc builder text (sep ++ rest)

-- The message lists the causes, separated by semicolons.
pub causes_summary_lem :
    (causes : List StatusCause)
    → causes_summary causes ≡ join (codes "; ") (map cause_summary causes)
unfolding causes_summary join write_causes
causes_summary_lem [] = refl
causes_summary_lem (c ∷ cs) = write_causes_lem [] (cause_summary c) cs

-- The code and the reason of a summary: an internal error takes precedence over a failed check, and
-- without either nothing is set.
pub judge_lem :
    (resp : Summary)
    → (((judge resp).code ≡ 500) ↔ (resp.internal_error ≡ true))
      × (((judge resp).code ≡ 422) ↔ ((resp.internal_error ≡ false) × (resp.allowed ≡ false)))
      × (((judge resp).code ≡ 0) ↔ ((resp.internal_error ≡ false) × (resp.allowed ≡ true)))
unfolding judge
judge_lem resp = ground arith
