-- ===== src/Preflight/Handler/Tests.antt =====
-- The handler at a few requests. The decoder of the samples takes a decoded cluster as its bytes.
use cluster_api_runtime_exte.Prelude.{
  ℕ, ◌≡◌, refl, inl, inr, Bool, true, false, ltb, ◌==◌, List, [], ◌∷◌, Option, none, some, codes,
  any, all, lookup,
}
use cluster_api_runtime_exte.Preflight.{Check, CheckResult, returned, panicked}
use cluster_api_runtime_exte.Preflight.Skip.{new, skips, skips_all}
use cluster_api_runtime_exte.Preflight.Run.{Checker}
use cluster_api_runtime_exte.Preflight.Run.Spec.{run}
use cluster_api_runtime_exte.Preflight.Handler.{
  create, update, Cluster, Request, Decoded, decoded, Summary, StatusCause, summarized, summarize,
  judge, handle, causes_summary,
}
use cluster_api_runtime_exte.Preflight.Handler.Guards.{
  IsChecked, not_update, handle_checked, summarized-IsChecked,
}
use cluster_api_runtime_exte.Preflight.Handler.Admission.{
  passes, breaks, summarize-run, panic_denies,
}

abbrev Bytes : Type 0
Bytes = Decoded (Cluster ℕ)

abbrev identity : Bytes → Bytes
identity b = b

abbrev positive : ℕ → Bool
positive body = ltb 0 body

abbrev failing : Check
failing = record {
  name = codes "NutanixVMImage";
  run = returned (record {
    allowed = false;
    internal_error = false;
    causes = record { message = codes "no image"; field = codes "$.spec" } ∷ [];
    warnings = [];
  });
}

abbrev skipped : CheckResult
skipped = record { allowed = true; internal_error = false; causes = []; warnings = codes "w" ∷ [] }

abbrev panicking : Check
panicking = record { name = codes "Registry"; run = panicked (codes "nil map") }

abbrev checkers : List (Checker (Cluster ℕ))
checkers = record { init = λ c old. failing ∷ [] } ∷ record { init = λ c old. panicking ∷ [] } ∷ []

abbrev sample : Cluster ℕ
sample = record {
  annotations = [];
  deletion_timestamp = none;
  spec = record { paused = none; body = 5 };
}

abbrev paused_sample : Cluster ℕ
paused_sample = record sample { spec = record { paused = some true; body = 5 } }

abbrev creation : Request Bytes
creation = record { operation = create; object = decoded sample; old_object = decoded sample }

abbrev pausing : Request Bytes
pausing = record {
  operation = update;
  object = decoded paused_sample;
  old_object = decoded (record sample { spec = record { paused = none; body = 4 } });
}

abbrev resuming : Request Bytes
resuming = record {
  operation = update;
  object = decoded sample;
  old_object = decoded paused_sample;
}

creation-IsChecked : IsChecked identity identity ◌==◌ positive creation sample none
unfolding skips_all new lookup
creation-IsChecked = record {
  not_deleting = λ e. cc;
  decodes = refl;
  alive = refl;
  has_topology = refl;
  unpaused = refl;
  before = not_update (λ e. cc) refl;
  not_skipped = refl;
}

abbrev creation_summary : Summary
creation_summary = summarize (run (new []) sample none checkers)

summarized-IsChecked_example :
    (cluster : Cluster ℕ) × (old : Option (Cluster ℕ)) × IsChecked identity identity ◌==◌ positive
      creation cluster old
    × (creation_summary ≡ summarize (run (new cluster.annotations) cluster old checkers))
    × (judge creation_summary
        ≡ judge (summarize (run (new cluster.annotations) cluster old checkers)))
summarized-IsChecked_example =
    summarized-IsChecked identity identity ◌==◌ positive checkers creation creation_summary
      (judge creation_summary)
      (handle_checked identity identity ◌==◌ positive checkers creation sample none
        creation-IsChecked)

abbrev two_causes : List StatusCause
two_causes =
    record { type = codes "a"; message = codes "m"; field = [] }
    ∷ record { type = codes "b"; message = codes "n"; field = codes "f" }
    ∷ []

causes_text : causes_summary two_causes ≡ codes "a: m; b: n (field: f)"
unfolding causes_summary codes
causes_text = refl

abbrev clean : Summary
clean = record { allowed = true; internal_error = false; causes = []; warnings = [] }

summarize-run_example :
    (creation_summary.allowed ≡ all (λ k. all (passes (new [])) (k.init sample none)) checkers)
    × (creation_summary.internal_error
        ≡ any (λ k. any (breaks (new [])) (k.init sample none)) checkers)
summarize-run_example = summarize-run (new []) sample none checkers

registry_not_skipped : skips (new []) (codes "Registry") ≡ false
unfolding skips new lookup
registry_not_skipped = refl

panic_denies_example :
    (resp : Summary) × (handle identity identity ◌==◌ positive checkers creation
      ≡ summarized resp (judge resp))
    × (resp.allowed ≡ false)
    × ((judge resp).code ≡ 500)
panic_denies_example =
    panic_denies identity identity ◌==◌ positive checkers creation sample none creation-IsChecked
      (inr (inl (inl (registry_not_skipped, (codes "nil map", refl)))))
