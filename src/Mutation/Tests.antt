-- ===== src/Mutation/Tests.antt =====
-- A worker's template.
use cluster_api_runtime_exte.Prelude.{
  ◌≡◌, ◌↔◌, refl, true, false, List, [], ◌∷◌, Text, codes, text_eq, Any,
}
use cluster_api_runtime_exte.Prism.{ok}
use cluster_api_runtime_exte.Mutation.{
  HolderReference, matches_control_plane, matches_machine_deployment_class, matches_name,
  has_suffix, has_prefix, after_star, before_star,
}
use cluster_api_runtime_exte.Mutation.Names.{
  NameMatches, OfWorkers, matches_machine_deployment_class-NameMatches,
}
use cluster_api_runtime_exte.Mutation.Holders.{matches_machine_deployment_class-control_plane}

abbrev quote_mark : Text → Text
quote_mark s = 34 ∷ s

abbrev drop_mark : Text → Text
drop_mark [] = []
drop_mark (c ∷ s) = s

abbrev holder : HolderReference
holder = record {
  kind = codes "MachineDeployment";
  field_path = codes "spec.template.spec.infrastructureRef";
}

abbrev class_names : List Text
class_names = codes "*worker" ∷ []

abbrev worker_class : Text
worker_class = codes "default-worker"

matches_machine_deployment_class-NameMatches_example :
    (matches_machine_deployment_class quote_mark drop_mark holder class_names
        (ok (quote_mark worker_class))
      ≡ true)
    ↔ (OfWorkers holder × Any (NameMatches worker_class) class_names)
matches_machine_deployment_class-NameMatches_example =
    matches_machine_deployment_class-NameMatches quote_mark drop_mark (λ c. refl) holder class_names
      worker_class

worker_matches :
    matches_machine_deployment_class quote_mark drop_mark holder class_names
      (ok (quote_mark worker_class))
    ≡ true
unfolding matches_machine_deployment_class matches_name codes text_eq has_suffix has_prefix
    after_star before_star
worker_matches = refl

matches_machine_deployment_class-control_plane_example : matches_control_plane holder ≡ false
matches_machine_deployment_class-control_plane_example =
    matches_machine_deployment_class-control_plane quote_mark drop_mark holder class_names
      (ok (quote_mark worker_class)) worker_matches
