-- ===== src/Autoscaler/Tests.antt =====
-- A MachineDeployment of seven replicas that the autoscaler may give one to five.
use cluster_api_runtime_exte.Prelude.{
  ◌≡◌, pos, ◌&&◌, ◌||◌, [], ◌∷◌, Option, none, some, Text, codes, text_eq, if◌then◌else◌,
}
use cluster_api_runtime_exte.Autoscaler.{
  MachineDeployment, found, Number, number, not_a_number, min_size_annotation, max_size_annotation,
  min_replicas_from_annotations, max_replicas_from_annotations, reconcile,
}
use cluster_api_runtime_exte.Autoscaler.Laws.{
  is_outside, has_bad_size, is_error, without_replicas, reconcile_lem,
}

atoi : Text → Number
atoi t =
    if text_eq t (codes "1")
    then number (pos 1)
    else if text_eq t (codes "5")
    then number (pos 5)
    else not_a_number (codes "invalid syntax")

abbrev update_error : MachineDeployment → Option Text
update_error md = none

abbrev workers : MachineDeployment
workers = record {
  replicas = some (pos 7);
  annotations = (min_size_annotation, codes "1") ∷ (max_size_annotation, codes "5") ∷ [];
}

reconcile_lem_example :
    let lo = min_replicas_from_annotations atoi update_error workers.annotations in
    let hi = max_replicas_from_annotations atoi update_error workers.annotations in
    let result = reconcile atoi update_error (found workers) in
    (result.updated
      ≡ (if is_outside workers.replicas lo hi then some (without_replicas workers) else none))
    × (is_error result.error ≡ (
        has_bad_size workers.replicas lo hi
        || (is_outside workers.replicas lo hi
            && is_error (update_error (without_replicas workers)))))
reconcile_lem_example = reconcile_lem atoi update_error workers
