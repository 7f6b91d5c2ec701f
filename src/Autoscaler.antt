-- ===== src/Autoscaler.antt =====
-- pkg/controllers/enforceclusterautoscalerlimits/controller.go: the replicas of a MachineDeployment
-- are kept within the sizes that its annotations give to the cluster autoscaler.
pub mod Laws
pub mod Tests
use cluster_api_runtime_exte.Prelude.{
  ℤ, leb_int, Bool, true, false, not, ◌&&◌, List, Option, none, some, Text, codes, lookup, ◌++◌,
  if◌then◌else◌,
}

-- The two fields of a MachineDeployment that the controller reads; `replicas` is a nil pointer or an
-- `int32`.
pub record MachineDeployment : Type 0 where
  pub replicas : Option ℤ
  pub annotations : List (Text × Text)

-- What the API server answers to `Get`.
pub data Reply : Type 0 where
  found : MachineDeployment → Reply
  not_found : Reply
  get_failed : Text → Reply

-- The result of `Reconcile`: its error if it has one, and the object that it has handed to `Update`.
pub record Outcome : Type 0 where
  pub error : Option Text
  pub updated : Option MachineDeployment

-- The integer that `strconv.Atoi` reads, or the text of its error.
pub data Number : Type 0 where
  number : ℤ → Number
  not_a_number : Text → Number

-- A size of an annotation: the code tells a missing one from one that is no integer.
pub data Size : Type 0 where
  size : ℤ → Size
  missing : Size
  invalid : Text → Size

abbrev pub nothing : Outcome
nothing = record { error = none; updated = none }

abbrev pub fail : Text → Outcome
fail e = record { error = some e; updated = none }

abbrev pub min_size_annotation : Text
min_size_annotation = codes "cluster.x-k8s.io/cluster-api-autoscaler-node-group-min-size"

abbrev pub max_size_annotation : Text
max_size_annotation = codes "cluster.x-k8s.io/cluster-api-autoscaler-node-group-max-size"

module _ (atoi : Text → Number) (update_error : MachineDeployment → Option Text) where
  number_size : Text → Number → Size
  number_size prefix (number i) = size i
  number_size prefix (not_a_number e) = invalid (prefix ++ (codes ": " ++ e))

  annotation_size : Text → Option Text → Size
  unfolding number_size
  annotation_size prefix none = missing
  annotation_size prefix (some v) = number_size prefix (atoi v)

  pub min_replicas_from_annotations : List (Text × Text) → Size
  unfolding annotation_size
  min_replicas_from_annotations annotations =
      annotation_size (codes "invalid min annotation") (lookup min_size_annotation annotations)

  pub max_replicas_from_annotations : List (Text × Text) → Size
  unfolding annotation_size
  max_replicas_from_annotations annotations =
      annotation_size (codes "invalid max annotation") (lookup max_size_annotation annotations)

  updated_with : MachineDeployment → Option Text → Outcome
  updated_with md none = record { error = none; updated = some md }
  updated_with md (some e) = record {
    error = some (codes "failed to update MachineDeployment: " ++ e);
    updated = some md;
  }

  -- `Update` of the object without its replicas.
  reset : MachineDeployment → Outcome
  unfolding updated_with
  reset md = let md' = record md { replicas = none } in updated_with md' (update_error md')

  enforce : MachineDeployment → ℤ → ℤ → ℤ → Outcome
  unfolding reset
  enforce md replicas lo hi =
      if not (leb_int lo hi)
      then nothing
      else if leb_int lo replicas && leb_int replicas hi
      then nothing
      else reset md

  -- From the reading of the maximum on.
  with_min : MachineDeployment → ℤ → ℤ → Size → Outcome
  unfolding enforce
  with_min md replicas lo (size hi) = enforce md replicas lo hi
  with_min md replicas lo missing = nothing
  with_min md replicas lo (invalid e) = fail (codes "failed to get max size: " ++ e)

  with_replicas : MachineDeployment → ℤ → Size → Outcome
  unfolding with_min max_replicas_from_annotations
  with_replicas md replicas (size lo) =
      with_min md replicas lo (max_replicas_from_annotations md.annotations)
  with_replicas md replicas missing = nothing
  with_replicas md replicas (invalid e) = fail (codes "failed to get min size: " ++ e)

  with_found : MachineDeployment → Option ℤ → Outcome
  unfolding with_replicas min_replicas_from_annotations
  with_found md none = nothing
  with_found md (some r) = with_replicas md r (min_replicas_from_annotations md.annotations)

  pub reconcile : Reply → Outcome
  unfolding with_found
  reconcile not_found = nothing
  reconcile (get_failed e) = fail (codes "failed to get MachineDeployment: " ++ e)
  reconcile (found md) = with_found md md.replicas
