-- ===== src/NamespaceSync/Watch.antt =====
-- The event filter of `SetupWithManager` and clusterClassToNamespaces of controller.go. The label
-- selector is a parameter: whether it matches the labels of a namespace.
pub mod History
use cluster_api_runtime_exte.Prelude.{
  Bool, true, false, not, ◌&&◌, List, [], ◌∷◌, Text, if◌then◌else◌,
}

-- The events of one namespace, with the labels that it has, or had and has.
pub data Event (L : Type 0) : Type 0 where
  created : L → Event L
  updated : L → L → Event L
  deleted generic : Event L

pub data ListedNamespaces (L : Type 0) : Type 0 where
  listed : List (Text × L) → ListedNamespaces L
  list_failed : ListedNamespaces L

module _ {L : Type 0} (matches : L → Bool) where
  pub reconciles : Event L → Bool
  reconciles (created l) = matches l
  reconciles (updated old new) = not (matches old) && matches new
  reconciles deleted = false
  reconciles generic = false

  -- What the list call with the selector answers.
  pub select : List (Text × L) → List Text
  select [] = []
  select (n ∷ ns) = let rest = select ns in if matches n.1 then n.0 ∷ rest else rest

  -- A failed list gives no requests.
  pub cluster_class_to_namespaces : ListedNamespaces L → List Text
  unfolding select
  cluster_class_to_namespaces (listed ns) = select ns
  cluster_class_to_namespaces list_failed = []
