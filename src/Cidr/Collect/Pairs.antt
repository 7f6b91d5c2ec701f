-- ===== src/Cidr/Collect/Pairs.antt =====
-- Which subnets are collected, with which Prism Element cluster.
use cluster_api_runtime_exte.Prelude.{
  ℕ, ◌+◌, ◌≡◌, ◌↔◌, ◌⊎◌, inl, inr, List, [], ◌∷◌, ◌++◌, Option, none, some, Text, Any,
}
use cluster_api_runtime_exte.Prism.{Identifier}
use cluster_api_runtime_exte.Cidr.Resolve.{Subnet}
use cluster_api_runtime_exte.Cidr.Collect.{
  MachineDetails, Dependencies, control_plane_field, worker_field, collect_from, collect_details,
  collect_workers, collect_nutanix_subnets,
}

-- The configuration lists the identifier and names the cluster.
abbrev pub Uses : Identifier → Option Identifier → Option MachineDetails → Type 0
Uses id cluster none = ⊥
Uses id cluster (some d) = (cluster ≡ d.cluster) × Any (λ i. id ≡ i) d.subnets

-- A collected subnet has the identifier and the cluster.
abbrev pub Collected : Identifier → Option Identifier → List Subnet → Type 0
Collected id cluster = Any (λ s. (id ≡ s.id) × (cluster ≡ s.cluster))

module _ (id : Identifier) (cluster : Option Identifier) where
  left-Collected : (xs ys : List Subnet) → Collected id cluster xs → Collected id cluster (xs ++ ys)
  left-Collected [] ys a = absurd a
  left-Collected (x ∷ xs) ys (inl h) = inl h
  left-Collected (x ∷ xs) ys (inr a) = inr (left-Collected xs ys a)

  right-Collected :
      (xs ys : List Subnet) → Collected id cluster ys → Collected id cluster (xs ++ ys)
  right-Collected [] ys a = a
  right-Collected (x ∷ xs) ys a = inr (right-Collected xs ys a)

  split-Collected :
      (xs ys : List Subnet)
      → Collected id cluster (xs ++ ys)
      → Collected id cluster xs ⊎ Collected id cluster ys
  split-Collected [] ys a = inr a
  split-Collected (x ∷ xs) ys (inl h) = inl (inl h)
  split-Collected (x ∷ xs) ys (inr a) = elim (split-Collected xs ys a) [
    | inl b ↦ inl (inr b)
    | inr b ↦ inr b
  ]

  from-Collected :
      (field : ℕ → Text) (c : Option Identifier) (i : ℕ) (ids : List Identifier)
      → Collected id cluster (collect_from field c i ids)
      → (cluster ≡ c) × Any (λ i. id ≡ i) ids
  unfolding collect_from
  from-Collected field c i [] a = absurd a
  from-Collected field c i (x ∷ ids) (inl h) = (h.1, inl h.0)
  from-Collected field c i (x ∷ ids) (inr a) =
      let rest = from-Collected field c (i + 1) ids a in (rest.0, inr rest.1)

  to-Collected :
      (field : ℕ → Text) (c : Option Identifier) (i : ℕ) (ids : List Identifier)
      → cluster ≡ c
      → Any (λ i. id ≡ i) ids
      → Collected id cluster (collect_from field c i ids)
  unfolding collect_from
  to-Collected field c i [] e a = absurd a
  to-Collected field c i (x ∷ ids) e (inl h) = inl (h, e)
  to-Collected field c i (x ∷ ids) e (inr a) = inr (to-Collected field c (i + 1) ids e a)

  details-Collected :
      (field : ℕ → Text) (d : Option MachineDetails)
      → Collected id cluster (collect_details field d) ↔ Uses id cluster d
  unfolding collect_details
  details-Collected field none = (λ a. a, λ a. a)
  details-Collected field (some d) = (
    from-Collected field d.cluster 0 d.subnets,
    λ u. to-Collected field d.cluster 0 d.subnets u.0 u.1,
  )

  workers_from :
      (ws : List (Text × Option MachineDetails))
      → Collected id cluster (collect_workers ws)
      → Any (λ w. Uses id cluster w.1) ws
  unfolding collect_workers
  workers_from [] a = a
  workers_from (w ∷ ws) a =
      elim (split-Collected (collect_details (worker_field w.0) w.1) (collect_workers ws) a) [
        | inl b ↦ inl ((details-Collected (worker_field w.0) w.1).0 b)
        | inr b ↦ inr (workers_from ws b)
      ]

  workers_to :
      (ws : List (Text × Option MachineDetails))
      → Any (λ w. Uses id cluster w.1) ws
      → Collected id cluster (collect_workers ws)
  unfolding collect_workers
  workers_to [] a = a
  workers_to (w ∷ ws) (inl u) =
      left-Collected (collect_details (worker_field w.0) w.1) (collect_workers ws)
        ((details-Collected (worker_field w.0) w.1).1 u)
  workers_to (w ∷ ws) (inr a) =
      right-Collected (collect_details (worker_field w.0) w.1) (collect_workers ws)
        (workers_to ws a)

  -- A subnet is collected with a Prism Element cluster exactly if the control plane or a machine
  -- deployment has it in its machine details, and these name that cluster.
  pub collect_nutanix_subnets-Collected :
      (cd : Dependencies)
      → Collected id cluster (collect_nutanix_subnets (some cd))
        ↔ (Uses id cluster cd.control_plane ⊎ Any (λ w. Uses id cluster w.1) cd.workers)
  unfolding collect_nutanix_subnets
  collect_nutanix_subnets-Collected cd = (from, to)
    where
      head : List Subnet
      head = collect_details control_plane_field cd.control_plane

      from :
          Collected id cluster (head ++ collect_workers cd.workers)
          → Uses id cluster cd.control_plane ⊎ Any (λ w. Uses id cluster w.1) cd.workers
      from a = elim (split-Collected head (collect_workers cd.workers) a) [
        | inl b ↦ inl ((details-Collected control_plane_field cd.control_plane).0 b)
        | inr b ↦ inr (workers_from cd.workers b)
      ]

      to :
          Uses id cluster cd.control_plane ⊎ Any (λ w. Uses id cluster w.1) cd.workers
          → Collected id cluster (head ++ collect_workers cd.workers)
      to (inl u) =
          left-Collected head (collect_workers cd.workers)
            ((details-Collected control_plane_field cd.control_plane).1 u)
      to (inr a) = right-Collected head (collect_workers cd.workers) (workers_to cd.workers a)
