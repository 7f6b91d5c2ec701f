-- ===== src/StorageCheck/Allowed.antt =====
-- Which storage classes the checks let through.
use cluster_api_runtime_exte.Prelude.{
  ◌≡◌, refl, true, List, [], ◌∷◌, Option, none, some, Option-cases, Text, lookup, All, inl, inr,
}
use cluster_api_runtime_exte.Preflight.{CheckResult, Outcome, returned, panicked}
use cluster_api_runtime_exte.Prism.{Identifier, Client, Reply, Answer, ok, err, get_clusters}
use cluster_api_runtime_exte.DomainCheck.Allowed.{allowed}
use cluster_api_runtime_exte.StorageCheck.{
  StorageRefusal, StorageClassConfig, storage_container_key, get_storage_containers, reject,
  reject_internal, found_containers, matched_clusters, named_container, check_config, check_configs,
}

module _ (list_containers : Text → Reply (List Text)) (client : Client) where
  -- One cluster is found for the identifier, and one container with the name on it.
  pub record HasContainer (id : Option Identifier) (name : Text) : Type 0 where
    pub identifier : Identifier
    pub cluster : Text
    pub container : Text
    pub is_set : id ≡ some identifier
    pub is_found : get_clusters client identifier ≡ ok (some cluster ∷ [])
    pub is_there : get_storage_containers list_containers cluster name ≡ ok (container ∷ [])

  -- A storage class that names a container names one that is there.
  abbrev pub GoodClass : Option Identifier → StorageClassConfig → Type 0
  GoodClass id none = Unit {0}
  GoodClass id (some parameters) =
      (name : Text) → lookup storage_container_key parameters ≡ some name → HasContainer id name

module _ (say : StorageRefusal → Text) (list_containers : Text → Reply (List Text))
    (client : Client) where
  containers-allowed :
      (field name : Text) (id : Identifier) (r : CheckResult) (a : Answer (List Text))
      → (found_containers say field name id r a).allowed ≡ true
      → (r.allowed ≡ true) × ((c : Text) × (a ≡ ok (c ∷ [])))
  unfolding found_containers reject reject_internal
  containers-allowed field name id r (err e) h = absurd (cc h)
  containers-allowed field name id r (ok []) h = absurd (cc h)
  containers-allowed field name id r (ok (c ∷ [])) h = (h, (c, refl))
  containers-allowed field name id r (ok (c ∷ d ∷ cs)) h = absurd (cc h)

  clusters-HasContainer :
      (field name : Text) (id : Identifier) (r : CheckResult) (a : Answer (List (Option Text)))
      → get_clusters client id ≡ a
      → allowed (matched_clusters say list_containers client field name id r a) ≡ true
      → (r.allowed ≡ true) × HasContainer list_containers client (some id) name
  unfolding matched_clusters reject reject_internal
  clusters-HasContainer field name id r (err e) p h = absurd (cc h)
  clusters-HasContainer field name id r (ok []) p h = absurd (cc h)
  clusters-HasContainer field name id r (ok (none ∷ [])) p h = absurd (cc h)
  clusters-HasContainer field name id r (ok (a ∷ b ∷ cs)) p h = absurd (cc h)
  clusters-HasContainer field name id r (ok (some u ∷ [])) p h =
      let (before, c) =
        containers-allowed field name id r (get_storage_containers list_containers u name) h in
      (
        before,
        record {
          identifier = id;
          cluster = u;
          container = c.0;
          is_set = refl;
          is_found = p;
          is_there = c.1;
        },
      )

  named-HasContainer :
      (field name : Text) (id : Option Identifier) (r : CheckResult)
      → allowed (named_container say list_containers client field id r (some name)) ≡ true
      → (r.allowed ≡ true) × HasContainer list_containers client id name
  unfolding named_container
  named-HasContainer field name none r h = absurd (cc h)
  named-HasContainer field name (some id) r h =
      clusters-HasContainer field name id r (get_clusters client id) refl h

  HasContainer-named :
      (field name : Text) (id : Option Identifier) (r : CheckResult)
      → HasContainer list_containers client id name
      → named_container say list_containers client field id r (some name) ≡ returned r
  unfolding named_container matched_clusters found_containers
  HasContainer-named field name id r c =
      rw (c.is_set, named_container, c.is_found, matched_clusters, c.is_there, found_containers)
        refl

  config-GoodClass :
      (field : Text) (id : Option Identifier) (r : CheckResult) (c : StorageClassConfig)
      → allowed (check_config say list_containers client field id r c) ≡ true
      → (r.allowed ≡ true) × GoodClass list_containers client id c
  unfolding check_config named_container
  config-GoodClass field id r none h = (h, tt)
  config-GoodClass field id r (some ps) h = elim (Option-cases (lookup storage_container_key ps)) [
    | inl e ↦ (rw (e, check_config) at h, λ name p. absurd (cc (e, p)))
    | inr (n, e) ↦
        let (before, c) = named-HasContainer field n id r (rw (e, check_config) at h) in
        (before, λ name p. let same : n ≡ name = cc (e, p) in rw same at c)
  ]

  GoodClass-config :
      (field : Text) (id : Option Identifier) (r : CheckResult) (c : StorageClassConfig)
      → GoodClass list_containers client id c
      → check_config say list_containers client field id r c ≡ returned r
  unfolding check_config named_container
  GoodClass-config field id r none g = refl
  GoodClass-config field id r (some ps) g = elim (Option-cases (lookup storage_container_key ps)) [
    | inl e ↦ rw (e, check_config) refl
    | inr (n, e) ↦ rw (e, check_config) (HasContainer-named field n id r (g n e))
  ]

  pub configs-GoodClass :
      (field : Text) (id : Option Identifier) (cs : List StorageClassConfig) (o : Outcome)
      → allowed (check_configs say list_containers client field id cs o) ≡ true
      → (allowed o ≡ true) × All (GoodClass list_containers client id) cs
  unfolding check_configs
  configs-GoodClass field id [] o h = (h, tt)
  configs-GoodClass field id (c ∷ cs) (panicked m) h = absurd (cc h)
  configs-GoodClass field id (c ∷ cs) (returned r) h =
      let (after, rest) =
        configs-GoodClass field id cs (check_config say list_containers client field id r c) h in
      let (before, here) = config-GoodClass field id r c after in (before, (here, rest))

  pub GoodClass-configs :
      (field : Text) (id : Option Identifier) (cs : List StorageClassConfig) (r : CheckResult)
      → All (GoodClass list_containers client id) cs
      → check_configs say list_containers client field id cs (returned r) ≡ returned r
  unfolding check_configs
  GoodClass-configs field id [] r g = refl
  GoodClass-configs field id (c ∷ cs) r g =
      let here = GoodClass-config field id r c g.0 in
      rw (check_configs, here) (GoodClass-configs field id cs r g.1)
