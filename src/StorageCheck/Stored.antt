-- ===== src/StorageCheck/Stored.antt =====
-- What a check of the storage containers lets through.
use cluster_api_runtime_exte.Prelude.{
  ◌≡◌, ◌↔◌, refl, sym, subst, true, false, List, Option, none, some, Text, is_empty, All,
  Bool-cases, inl, inr,
}
use cluster_api_runtime_exte.Preflight.{Outcome, returned}
use cluster_api_runtime_exte.Prism.{Identifier, Client, Reply}
use cluster_api_runtime_exte.Metro.Domains.{
  Kube, Got, found, not_found, get_failed, NutanixFailureDomain,
}
use cluster_api_runtime_exte.DomainCheck.Allowed.{allowed}
use cluster_api_runtime_exte.StorageCheck.{
  StorageRefusal, StorageClassConfig, StorageContainerCheck, none_refused, reject, reject_internal,
  domain_element, run_configs, run_unless, run_storage_container,
}
use cluster_api_runtime_exte.StorageCheck.Allowed.{GoodClass, configs-GoodClass, GoodClass-configs}

module _ (list_containers : Text → Reply (List Text)) (client : Client) (kube : Kube) where
  -- The identifier of the cluster that a check looks at: that of the failure domain, which is found, or
  -- that of the machine details, which may be unset.
  pub data ElementOf (c : StorageContainerCheck) : Option Identifier → Type 0 where
    of_machine : is_empty c.failure_domain_name ≡ true → ElementOf c c.machine_cluster
    of_domain :
        (d : NutanixFailureDomain)
        → is_empty c.failure_domain_name ≡ false
        → kube.get_domain c.failure_domain_name ≡ found d
        → ElementOf c (some d.prism_element)

  pub record Stored (c : StorageContainerCheck) : Type 0 where
    pub configs : List StorageClassConfig
    pub element : Option Identifier
    pub is_configured : c.class_configs ≡ some configs
    pub is_element : ElementOf c element
    pub all_good : All (GoodClass list_containers client element) configs

module _ (say : StorageRefusal → Text) (list_containers : Text → Reply (List Text))
    (client : Client) (kube : Kube) where
  domain-Stored :
      (c : StorageContainerCheck) (cs : List StorageClassConfig) (g : Got NutanixFailureDomain)
      → c.class_configs ≡ some cs
      → is_empty c.failure_domain_name ≡ false
      → kube.get_domain c.failure_domain_name ≡ g
      → allowed (domain_element say list_containers client c.field c.failure_domain_name cs g)
        ≡ true
      → Stored list_containers client kube c
  unfolding domain_element reject reject_internal
  domain-Stored c cs (not_found e) p n q h = absurd (cc h)
  domain-Stored c cs (get_failed e) p n q h = absurd (cc h)
  domain-Stored c cs (found d) p n q h = record {
    configs = cs;
    element = some d.prism_element;
    is_configured = p;
    is_element = of_domain d n q;
    all_good =
        (configs-GoodClass say list_containers client c.field (some d.prism_element) cs
          (returned none_refused) h).1;
  }

  allowed-Stored :
      (c : StorageContainerCheck) (o : Option (List StorageClassConfig))
      → c.class_configs ≡ o
      → allowed (run_configs say list_containers client kube c o) ≡ true
      → Stored list_containers client kube c
  unfolding run_configs reject
  allowed-Stored c none p h = absurd (cc h)
  allowed-Stored c (some cs) p h = elim (Bool-cases (is_empty c.failure_domain_name)) [
    | inl e ↦ record {
      configs = cs;
      element = c.machine_cluster;
      is_configured = p;
      is_element = of_machine e;
      all_good =
          (configs-GoodClass say list_containers client c.field c.machine_cluster cs
            (returned none_refused) (rw (e, run_configs) at h)).1;
    }
    | inr e ↦
        domain-Stored c cs (kube.get_domain c.failure_domain_name) p e refl
          (rw (e, run_configs) at h)
  ]

  good-allowed :
      (c : StorageContainerCheck) (cs : List StorageClassConfig) (id : Option Identifier)
      → ElementOf list_containers client kube c id
      → All (GoodClass list_containers client id) cs
      → allowed (run_configs say list_containers client kube c (some cs)) ≡ true
  unfolding run_configs domain_element
  good-allowed c cs id (of_machine e) g =
      rw
        (
          e,
          run_configs,
          GoodClass-configs say list_containers client c.field c.machine_cluster cs none_refused g,
        )
        refl
  good-allowed c cs id (of_domain d n q) g =
      rw
        (
          n,
          run_configs,
          q,
          domain_element,
          GoodClass-configs say list_containers client c.field (some d.prism_element) cs
              none_refused g,
        )
        refl

  unless_lem :
      (c : StorageContainerCheck) (e : Option Text)
      → e ≡ none
      → run_unless say list_containers client kube c e
        ≡ run_configs say list_containers client kube c c.class_configs
  unfolding run_unless
  unless_lem c none p = refl
  unless_lem c (some e) p = absurd (cc p)

  -- A check of the storage containers, one that is not for a failure to resolve a name, allows exactly
  -- when the map of storage classes is not nil (it may be empty), the failure domain of the check, if it
  -- has one, is found, and each storage class that names a container has these: the identifier of the
  -- Prism Element, of the failure domain or else of the machine details, is set and finds one cluster,
  -- and on that cluster is one container with the name. Without such a class the identifier is not
  -- looked at.
  pub run_storage_container-Stored :
      (c : StorageContainerCheck)
      → c.error_message ≡ none
      → (allowed (run_storage_container say list_containers client kube c) ≡ true)
        ↔ Stored list_containers client kube c
  unfolding run_storage_container
  run_storage_container-Stored c e =
      let same = unless_lem c c.error_message e in
      (
        λ h.
            allowed-Stored c c.class_configs refl
              (subst (λ (o : Outcome). allowed o ≡ true) same h),
        λ s.
            let good = good-allowed c s.configs s.element s.is_element s.all_good in
            let there =
              subst
                (λ (o : Option (List StorageClassConfig)).
                  allowed (run_configs say list_containers client kube c o) ≡ true)
                (sym s.is_configured) good in
            subst (λ (o : Outcome). allowed o ≡ true) (sym same) there,
      )
