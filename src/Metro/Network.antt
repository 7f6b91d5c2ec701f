-- ===== src/Metro/Network.antt =====
-- metroCheck of metro.go: a NutanixMetro, its failure domains and their subnets. The Go sets and maps
-- are lists in which a key stands once, those that `sortedKeys` lists sorted; the name of a subnet's type, which
-- `GetName` of the client library gives, is the text that the subnet carries.
pub mod Spans
pub mod Sets
pub mod Recorded
pub mod Observed
pub mod Evaluated
pub mod Layers
use cluster_api_runtime_exte.Prelude.{
  ℕ, Bool, true, false, not, ◌&&◌, ◌||◌, List, [], ◌∷◌, ◌++◌, Option, none, some, Text, codes,
  text_eq, is_empty, length, ltb, ◌==◌, all, lookup, insert, decimal, if◌then◌else◌,
}
use cluster_api_runtime_exte.Preflight.{CheckResult}
use cluster_api_runtime_exte.Prism.{
  Identifier, PcSubnet, Client, Answer, ok, err, get_subnets, get_clusters,
}
use cluster_api_runtime_exte.Metro.Report.{
  Complaint, metro_unresolved, metro_unknown, metro_missing, domain_missing, domain_unknown,
  cluster_unknown, wrong_clusters, cluster_without_id, subnet_unknown, wrong_metro_span, vpc_backed,
  several_layers, unsupported_layer, profiles_differ, passed, fail_check, fail_check_internal,
}
use cluster_api_runtime_exte.Metro.Domains.{
  Kube, Got, found, not_found, get_failed, NutanixFailureDomain, insert_name, member,
}
use cluster_api_runtime_exte.Metro.Elements.{add_element, metro_prism_element_count}

-- metroSubnetAttributes.
pub record Attributes : Type 0 where
  pub layers : List Text
  pub vpc_references : List Text
  pub profiles_by_failure_domain : List (Text × List Text)

abbrev pub new_attributes : Attributes
new_attributes = record { layers = []; vpc_references = []; profiles_by_failure_domain = [] }

unfoldable pub subnet_layer_name : Option Text → Text
subnet_layer_name none = codes "UNKNOWN"
subnet_layer_name (some t) = t

id_text : Option ℕ → Text
id_text none = []
id_text (some n) = decimal n

prefix_text : Option Text → Text
prefix_text none = []
prefix_text (some p) = p

unfoldable pub subnet_profile_key : PcSubnet → Text
unfolding subnet_layer_name id_text prefix_text
subnet_profile_key s =
    subnet_layer_name s.subnet_type
    ++ (codes "|" ++ (id_text s.network_id ++ (codes "|" ++ prefix_text s.ip_prefix)))

-- A subnet of another Prism Element.
unfoldable pub on_other_element : Option Text → Text → Bool
on_other_element none pe = false
on_other_element (some c) pe = not (text_eq c pe)

unfoldable pub add_vpc : Option Text → List Text → List Text
unfolding insert_name
add_vpc none refs = refs
add_vpc (some v) refs = if is_empty v then refs else insert_name v refs

abbrev pub known_profiles : Option (List Text) → List Text
known_profiles none = []
known_profiles (some ps) = ps

unfoldable pub add_profile : Text → Text → List (Text × List Text) → List (Text × List Text)
unfolding add_element lookup insert
add_profile fd p m = insert fd (add_element (known_profiles (lookup fd m)) p) m

unfoldable pub note_subnet : Text → Text → Attributes → PcSubnet → Attributes
unfolding subnet_profile_key add_vpc add_profile on_other_element
note_subnet fd pe attrs s = if on_other_element s.cluster_reference pe then attrs else record {
  layers = insert_name (subnet_layer_name s.subnet_type) attrs.layers;
  vpc_references = add_vpc s.vpc_reference attrs.vpc_references;
  profiles_by_failure_domain =
      add_profile fd (subnet_profile_key s) attrs.profiles_by_failure_domain;
}

unfoldable pub note_subnets : Text → Text → Attributes → List PcSubnet → Attributes
unfolding note_subnet
note_subnets fd pe attrs [] = attrs
note_subnets fd pe attrs (s ∷ ss) = note_subnets fd pe (note_subnet fd pe attrs s) ss

unfoldable pub string_set_equal : List Text → List Text → Bool
unfolding member
string_set_equal a b = length a == length b && all (λ x. member x b) a

unfoldable pub equal_subnet_profile_sets : List (Text × List Text) → Bool
unfolding string_set_equal
equal_subnet_profile_sets [] = true
equal_subnet_profile_sets (baseline ∷ rest) =
    all (λ (p : Text × List Text). string_set_equal baseline.1 p.1) rest

abbrev pub supported_layer : Text → Bool
supported_layer l = text_eq l (codes "VLAN") || text_eq l (codes "OVERLAY")

-- The Prism Elements found so far, the attributes and the result.
pub record Evaluation : Type 0 where
  pub elements : List Text
  pub attributes : Attributes
  pub result : CheckResult

module _ (say : Complaint → Text) (metro : Text) (field : Text) where
  layer_verdict : Attributes → List Text → CheckResult → CheckResult
  unfolding equal_subnet_profile_sets
  layer_verdict attrs [] r = r
  layer_verdict attrs (l ∷ m ∷ ls) r = fail_check say field (several_layers metro (l ∷ m ∷ ls)) r
  layer_verdict attrs (l ∷ []) r =
      if supported_layer l
      then if equal_subnet_profile_sets attrs.profiles_by_failure_domain
        then r
        else fail_check say field (profiles_differ metro) r
      else fail_check say field (unsupported_layer metro l) r

  vpc_verdict : Attributes → List Text → CheckResult → CheckResult
  unfolding layer_verdict
  vpc_verdict attrs [] r = layer_verdict attrs attrs.layers r
  vpc_verdict attrs (v ∷ vs) r = fail_check say field (vpc_backed metro (v ∷ vs)) r

  any_layer : Attributes → List Text → CheckResult → CheckResult
  unfolding vpc_verdict
  any_layer attrs [] r = r
  any_layer attrs (l ∷ ls) r = vpc_verdict attrs attrs.vpc_references r

  unfoldable pub check_subnet_consistency : Attributes → CheckResult → CheckResult
  unfolding any_layer
  check_subnet_consistency attrs r = any_layer attrs attrs.layers r

  module _ (kube : Kube) (client : Client) where
    -- The loop over the subnets of a failure domain, which ends at the first that is not got.
    unfoldable pub collect_subnet_attributes :
        Text → Text → Attributes → CheckResult → List Identifier → Attributes × CheckResult
    unfolding note_subnets
    collect_subnet_attributes fd pe attrs r [] = (attrs, r)
    collect_subnet_attributes fd pe attrs r (id ∷ ids) = elim (get_subnets client id) [
      | err e ↦ (attrs, fail_check_internal say field (subnet_unknown id fd metro e) r)
      | ok ss ↦ collect_subnet_attributes fd pe (note_subnets fd pe attrs ss) r ids
    ]

    unfoldable pub on_element : Text → Evaluation → NutanixFailureDomain → Text → Evaluation
    unfolding collect_subnet_attributes add_element
    on_element fd ev d pe =
        let rest = collect_subnet_attributes fd pe ev.attributes ev.result d.subnets in
        record { elements = add_element ev.elements pe; attributes = rest.0; result = rest.1 }

    -- resolvePrismElement, and what evaluateFailureDomains does with the Prism Element.
    resolve_prism_element :
        Text → Evaluation → NutanixFailureDomain → Answer (List (Option Text)) → Evaluation
    unfolding on_element
    resolve_prism_element fd ev d (err e) = record ev {
      result = fail_check_internal say field (cluster_unknown d.prism_element fd metro e) ev.result;
    }
    resolve_prism_element fd ev d (ok []) = record ev {
      result = fail_check say field (wrong_clusters 0 d.prism_element fd metro) ev.result;
    }
    resolve_prism_element fd ev d (ok (none ∷ [])) = record ev {
      result =
          fail_check_internal say field (cluster_without_id d.prism_element fd metro) ev.result;
    }
    resolve_prism_element fd ev d (ok (some pe ∷ [])) = on_element fd ev d pe
    resolve_prism_element fd ev d (ok (a ∷ b ∷ cs)) = record ev {
      result =
          fail_check say field (wrong_clusters (length (a ∷ b ∷ cs)) d.prism_element fd metro)
            ev.result;
    }

    -- getFailureDomain.
    unfoldable pub got_domain : Text → Evaluation → Got NutanixFailureDomain → Evaluation
    unfolding resolve_prism_element
    got_domain fd ev (not_found e) = record ev {
      result = fail_check say field (domain_missing fd metro) ev.result;
    }
    got_domain fd ev (get_failed e) = record ev {
      result = fail_check_internal say field (domain_unknown fd metro e) ev.result;
    }
    got_domain fd ev (found d) = resolve_prism_element fd ev d (get_clusters client d.prism_element)

    unfoldable pub evaluate_failure_domains : Evaluation → List Text → Evaluation
    unfolding got_domain
    evaluate_failure_domains ev [] = ev
    evaluate_failure_domains ev (fd ∷ fds) =
        evaluate_failure_domains (if is_empty fd then ev else got_domain fd ev (kube.get_domain fd))
          fds

    metro_verdict : Evaluation → CheckResult
    unfolding check_subnet_consistency
    metro_verdict ev =
        if ev.result.allowed
        then check_subnet_consistency ev.attributes (
            if length ev.elements == metro_prism_element_count
            then ev.result
            else fail_check say field (wrong_metro_span metro (length ev.elements)) ev.result)
        else ev.result

    abbrev pub no_evaluation : Evaluation
    no_evaluation = record { elements = []; attributes = new_attributes; result = passed }

    -- getMetro, and what Run does with the NutanixMetro.
    got_metro : Got (List Text) → CheckResult
    unfolding metro_verdict evaluate_failure_domains
    got_metro (not_found e) = fail_check say field (metro_missing metro) passed
    got_metro (get_failed e) = fail_check_internal say field (metro_unknown metro e) passed
    got_metro (found fds) = metro_verdict (evaluate_failure_domains no_evaluation fds)

    unfoldable pub run_metro : Option Text → CheckResult
    unfolding got_metro
    run_metro (some e) = fail_check say field (metro_unresolved metro e) passed
    run_metro none = got_metro (kube.get_metro metro)
