-- ===== src/Cidr/Resolve.antt =====
-- resolveNodeSubnets of pkg/webhook/preflight/nutanix/cidrvalidation.go with what it calls:
-- subnetIdentifierKey, subnetIdentifierForMessage, filterSubnetsByPECluster, resolvePEClusterUUID and
-- extractIPv4PrefixesFromSubnet there.
pub mod Cache
pub mod Tests
use cluster_api_runtime_exte.Prelude.{
  ℕ, Bool, true, false, List, [], ◌∷◌, ◌++◌, map, Option, none, some, Text, codes, decimal, text_eq,
  lookup, insert, length, is_empty, filter_by, ltb, ◌==◌, ◌&&◌, if◌then◌else◌,
}
use cluster_api_runtime_exte.Prism.{
  Identifier, uuid_of, name_of, identifier_for_message, quote, IpConfig, PcSubnet, Client, Answer,
  ok, err, get_subnets, get_clusters,
}
use cluster_api_runtime_exte.Cidr.Prefix.{Prefix, masked}
use cluster_api_runtime_exte.Cidr.Check.{Netip, NodeSubnet, Resolution}

pub record Subnet : Type 0 where
  pub id : Identifier
  pub field : Text
  pub cluster : Option Identifier

key_of : Option Text → Option Text → Text
key_of (some u) n = codes "uuid:" ++ u
key_of none (some n) = codes "name:" ++ n
key_of none none = []

unfoldable pub identifier_key : Identifier → Text
unfolding key_of
identifier_key id = key_of (uuid_of id) (name_of id)

-- What resolvePEClusterUUID makes of an identifier: it panics on a cluster whose `ExtId` is nil.
pub data PeCluster : Type 0 where
  pe_uuid pe_error : Text → PeCluster
  pe_panic : PeCluster

several_clusters : Identifier → List (Option Text) → PeCluster
several_clusters id cs = pe_error (
    codes "found "
    ++ (decimal (length cs)
        ++ (codes " PE clusters matching "
            ++ (quote (identifier_for_message id) ++ codes "; expected exactly 1"))))

abbrev nil_pointer : Text
nil_pointer = codes "runtime error: invalid memory address or nil pointer dereference"

module _ (netip : Netip) (client : Client) where
  open netip use {parse_prefix, parse_error}

  -- The only one of the clusters that an identifier matches.
  only_cluster : Identifier → Answer (List (Option Text)) → PeCluster
  unfolding several_clusters
  only_cluster id (err e) = pe_error (
      codes "failed to resolve PE cluster "
      ++ (quote (identifier_for_message id) ++ (codes ": " ++ e)))
  only_cluster id (ok []) = several_clusters id []
  only_cluster id (ok (some c ∷ [])) = pe_uuid c
  only_cluster id (ok (none ∷ [])) = pe_panic
  only_cluster id (ok (c ∷ d ∷ cs)) = several_clusters id (c ∷ d ∷ cs)

  pe_cluster_uuid : Option Text → Identifier → PeCluster
  unfolding only_cluster
  pe_cluster_uuid (some u) id = pe_uuid u
  pe_cluster_uuid none id = only_cluster id (get_clusters client id)

  on_cluster : Text → PcSubnet → Bool
  on_cluster uuid s = elim s.cluster_reference [ none ↦ true | some c ↦ text_eq c uuid ]

  -- An error leaves the subnets as they are; a panic ends the resolution, as an error with its text.
  filter_on : List PcSubnet → PeCluster → Answer (List PcSubnet)
  unfolding on_cluster
  filter_on subnets (pe_error e) = ok subnets
  filter_on subnets pe_panic = err nil_pointer
  filter_on subnets (pe_uuid uuid) =
      ok (if is_empty uuid then subnets else filter_by (on_cluster uuid) subnets)

  filter_subnets : List PcSubnet → Option Identifier → Answer (List PcSubnet)
  unfolding filter_on pe_cluster_uuid
  filter_subnets subnets none = ok subnets
  filter_subnets subnets (some id) = filter_on subnets (pe_cluster_uuid (uuid_of id) id)

  -- One IP configuration: skipped without a value and a length, and otherwise parsed.
  config_prefix : Option Text → Option ℕ → Answer (List Prefix)
  config_prefix none l = ok []
  config_prefix (some v) none = ok []
  config_prefix (some v) (some l) =
      let cidr = v ++ (codes "/" ++ decimal l) in
      elim (parse_prefix cidr) [
        | some p ↦ ok (masked p ∷ [])
        | none ↦ err (
            codes "failed to parse subnet prefix "
            ++ (quote v ++ (codes "/" ++ (decimal l ++ (codes ": " ++ parse_error cidr)))))
      ]

  append_answer : Answer (List Prefix) → Answer (List Prefix) → Answer (List Prefix)
  append_answer (err e) rest = err e
  append_answer (ok ps) (err e) = err e
  append_answer (ok ps) (ok qs) = ok (ps ++ qs)

  extract_prefixes : List IpConfig → Answer (List Prefix)
  unfolding config_prefix append_answer
  extract_prefixes [] = ok []
  extract_prefixes (c ∷ cs) =
      append_answer (config_prefix c.ip_value c.prefix_length) (extract_prefixes cs)

  extract_all : List PcSubnet → Answer (List Prefix)
  unfolding extract_prefixes
  extract_all [] = ok []
  extract_all (s ∷ ss) = append_answer (extract_prefixes s.ip_config) (extract_all ss)

  -- Among several subnets of one name, exactly one has to be on the target cluster.
  select_one : Text → Answer (List PcSubnet) → Answer (List PcSubnet)
  select_one name (err e) = err e
  select_one name (ok subnets) =
      if length subnets == 1
      then ok subnets
      else err (
          codes "found "
          ++ (decimal (length subnets)
              ++ (codes " subnets matching name "
                  ++ (quote name
                      ++ codes
                          " on the target Prism Element cluster; there must be exactly 1; use subnet UUID instead"))))

  -- The subnets found are narrowed only if the identifier is a name and matches several.
  narrow : Option Text → Option Identifier → List PcSubnet → Answer (List PcSubnet)
  unfolding select_one filter_subnets
  narrow none cluster subnets = ok subnets
  narrow (some name) cluster subnets =
      if ltb 1 (length subnets)
      then select_one name (filter_subnets subnets cluster)
      else ok subnets

  extract_selected : Identifier → Answer (List PcSubnet) → Answer (List Prefix)
  unfolding extract_all
  extract_selected id (err e) = err e
  extract_selected id (ok subnets) = elim (extract_all subnets) [
    | ok ps ↦ ok ps
    | err e ↦ err (
        codes "failed to extract IPv4 CIDR for subnet "
        ++ (quote (identifier_for_message id) ++ (codes ": " ++ e)))
  ]

  select_found : Subnet → Answer (List PcSubnet) → Answer (List Prefix)
  unfolding narrow extract_selected
  select_found s (err e) =
      err (
        codes "failed to get subnet " ++ (quote (identifier_for_message s.id) ++ (codes ": " ++ e)))
  select_found s (ok []) =
      err (codes "found no subnets for identifier " ++ quote (identifier_for_message s.id))
  select_found s (ok (x ∷ xs)) = extract_selected s.id (narrow (name_of s.id) s.cluster (x ∷ xs))

  -- What a subnet that is not in the cache is resolved to.
  pub fetch : Subnet → Answer (List Prefix)
  unfolding select_found get_subnets
  fetch s = select_found s (get_subnets client s.id)

  external_warning : Subnet → Text
  external_warning s =
      codes "Subnet "
      ++ (quote (identifier_for_message s.id)
          ++ codes
              " appears to use external IPAM (no IP configuration found). CIDR overlap validation will be skipped for this subnet.")

  warn_if_none : Subnet → List Prefix → List Text → List Text
  warn_if_none s [] warnings = warnings ++ (external_warning s ∷ [])
  warn_if_none s (p ∷ ps) warnings = warnings

  abbrev pub entries : Subnet → List Prefix → List NodeSubnet
  entries s ps =
      map (λ p. record { prefix = p; field = s.field; name = identifier_for_message s.id }) ps

  -- What the loop carries round.
  pub record Progress : Type 0 where
    pub resolved : List NodeSubnet
    pub warnings : List Text
    pub cache : List (Text × List Prefix)

  pub data Turn : Type 0 where
    go_on : Progress → Turn
    give_up : List Text → Text → Turn

  use_cached : Progress → Subnet → List Prefix → Turn
  use_cached st s ps = go_on (record st { resolved = st.resolved ++ entries s ps })

  use_fetched : Progress → Subnet → Answer (List Prefix) → Turn
  unfolding warn_if_none
  use_fetched st s (err e) = give_up st.warnings e
  use_fetched st s (ok ps) = go_on (record {
    resolved = st.resolved ++ entries s ps;
    warnings = warn_if_none s ps st.warnings;
    cache = insert (identifier_key s.id) ps st.cache;
  })

  look_up : Progress → Subnet → Option (List Prefix) → Turn
  unfolding use_cached use_fetched
  look_up st s (some ps) = use_cached st s ps
  look_up st s none = use_fetched st s (fetch s)

  -- The body of the loop.
  pub turn : Progress → Subnet → Turn
  unfolding look_up
  turn st s = look_up st s (lookup (identifier_key s.id) st.cache)

  resolve_from : Progress → List Subnet → Resolution
  resolve_from st [] = record { resolved = st.resolved; warnings = st.warnings; error = none }
  resolve_from st (s ∷ ss) = elim (turn st s) [
    | go_on st' ↦ resolve_from st' ss
    | give_up warnings e ↦ record { resolved = []; warnings = warnings; error = some e }
  ]

  pub resolve_node_subnets : List Subnet → Resolution
  unfolding resolve_from
  resolve_node_subnets subnets =
      resolve_from (record { resolved = []; warnings = []; cache = [] }) subnets
