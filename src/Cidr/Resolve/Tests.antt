-- ===== src/Cidr/Resolve/Tests.antt =====
-- Two node pools on two Prism Element clusters whose subnets have the same name.
use cluster_api_runtime_exte.Prelude.{
  ℕ, ◌≡◌, ◌≢◌, refl, sym, ap, ◌∙◌, List, [], ◌∷◌, ◌++◌, Option, none, some, Text, codes, text_eq,
  decimal, arith,
}
use cluster_api_runtime_exte.Cidr.Prefix.{Prefix, masked}
use cluster_api_runtime_exte.Prism.{
  IdentifierType, uuid_type, name_type, other_type, uuid_if, name_if, uuid_of, name_of, message_of,
  Identifier, Client, IpConfig, Answer, ok, err, no_data, got, identifier_for_message,
}
use cluster_api_runtime_exte.Cidr.Resolve.{
  key_of, Subnet, identifier_key, fetch, resolve_node_subnets,
}
use cluster_api_runtime_exte.Cidr.Resolve.Cache.{
  direct, outcome, seen, resolve-direct, cached_by_key,
}
use cluster_api_runtime_exte.Cidr.Tests.{netip, nodes, node_subnet, parse_table}

abbrev config : Text → IpConfig
config ip = record { ip_value = some ip; prefix_length = some 16 }

abbrev client : Client
client = record {
  get_subnet_by_id = λ u. no_data;
  list_subnets = λ f. got (
      record {
        cluster_reference = none;
        ip_config = config (codes "10.1.0.0") ∷ [];
        subnet_type = none;
        vpc_reference = none;
        network_id = none;
        ip_prefix = none;
      }
      ∷ []);
  get_cluster_by_id = λ u. no_data;
  list_clusters = λ f. no_data;
}

abbrev subnet_on : Text → Subnet
subnet_on cluster = record {
  id = record { type = name_type; uuid = none; name = some (codes "vlan") };
  field = codes "$.spec";
  cluster = some (record { type = uuid_type; uuid = some cluster; name = none });
}

cached_by_key_example :
    seen netip client
      (resolve_node_subnets netip client (subnet_on (codes "pe1") ∷ subnet_on (codes "pe2") ∷ []))
    ≡ (none, node_subnet ∷ node_subnet ∷ [])
unfolding fetch parse_table masked identifier_for_message uuid_of name_of text_eq codes decimal
cached_by_key_example =
    cached_by_key netip client (subnet_on (codes "pe1")) (subnet_on (codes "pe2")) (nodes ∷ []) refl
      refl

answer_of : Option Text → Option Text → Answer (List Prefix)
answer_of (some u) n = err (
    codes "failed to get subnet "
    ++ ((codes "\"" ++ (u ++ codes "\""))
        ++ codes ": failed to get data returned by GetSubnetById"))
answer_of none (some n) = ok (nodes ∷ [])
answer_of none none = err (
    codes
      "failed to get subnet \"<invalid-identifier>\": subnet identifier is missing both name and uuid")

fetch-answer :
    (type : IdentifierType) (u n : Option Text) (field : Text) (cluster : Option Identifier)
    → fetch netip client (record {
      id = record { type = type; uuid = u; name = n };
      field = field;
      cluster = cluster;
    })
      ≡ answer_of (uuid_if type u) (name_if type n)
unfolding fetch parse_table masked identifier_for_message uuid_of name_of text_eq codes decimal
    uuid_if name_if answer_of message_of
fetch-answer uuid_type none n field cluster = refl
fetch-answer uuid_type (some u) n field cluster = refl
fetch-answer name_type u none field cluster = refl
fetch-answer name_type u (some n) field cluster = refl
fetch-answer other_type u n field cluster = refl

abbrev first : Text → ℕ
first [] = 0
first (c ∷ cs) = c

abbrev first_of_uuid : ℕ
first_of_uuid = 117

abbrev first_of_name : ℕ
first_of_name = 110

uuid_apart : first_of_uuid ≢ first_of_name
uuid_apart = omega arith

answer-key : (a b c d : Option Text) → key_of a b ≡ key_of c d → answer_of a b ≡ answer_of c d
unfolding key_of answer_of codes
answer-key (some u) b (some v) d e = let same : u ≡ v = cc e in rw same refl
answer-key (some u) b none (some m) e = absurd (uuid_apart (ap first e))
answer-key (some u) b none none e = absurd (cc e)
answer-key none (some n) (some v) d e = absurd (uuid_apart (sym (ap first e)))
answer-key none none (some v) d e = absurd (cc e)
answer-key none (some n) none (some m) e = refl
answer-key none (some n) none none e = absurd (cc e)
answer-key none none none (some m) e = absurd (cc e)
answer-key none none none none e = refl

abbrev pools : List Subnet
pools = subnet_on (codes "pe1") ∷ subnet_on (codes "pe2") ∷ []

resolve-direct_example :
    seen netip client (resolve_node_subnets netip client pools)
    ≡ outcome netip client [] (direct netip client pools)
unfolding identifier_key uuid_of name_of
resolve-direct_example = resolve-direct netip client same pools
  where
    same :
        (s t : Subnet)
        → identifier_key s.id ≡ identifier_key t.id
        → fetch netip client s ≡ fetch netip client t
    same s t e =
        fetch-answer s.id.type s.id.uuid s.id.name s.field s.cluster
        ∙ answer-key (uuid_of s.id) (name_of s.id) (uuid_of t.id) (name_of t.id) e
        ∙ sym (fetch-answer t.id.type t.id.uuid t.id.name t.field t.cluster)
