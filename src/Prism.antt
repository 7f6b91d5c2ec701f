-- ===== src/Prism.antt =====
-- The client of Prism Central, as the Nutanix preflight checks call it: getSubnets of
-- pkg/webhook/preflight/nutanix/failuredomain.go, getClusters of storagecontainer.go there, and
-- subnetIdentifierForMessage of cidrvalidation.go. What the client replies is a parameter.
use cluster_api_runtime_exte.Prelude.{ℕ, List, [], ◌∷◌, ◌++◌, Option, none, some, Text, codes}

pub data IdentifierType : Type 0 where
  uuid_type name_type other_type : IdentifierType

pub record Identifier : Type 0 where
  pub type : IdentifierType
  pub uuid : Option Text
  pub name : Option Text

-- The code reads the UUID or the name of an identifier through a pointer, by its type; a nil one, on
-- which it panics, is not modelled: such an identifier counts as one without UUID and name. Nor
-- is a panic of `GetData` on a nil answer to GetClusterById: `no_response` is an error there.
-- The UUID of an identifier with `IsUUID`, and the name of one with `IsName`.
unfoldable pub uuid_if : IdentifierType → Option Text → Option Text
uuid_if uuid_type u = u
uuid_if name_type u = none
uuid_if other_type u = none

unfoldable pub name_if : IdentifierType → Option Text → Option Text
name_if name_type n = n
name_if uuid_type n = none
name_if other_type n = none

unfoldable pub uuid_of : Identifier → Option Text
unfolding uuid_if
uuid_of id = uuid_if id.type id.uuid

unfoldable pub name_of : Identifier → Option Text
unfolding name_if
name_of id = name_if id.type id.name

-- An IP configuration of a subnet; a nil pointer on the way to a value is none.
pub record IpConfig : Type 0 where
  pub ip_value : Option Text
  pub prefix_length : Option ℕ

pub record PcSubnet : Type 0 where
  pub cluster_reference : Option Text
  pub ip_config : List IpConfig
  pub subnet_type : Option Text
  pub vpc_reference : Option Text
  pub network_id : Option ℕ
  pub ip_prefix : Option Text

pub data Reply (A : Type 0) : Type 0 where
  call_failed : Text → Reply A
  no_response no_data other_data : Reply A
  got : A → Reply A

-- The calls of the client; a cluster is its `ExtId`, which may be nil.
pub record Client : Type 0 where
  pub get_subnet_by_id : Text → Reply PcSubnet
  pub list_subnets : Text → Reply (List PcSubnet)
  pub get_cluster_by_id : Text → Reply (Option Text)
  pub list_clusters : Text → Reply (List (Option Text))

pub data Answer (A : Type 0) : Type 0 where
  ok : A → Answer A
  err : Text → Answer A

abbrev pub quote : Text → Text
quote s = codes "\"" ++ (s ++ codes "\"")

abbrev pub name_filter : Text → Text
name_filter name = codes "name eq '" ++ (name ++ codes "'")

unfoldable pub subnet_by_id : Reply PcSubnet → Answer (List PcSubnet)
subnet_by_id (call_failed e) = err e
subnet_by_id no_response = ok []
subnet_by_id no_data = err (codes "failed to get data returned by GetSubnetById")
subnet_by_id other_data = err (codes "failed to get data returned by GetSubnetById")
subnet_by_id (got s) = ok (s ∷ [])

unfoldable pub listed : {A : Type 0} → Text → Reply (List A) → Answer (List A)
listed what (call_failed e) = err e
listed what no_response = ok []
listed what no_data = ok []
listed what other_data = err (codes "failed to get data returned by " ++ what)
listed what (got l) = ok l

unfoldable pub cluster_by_id : Reply (Option Text) → Answer (List (Option Text))
cluster_by_id (call_failed e) = err e
cluster_by_id no_response = err (codes "failed to get data returned by GetClusterById")
cluster_by_id no_data = err (codes "failed to get data returned by GetClusterById")
cluster_by_id other_data = err (codes "failed to get data returned by GetClusterById")
cluster_by_id (got c) = ok (c ∷ [])

unfoldable pub message_of : Option Text → Option Text → Text
message_of (some u) n = u
message_of none (some n) = n
message_of none none = codes "<invalid-identifier>"

unfoldable pub identifier_for_message : Identifier → Text
unfolding message_of
identifier_for_message id = message_of (uuid_of id) (name_of id)

module _ (client : Client) where
  open client use {get_subnet_by_id, list_subnets, get_cluster_by_id, list_clusters}

  unfoldable pub get_subnets_by : Option Text → Option Text → Answer (List PcSubnet)
  unfolding subnet_by_id listed
  get_subnets_by (some u) n = subnet_by_id (get_subnet_by_id u)
  get_subnets_by none (some n) = listed (codes "ListSubnets") (list_subnets (name_filter n))
  get_subnets_by none none = err (codes "subnet identifier is missing both name and uuid")

  unfoldable pub get_subnets : Identifier → Answer (List PcSubnet)
  unfolding get_subnets_by
  get_subnets id = get_subnets_by (uuid_of id) (name_of id)

  unfoldable pub get_clusters_by : Option Text → Option Text → Answer (List (Option Text))
  unfolding cluster_by_id listed
  get_clusters_by (some u) n = cluster_by_id (get_cluster_by_id u)
  get_clusters_by none (some n) = listed (codes "ListClusters") (list_clusters (name_filter n))
  get_clusters_by none none = err (codes "cluster identifier is missing both name and uuid")

  unfoldable pub get_clusters : Identifier → Answer (List (Option Text))
  unfolding get_clusters_by
  get_clusters id = get_clusters_by (uuid_of id) (name_of id)
