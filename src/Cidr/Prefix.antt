-- ===== src/Cidr/Prefix.antt =====
-- A valid `netip.Prefix`, and what the program computes of it: `Masked` and `Overlaps` of the
-- standard library, ipv4CIDRCapacity, maxNodesForPodCIDR and prefixesOverlap.
pub mod Addresses
use cluster_api_runtime_exte.Prelude.{
  ℕ, ◌+◌, ◌-◌, ◌*◌, ◌/◌, ◌^◌, ◌≤◌, ◌<◌, ◌≡◌, Bool, true, false, not, ◌&&◌, ◌||◌, Option, none, some,
  ltb, leb, ◌==◌, if◌then◌else◌,
}
use Prim.Native.Nat.{min}

pub record Prefix : Type 0 where
  pub is4 : Bool
  pub addr : ℕ
  pub bits : ℕ

abbrev pub width : Bool → ℕ
width true = 32
width false = 128

pub record IsValid (p : Prefix) : Type 0 where
  pub fits : p.addr < 2 ^ width p.is4
  pub short : p.bits ≤ width p.is4

abbrev bool_eq : Bool → Bool → Bool
bool_eq true b = b
bool_eq false b = not b

-- The first `bits` bits of an address of `width` bits.
unfoldable pub network : ℕ → ℕ → ℕ → ℕ
network w bits x = x / 2 ^ (w - bits)

unfoldable pub masked : Prefix → Prefix
unfolding network
masked p =
    let host = 2 ^ (width p.is4 - p.bits) in
    record p { addr = network (width p.is4) p.bits p.addr * host }

-- `Overlaps`, of valid prefixes: the addresses agree on the bits of the shorter prefix.
unfoldable pub prefixes_overlap : Prefix → Prefix → Bool
prefixes_overlap a b =
    let bits = min a.bits b.bits in
    bool_eq a.is4 b.is4 && network (width a.is4) bits a.addr == network (width a.is4) bits b.addr

-- `hostBits` is negative exactly if the prefix is longer than 32 bits.
unfoldable pub ipv4_cidr_capacity : Prefix → Option ℕ
ipv4_cidr_capacity p =
    if not p.is4
    then none
    else let host_bits = 32 - p.bits in
      if ltb 32 p.bits || ltb 31 host_bits then none else some (2 ^ host_bits)

unfoldable pub max_nodes_for_pod_cidr : ℕ → ℕ → ℕ
max_nodes_for_pod_cidr pod_mask_size node_mask_size =
    if leb node_mask_size pod_mask_size then 1 else 2 ^ (node_mask_size - pod_mask_size)
