-- ===== src/Cidr/Prefix/Addresses.antt =====
-- Prefixes as sets of addresses.
use native.Mathlib.Nat.{
  add-zero, add-suc, pow-zero, pow-suc, div-div-eq-div-mul, mul-div_cancel, div-eq_of_lt-le,
  div-lt_iff_lt-mul,
}
use Prim.Native.Nat.{min}
use cluster_api_runtime_exte.Prelude.{
  ℕ, zero, suc, ◌+◌, ◌-◌, ◌*◌, ◌/◌, ◌^◌, ◌≤◌, ◌<◌, ◌≡◌, refl, sym, ap, ◌∙◌, ◌↔◌, ◌⊎◌, inl, inr,
  Bool, true, some, arith, leb, leb→le, Bool-cases,
}
use cluster_api_runtime_exte.Cidr.Prefix.{
  Prefix, width, IsValid, network, masked, prefixes_overlap, ipv4_cidr_capacity,
  max_nodes_for_pod_cidr,
}

-- An address of the family of the prefix that agrees with it on its bits.
pub record IsIn (p : Prefix) (is4 : Bool) (x : ℕ) : Type 0 where
  pub family : is4 ≡ p.is4
  pub fits : x < 2 ^ width p.is4
  pub agrees : network (width p.is4) p.bits x ≡ network (width p.is4) p.bits p.addr

pow-add : (a b : ℕ) → 2 ^ (a + b) ≡ 2 ^ a * 2 ^ b
pow-add a zero = rw (add-zero, pow-zero) (omega arith)
pow-add a (suc b) = rw (add-suc, pow-suc, pow-suc, pow-add a b) (omega arith)

pow-pos : (n : ℕ) → 0 < 2 ^ n
pow-pos zero = omega arith
pow-pos (suc n) = rw pow-suc (omega (arith, pow-pos n))

-- The first bits of the first bits are first bits.
network-network : (w n m x : ℕ) → m ≤ n → n ≤ w → network w m x ≡ network w n x / 2 ^ (n - m)
unfolding network
network-network w n m x h k =
    let e : w - m ≡ (w - n) + (n - m) = omega arith in
    rw (e, pow-add (w - n) (n - m)) (sym (div-div-eq-div-mul x (2 ^ (w - n)) (2 ^ (n - m))))

-- Addresses that agree on the first `n` bits agree on fewer.
network_coarser :
    (w n m x y : ℕ) → m ≤ n → n ≤ w → network w n x ≡ network w n y → network w m x ≡ network w m y
network_coarser w n m x y h k e =
    network-network w n m x h k
    ∙ ap (λ (t : ℕ). t / 2 ^ (n - m)) e
    ∙ sym (network-network w n m y h k)

same_family : (a b : Prefix) → prefixes_overlap a b ≡ true → a.is4 ≡ b.is4
unfolding prefixes_overlap
same_family a b h = ground arith

same_network :
    (a b : Prefix)
    → prefixes_overlap a b ≡ true
    → network (width a.is4) (min a.bits b.bits) a.addr
      ≡ network (width a.is4) (min a.bits b.bits) b.addr
unfolding prefixes_overlap
same_network a b h = ground arith

overlap_intro :
    (a b : Prefix)
    → a.is4 ≡ b.is4
    → network (width a.is4) (min a.bits b.bits) a.addr
      ≡ network (width a.is4) (min a.bits b.bits) b.addr
    → prefixes_overlap a b ≡ true
unfolding prefixes_overlap
overlap_intro a b e n = rw e (ground (arith, n))

le-total : (x y : ℕ) → (x ≤ y) ⊎ (y ≤ x)
le-total x y = grind arith

min_left : (x y : ℕ) → x ≤ y → min x y ≡ x
min_left x y h = omega arith

min_right : (x y : ℕ) → y ≤ x → min x y ≡ y
min_right x y h = omega arith

abbrev Common : Prefix → Prefix → Type 0
Common a b = (x : ℕ) × IsIn a a.is4 x × IsIn b a.is4 x

IsIn-self : (p : Prefix) → IsValid p → IsIn p p.is4 p.addr
IsIn-self p v = record { family = refl; fits = v.fits; agrees = refl }

module _ (a b : Prefix) (va : IsValid a) (vb : IsValid b) where
  meet : prefixes_overlap a b ≡ true → Common a b
  meet h =
      let e = same_family a b h in
      let ew = ap width e in
      elim (le-total a.bits b.bits) [
        | inl le ↦ (
          b.addr,
          record {
            family = refl;
            fits = rw ew vb.fits;
            agrees = sym (rw (min_left a.bits b.bits le) at (same_network a b h));
          },
          record { family = e; fits = vb.fits; agrees = refl },
        )
        | inr le ↦ (
          a.addr,
          IsIn-self a va,
          record {
            family = e;
            fits = rw (← ew) va.fits;
            agrees = rw (← ew) (rw (min_right a.bits b.bits le) at (same_network a b h));
          },
        )
      ]

  joined : Common a b → prefixes_overlap a b ≡ true
  joined (x, ia, ib) =
      let e = ib.family in
      let ew = ap width e in
      let m = min a.bits b.bits in
      overlap_intro a b e (
        sym (network_coarser (width a.is4) a.bits m x a.addr (omega arith) va.short ia.agrees)
        ∙ network_coarser (width a.is4) b.bits m x b.addr (omega arith) (rw ew vb.short)
            (rw ew ib.agrees))

-- Two valid prefixes overlap exactly if some address is in both.
pub prefixes_overlap_iff :
    (a b : Prefix)
    → IsValid a
    → IsValid b
    → (prefixes_overlap a b ≡ true) ↔ ((x : ℕ) × IsIn a a.is4 x × IsIn b a.is4 x)
prefixes_overlap_iff a b va vb = (meet a b va vb, joined a b va vb)

div_range_to : (x h q : ℕ) → 0 < h → x / h ≡ q → (q * h ≤ x) × (x < q * h + h)
div_range_to x h q p e = rw (← e) (omega arith, omega arith)

div_mul_self : (q h : ℕ) → 0 < h → q * h / h ≡ q
div_mul_self q h p = mul-div_cancel q p

div_range_from : (x h q : ℕ) → 0 < h → q * h ≤ x → x < q * h + h → x / h ≡ q
div_range_from x h q p lo hi = div-eq_of_lt-le h lo (omega arith)

max_nodes_large : (pod node : ℕ) → pod ≤ node → max_nodes_for_pod_cidr pod node ≡ 2 ^ (node - pod)
unfolding max_nodes_for_pod_cidr
max_nodes_large pod node le = elim (Bool-cases (leb node pod)) [
  | inl small ↦ let same : node - pod ≡ 0 = omega (arith, leb→le node pod small) in rw (small, same)
  | inr large ↦ rw large
]

max_nodes_small : (pod node : ℕ) → node ≤ pod → max_nodes_for_pod_cidr pod node ≡ 1
unfolding max_nodes_for_pod_cidr
max_nodes_small pod node le = ground arith

-- Masking leaves a prefix of the same addresses.
pub masked-IsIn : (p : Prefix) (is4 : Bool) (x : ℕ) → IsIn (masked p) is4 x ↔ IsIn p is4 x
unfolding masked network
masked-IsIn p is4 x =
    let host = 2 ^ (width p.is4 - p.bits) in
    let same = div_mul_self (p.addr / host) host (pow-pos (width p.is4 - p.bits)) in
    (
      λ i. record { family = i.family; fits = i.fits; agrees = i.agrees ∙ same },
      λ i. record { family = i.family; fits = i.fits; agrees = i.agrees ∙ sym same },
    )

abbrev pub ipv4 : ℕ → ℕ → Prefix
ipv4 addr bits = record { is4 = true; addr = addr; bits = bits }

mul_mono : (h x y : ℕ) → x ≤ y → x * h ≤ y * h
mul_mono h x y le = grind arith

network_top : (addr bits : ℕ) → bits ≤ 32 → addr < 2 ^ 32 → addr / 2 ^ (32 - bits) < 2 ^ bits
network_top addr bits k f =
    let e : bits + (32 - bits) ≡ 32 = omega arith in
    (div-lt_iff_lt-mul (pow-pos (32 - bits))).1 (rw (← pow-add bits (32 - bits), e) f)

in_range :
    (addr bits x : ℕ)
    → bits ≤ 32
    → addr < 2 ^ 32
    → x < addr / 2 ^ (32 - bits) * 2 ^ (32 - bits) + 2 ^ (32 - bits)
    → x < 2 ^ 32
in_range addr bits x k f hi =
    let e : bits + (32 - bits) ≡ 32 = omega arith in
    let all_hosts : 2 ^ bits * 2 ^ (32 - bits) ≡ 2 ^ 32 =
      sym (pow-add bits (32 - bits)) ∙ ap (λ (t : ℕ). 2 ^ t) e in
    let top =
      mul_mono (2 ^ (32 - bits)) (addr / 2 ^ (32 - bits) + 1) (2 ^ bits)
        (omega (arith, network_top addr bits k f)) in
    omega (arith, all_hosts, top)

-- The capacity of an IPv4 prefix, unless that is of length 0, is the number of its addresses: these
-- are the ones from the masked address on.
pub capacity-IsIn :
    (addr bits x : ℕ)
    → 0 < bits
    → bits ≤ 32
    → addr < 2 ^ 32
    → (n : ℕ) × (ipv4_cidr_capacity (ipv4 addr bits) ≡ some n)
      × (IsIn (ipv4 addr bits) true x
          ↔ (((masked (ipv4 addr bits)).addr ≤ x) × (x < (masked (ipv4 addr bits)).addr + n)))
unfolding ipv4_cidr_capacity masked network
capacity-IsIn addr bits x h k f =
    let host = 2 ^ (32 - bits) in
    let pos = pow-pos (32 - bits) in
    (
      host,
      ground arith,
      (
        λ i. div_range_to x host (addr / host) pos i.agrees,
        λ (lo, hi). record {
          family = refl;
          fits = in_range addr bits x k f hi;
          agrees = div_range_from x host (addr / host) pos lo hi;
        },
      ),
    )

-- The nodes that a Pod CIDR has room for: as many node subnets as fit, but at least one.
pub max_nodes_lem :
    (pod node : ℕ)
    → pod ≤ 32
    → node ≤ 32
    → (pod ≤ node → max_nodes_for_pod_cidr pod node * 2 ^ (32 - node) ≡ 2 ^ (32 - pod))
      × (node ≤ pod → max_nodes_for_pod_cidr pod node ≡ 1)
max_nodes_lem pod node h k = (large, small)
  where
    large : pod ≤ node → max_nodes_for_pod_cidr pod node * 2 ^ (32 - node) ≡ 2 ^ (32 - pod)
    large le =
        let e : 32 - pod ≡ (node - pod) + (32 - node) = omega arith in
        rw (max_nodes_large pod node le, e, pow-add (node - pod) (32 - node))

    small : node ≤ pod → max_nodes_for_pod_cidr pod node ≡ 1
    small le = max_nodes_small pod node le
