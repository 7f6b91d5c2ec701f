-- ===== src/Cidr/Resolve/Cache.antt =====
-- The cache of resolved prefixes: when it is transparent, and what it does to names.
use cluster_api_runtime_exte.Prelude.{
  ◌≡◌, refl, sym, ap, ◌∙◌, List, [], ◌∷◌, ◌++◌, append-nil, append_assoc, Option, none, some, Text,
  text_eq, text_eq_iff, text_eq_refl, lookup, insert, lookup-insert, arith, Option-cases, inl, inr,
  ◌⊎◌, Bool-cases,
}
use cluster_api_runtime_exte.Cidr.Prefix.{Prefix}
use cluster_api_runtime_exte.Cidr.Check.{Netip, NodeSubnet, Resolution}
use cluster_api_runtime_exte.Prism.{Client, Answer, ok, err}
use cluster_api_runtime_exte.Cidr.Resolve.{
  Subnet, identifier_key, fetch, entries, Progress, Turn, go_on, give_up, turn, look_up, use_cached,
  use_fetched, warn_if_none, resolve_from, resolve_node_subnets,
}

module _ (netip : Netip) (client : Client) where
  and_then : List NodeSubnet → Answer (List NodeSubnet) → Answer (List NodeSubnet)
  and_then l (ok r) = ok (l ++ r)
  and_then l (err e) = err e

  -- The subnets resolved one by one, without a cache.
  pub direct : List Subnet → Answer (List NodeSubnet)
  unfolding and_then
  direct [] = ok []
  direct (s ∷ ss) =
      let rest = direct ss in
      elim (fetch netip client s) [
        | err e ↦ err e
        | ok ps ↦ and_then (entries netip client s ps) rest
      ]

  -- The error and the subnets of a resolution that has `acc` so far.
  abbrev pub outcome : List NodeSubnet → Answer (List NodeSubnet) → Option Text × List NodeSubnet
  outcome acc (ok r) = (none, acc ++ r)
  outcome acc (err e) = (some e, [])

  abbrev pub seen : Resolution → Option Text × List NodeSubnet
  seen r = (r.error, r.resolved)

  outcome-and_then :
      (acc l : List NodeSubnet) (a : Answer (List NodeSubnet))
      → outcome (acc ++ l) a ≡ outcome acc (and_then l a)
  unfolding and_then
  outcome-and_then acc l (ok r) = ap (λ x. (none, x)) (append_assoc acc l r)
  outcome-and_then acc l (err e) = refl

  stored : Progress netip client → Subnet → List Prefix → Progress netip client
  stored st s ps = record {
    resolved = st.resolved ++ entries netip client s ps;
    warnings = warn_if_none netip client s ps st.warnings;
    cache = insert (identifier_key s.id) ps st.cache;
  }

  abbrev empty : Progress netip client
  empty = record { resolved = []; warnings = []; cache = [] }

  kept : Progress netip client → Subnet → List Prefix → Progress netip client
  kept st s ps = record st { resolved = st.resolved ++ entries netip client s ps }

  Answer-cases :
      (a : Answer (List Prefix)) → ((ps : List Prefix) × (a ≡ ok ps)) ⊎ ((e : Text) × (a ≡ err e))
  Answer-cases (ok ps) = inl (ps, refl)
  Answer-cases (err e) = inr (e, refl)

  turn_miss :
      (st : Progress netip client) (s : Subnet)
      → lookup (identifier_key s.id) st.cache ≡ none
      → turn netip client st s ≡ use_fetched netip client st s (fetch netip client s)
  unfolding turn look_up
  turn_miss st s miss = rw miss refl

  turn_hit :
      (st : Progress netip client) (s : Subnet) (ps : List Prefix)
      → lookup (identifier_key s.id) st.cache ≡ some ps
      → turn netip client st s ≡ use_cached netip client st s ps
  unfolding turn look_up
  turn_hit st s ps hit = rw hit refl

  follow : List Subnet → Turn netip client → Resolution
  follow ss (go_on st) = resolve_from netip client st ss
  follow ss (give_up warnings e) = record { resolved = []; warnings = warnings; error = some e }

  follow-turn :
      (st : Progress netip client) (s : Subnet) (ss : List Subnet) (x : Turn netip client)
      → turn netip client st s ≡ x
      → resolve_from netip client st (s ∷ ss) ≡ follow ss x
  unfolding resolve_from follow
  follow-turn st s ss x e = rw (sym e) (go (turn netip client st s))
    where
      go :
          (y : Turn netip client)
          → elim y [
            | go_on st' ↦ resolve_from netip client st' ss
            | give_up w r ↦ record { resolved = []; warnings = w; error = some r }
          ]
            ≡ follow ss y
      go (go_on st') = refl
      go (give_up w r) = refl

  direct-fetch :
      (s : Subnet) (ss : List Subnet) (ps : List Prefix)
      → fetch netip client s ≡ ok ps
      → direct (s ∷ ss) ≡ and_then (entries netip client s ps) (direct ss)
  unfolding direct
  direct-fetch s ss ps f = ground arith

  direct-err :
      (s : Subnet) (ss : List Subnet) (e : Text)
      → fetch netip client s ≡ err e
      → direct (s ∷ ss) ≡ err e
  unfolding direct
  direct-err s ss e f = ground arith

  module _
      (same : (s t : Subnet)
        → identifier_key s.id ≡ identifier_key t.id
        → fetch netip client s ≡ fetch netip client t) where
    abbrev Sound : List (Text × List Prefix) → Type 0
    Sound cache =
        (s : Subnet) (ps : List Prefix)
        → lookup (identifier_key s.id) cache ≡ some ps
        → fetch netip client s ≡ ok ps

    Sound-insert :
        (cache : List (Text × List Prefix)) (t : Subnet) (ps : List Prefix)
        → Sound cache
        → fetch netip client t ≡ ok ps
        → Sound (insert (identifier_key t.id) ps cache)
    Sound-insert cache t ps sound f s qs l =
        let law = lookup-insert (identifier_key t.id) (identifier_key s.id) ps cache in
        elim (Bool-cases (text_eq (identifier_key t.id) (identifier_key s.id))) [
          | inl e ↦
              let k = (text_eq_iff (identifier_key t.id) (identifier_key s.id)).0 e in
              let found : some ps ≡ some qs = sym (rw e at law) ∙ l in
              sym (same t s k) ∙ f ∙ cc found
          | inr e ↦ sound s qs (sym (rw e at law) ∙ l)
        ]

    resolve_from_lem :
        (st : Progress netip client) (ss : List Subnet)
        → Sound st.cache
        → seen (resolve_from netip client st ss) ≡ outcome st.resolved (direct ss)
    unfolding resolve_from direct use_fetched use_cached follow stored kept
    resolve_from_lem st [] sound = ap (λ x. (none, x)) (sym (append-nil st.resolved))
    resolve_from_lem st (s ∷ ss) sound =
        elim (Option-cases (lookup (identifier_key s.id) st.cache)) [
          | inl miss ↦ elim (Answer-cases (fetch netip client s)) [
            | inl (ps, f) ↦
                ap seen (
                  follow-turn st s ss (go_on (stored st s ps))
                    (turn_miss st s miss ∙ ap (use_fetched netip client st s) f))
                ∙ resolve_from_lem (stored st s ps) ss (Sound-insert st.cache s ps sound f)
                ∙ outcome-and_then st.resolved (entries netip client s ps) (direct ss)
                ∙ ap (outcome st.resolved) (sym (direct-fetch s ss ps f))
            | inr (e, f) ↦
                ap seen (
                  follow-turn st s ss (give_up st.warnings e)
                    (turn_miss st s miss ∙ ap (use_fetched netip client st s) f))
                ∙ ap (outcome st.resolved) (sym (direct-err s ss e f))
          ]
          | inr (ps, hit) ↦
              ap seen (follow-turn st s ss (go_on (kept st s ps)) (turn_hit st s ps hit))
              ∙ resolve_from_lem (kept st s ps) ss sound
              ∙ outcome-and_then st.resolved (entries netip client s ps) (direct ss)
              ∙ ap (outcome st.resolved) (sym (direct-fetch s ss ps (sound s ps hit)))
        ]

    -- If subnets with one cache key are always resolved to one answer, resolving with the cache gives
    -- the error and the node subnets that resolving every subnet on its own gives.
    pub resolve-direct :
        (ss : List Subnet) → seen (resolve_node_subnets netip client ss) ≡ outcome [] (direct ss)
    unfolding resolve_node_subnets lookup
    resolve-direct ss =
        resolve_from_lem (record { resolved = []; warnings = []; cache = [] }) ss
          (λ s ps l. absurd (cc l))

  -- Of two subnets with one cache key, whatever their Prism Element clusters, the second gets the
  -- prefixes that the first is resolved to.
  pub cached_by_key :
      (s t : Subnet) (ps : List Prefix)
      → identifier_key t.id ≡ identifier_key s.id
      → fetch netip client s ≡ ok ps
      → seen (resolve_node_subnets netip client (s ∷ t ∷ []))
        ≡ (none, entries netip client s ps ++ entries netip client t ps)
  unfolding resolve_node_subnets resolve_from use_fetched use_cached follow stored kept lookup
  cached_by_key s t ps k f =
      let law = lookup-insert (identifier_key s.id) (identifier_key s.id) ps [] in
      let own : lookup (identifier_key s.id) (insert (identifier_key s.id) ps []) ≡ some ps =
        rw (text_eq_refl (identifier_key s.id)) at law in
      let hit : lookup (identifier_key t.id) (insert (identifier_key s.id) ps []) ≡ some ps =
        rw k own in
      ap seen (
        follow-turn empty s (t ∷ []) (go_on (stored empty s ps))
          (turn_miss empty s refl ∙ ap (use_fetched netip client empty s) f))
      ∙ ap seen (
          follow-turn (stored empty s ps) t [] (go_on (kept (stored empty s ps) t ps))
            (turn_hit (stored empty s ps) t ps hit))
