-- ===== src/FailureDomains/Decision/Trigger.antt =====
-- What the counts of machines and the trigger mean in terms of machines and failure domains.
use cluster_api_runtime_exte.Prelude.{
  ℕ, zero, suc, ◌+◌, ◌≡◌, refl, sym, ◌∙◌, ◌↔◌, Bool, true, false, not, ◌&&◌, List, [], ◌∷◌, Option,
  none, some, Text, arith, is_empty, text_eq, text_eq_iff, lookup, insert, lookup-insert, all,
  if◌then◌else◌,
}
use cluster_api_runtime_exte.FailureDomains.Distribution.{Counts, should_improve}
use cluster_api_runtime_exte.FailureDomains.Decision.{
  FailureDomain, Machine, Kcp, deref_bool, is_set, increment, count_machines, distribution,
  add_domains, domains_map, available_domains, domain_reason, or_else, first_reason, should_trigger,
}

-- A machine that counts: it is not being deleted and stands in a failure domain.
abbrev pub is_live : Machine → Bool
is_live m = not (is_set m.deletion_timestamp) && not (is_empty m.failure_domain)

abbrev pub live_count : Text → List Machine → ℕ
live_count fd [] = 0
live_count fd (m ∷ ms) =
    let rest = live_count fd ms in
    if is_live m && text_eq m.failure_domain fd then suc rest else rest

abbrev pub found_count : ℕ → Option ℕ
found_count zero = none
found_count (suc n) = some (suc n)

abbrev plus : Option ℕ → ℕ → Option ℕ
plus none n = found_count n
plus (some a) n = some (a + n)

lookup-increment :
    (j k : Text) (d : Counts)
    → lookup j (increment k d) ≡ (if text_eq k j then plus (lookup k d) 1 else lookup j d)
unfolding lookup increment
lookup-increment j k [] = ground arith
lookup-increment j k ((i, n) ∷ d) =
    ground (arith, text_eq_iff k j, text_eq_iff i k, text_eq_iff i j, lookup-increment j k d)

both_counted : (o : Option ℕ) (n : ℕ) → plus (plus o 1) n ≡ plus o (suc n)
both_counted none n = ground arith
both_counted (some a) n = ground arith

plus_zero : (o : Option ℕ) → plus o 0 ≡ o
plus_zero none = refl
plus_zero (some a) = ground arith

lookup-count_machines :
    (j : Text) (d : Counts) (ms : List Machine)
    → lookup j (count_machines d ms) ≡ plus (lookup j d) (live_count j ms)
unfolding count_machines
lookup-count_machines j d [] = sym (plus_zero (lookup j d))
lookup-count_machines j d (m ∷ ms) =
    let fd = m.failure_domain in
    ground (
      arith,
      lookup-count_machines j d ms,
      lookup-count_machines j (increment fd d) ms,
      lookup-increment j fd d,
      text_eq_iff fd j,
      both_counted (lookup j d) (live_count j ms),
    )

-- The distribution gives a failure domain the number of its machines that are not being deleted,
-- and has no entry for a domain without such machines.
pub lookup-distribution :
    (fd : Text) (machines : List Machine)
    → lookup fd (distribution machines) ≡ found_count (live_count fd machines)
unfolding distribution lookup
lookup-distribution fd machines = lookup-count_machines fd [] machines

-- The last failure domain of that name in the status.
abbrev pub find_last : Text → List FailureDomain → Option FailureDomain
find_last name [] = none
find_last name (fd ∷ fds) = elim (find_last name fds) [
  | some later ↦ some later
  | none ↦ if text_eq fd.name name then some fd else none
]

abbrev later_or : Option FailureDomain → Option FailureDomain → Option FailureDomain
later_or none o = o
later_or (some fd) o = some fd

lookup-add_domains :
    (name : Text) (m : List (Text × FailureDomain)) (fds : List FailureDomain)
    → lookup name (add_domains m fds) ≡ later_or (find_last name fds) (lookup name m)
unfolding add_domains
lookup-add_domains name m [] = refl
lookup-add_domains name m (fd ∷ fds) =
    lookup-add_domains name (insert fd.name fd m) fds
    ∙ ground (arith, lookup-insert fd.name name fd m)

later_or-none : (o : Option FailureDomain) → later_or o none ≡ o
later_or-none none = refl
later_or-none (some fd) = refl

lookup-domains_map :
    (name : Text) (fds : List FailureDomain) → lookup name (domains_map fds) ≡ find_last name fds
unfolding domains_map lookup
lookup-domains_map name fds = lookup-add_domains name [] fds ∙ later_or-none (find_last name fds)

-- The domain is there and takes control plane machines.
abbrev pub takes_control_plane : Option FailureDomain → Bool
takes_control_plane none = false
takes_control_plane (some fd) = deref_bool fd.control_plane

abbrev pub is_enabled : List FailureDomain → Text → Bool
is_enabled fds name = takes_control_plane (find_last name fds)

-- Every machine that counts stands in an enabled domain.
abbrev pub all_enabled : List FailureDomain → List Machine → Bool
all_enabled fds machines =
    all (λ m. if is_live m then is_enabled fds m.failure_domain else true) machines

module _ (q : Text → Bool) where
  keys-increment :
      (k : Text) (d : Counts) → all (λ e. q e.0) (increment k d) ≡ (q k && all (λ e. q e.0) d)
  unfolding increment
  keys-increment k [] = refl
  keys-increment k ((j, n) ∷ d) = ground (arith, text_eq_iff j k, keys-increment k d)

  keys-count_machines :
      (d : Counts) (ms : List Machine)
      → all (λ e. q e.0) (count_machines d ms)
        ≡ (all (λ e. q e.0) d && all (λ m. if is_live m then q m.failure_domain else true) ms)
  unfolding count_machines
  keys-count_machines d [] = ground arith
  keys-count_machines d (m ∷ ms) = ground (
    arith,
    keys-count_machines d ms,
    keys-count_machines (increment m.failure_domain d) ms,
    keys-increment m.failure_domain d,
  )

first_reason-none :
    (fds : List FailureDomain) (d : Counts)
    → (first_reason (domains_map fds) d ≡ none) ↔ (all (λ e. is_enabled fds e.0) d ≡ true)
unfolding first_reason domain_reason or_else
first_reason-none fds [] = (λ h. refl, λ h. refl)
first_reason-none fds (e ∷ d) = ground (arith, lookup-domains_map e.0 fds, first_reason-none fds d)

first_reason_machines :
    (fds : List FailureDomain) (machines : List Machine)
    → (first_reason (domains_map fds) (distribution machines) ≡ none)
      ↔ (all_enabled fds machines ≡ true)
unfolding distribution
first_reason_machines fds machines = ground (
  arith,
  first_reason-none fds (count_machines [] machines),
  keys-count_machines (is_enabled fds) [] machines,
)

-- No rollout is triggered exactly if every machine that is not being deleted and stands in a failure
-- domain stands in one that the status lists as taking control plane machines, and the distribution
-- is not to be improved on the available failure domains.
pub should_trigger-none :
    (fds : List FailureDomain) (kcp : Kcp) (machines : List Machine)
    → (should_trigger fds kcp machines ≡ none) ↔ (
        (all_enabled fds machines ≡ true)
        × (should_improve kcp.replicas (distribution machines) (available_domains fds) ≡ false))
unfolding should_trigger or_else
should_trigger-none fds kcp machines = ground (arith, first_reason_machines fds machines)
