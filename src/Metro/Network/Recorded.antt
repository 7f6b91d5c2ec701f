-- ===== src/Metro/Network/Recorded.antt =====
-- What metroSubnetAttributes holds of the subnets that were seen.
use cluster_api_runtime_exte.Prelude.{
  ◌≡◌, refl, sym, subst, false, List, [], ◌∷◌, Option, none, some, Text, text_eq, text_eq_refl,
  text_eq_iff, is_empty, lookup, lookup-insert, Any, if◌then◌else◌, Bool-cases, ◌⊎◌, inl, inr,
}
use cluster_api_runtime_exte.Prism.{PcSubnet}
use cluster_api_runtime_exte.Metro.Elements.{add_element}
use cluster_api_runtime_exte.Metro.Elements.Distinct.{In, In-add_self, In-add_old, In-add}
use cluster_api_runtime_exte.Metro.Network.{
  Attributes, subnet_layer_name, subnet_profile_key, on_other_element, add_vpc, known_profiles,
  add_profile, note_subnet, note_subnets,
}
use cluster_api_runtime_exte.Metro.Network.Sets.{In-insert_self, In-insert_old}

abbrev pub profiles_of : Text → Attributes → List Text
profiles_of fd attrs = known_profiles (lookup fd attrs.profiles_by_failure_domain)

-- Nothing that is recorded is lost.
pub record Grows (a b : Attributes) : Type 0 where
  pub layers_stay : (l : Text) → In l a.layers → In l b.layers
  pub vpcs_stay : (v : Text) → In v a.vpc_references → In v b.vpc_references
  pub profiles_stay : (fd p : Text) → In p (profiles_of fd a) → In p (profiles_of fd b)

pub Grows-refl : (a : Attributes) → Grows a a
Grows-refl a = record { layers_stay = λ l i. i; vpcs_stay = λ v i. i; profiles_stay = λ fd p i. i }

pub Grows-trans : (a b c : Attributes) → Grows a b → Grows b c → Grows a c
Grows-trans a b c g h = record {
  layers_stay = λ l i. h.layers_stay l (g.layers_stay l i);
  vpcs_stay = λ v i. h.vpcs_stay v (g.vpcs_stay v i);
  profiles_stay = λ fd p i. h.profiles_stay fd p (g.profiles_stay fd p i);
}

pub record Recorded (fd : Text) (s : PcSubnet) (attrs : Attributes) : Type 0 where
  pub layer_in : In (subnet_layer_name s.subnet_type) attrs.layers
  pub vpc_in :
      (v : Text) → s.vpc_reference ≡ some v → is_empty v ≡ false → In v attrs.vpc_references
  pub profile_in : In (subnet_profile_key s) (profiles_of fd attrs)

pub Recorded-Grows :
    (fd : Text) (s : PcSubnet) (a b : Attributes) → Grows a b → Recorded fd s a → Recorded fd s b
Recorded-Grows fd s a b g r = record {
  layer_in = g.layers_stay (subnet_layer_name s.subnet_type) r.layer_in;
  vpc_in = λ v e full. g.vpcs_stay v (r.vpc_in v e full);
  profile_in = g.profiles_stay fd (subnet_profile_key s) r.profile_in;
}

vpc-In_old : (o : Option Text) (refs : List Text) (v : Text) → In v refs → In v (add_vpc o refs)
unfolding add_vpc
vpc-In_old none refs v a = a
vpc-In_old (some w) refs v a = elim (Bool-cases (is_empty w)) [
  | inl e ↦ rw (add_vpc, e) a
  | inr e ↦ rw (add_vpc, e) (In-insert_old v w refs a)
]

vpc-In_self :
    (o : Option Text) (refs : List Text) (v : Text)
    → o ≡ some v
    → is_empty v ≡ false
    → In v (add_vpc o refs)
unfolding add_vpc
vpc-In_self o refs v e full = rw (e, add_vpc, full) (In-insert_self v refs)

abbrev profiles_in : Text → List (Text × List Text) → List Text
profiles_in fd m = known_profiles (lookup fd m)

profiles-add :
    (fd fe p : Text) (m : List (Text × List Text))
    → profiles_in fe (add_profile fd p m)
      ≡ (if text_eq fd fe then add_element (profiles_in fd m) p else profiles_in fe m)
unfolding add_profile
profiles-add fd fe p m = elim (Bool-cases (text_eq fd fe)) [
  | inl e ↦ rw (add_profile, lookup-insert fd fe (add_element (profiles_in fd m) p) m, e) refl
  | inr e ↦ rw (add_profile, lookup-insert fd fe (add_element (profiles_in fd m) p) m, e) refl
]

profile-In_self :
    (fd p : Text) (m : List (Text × List Text)) → In p (profiles_in fd (add_profile fd p m))
profile-In_self fd p m =
    rw (profiles-add fd fd p m, text_eq_refl fd) (In-add_self (profiles_in fd m) p)

profile-In_old :
    (fd fe p q : Text) (m : List (Text × List Text))
    → In q (profiles_in fe m)
    → In q (profiles_in fe (add_profile fd p m))
profile-In_old fd fe p q m a = elim (Bool-cases (text_eq fd fe)) [
  | inl e ↦
      let same : fd ≡ fe = (text_eq_iff fd fe).0 e in
      rw (profiles-add fd fe p m, e)
        (In-add_old q (profiles_in fd m) p
          (subst (λ (f : Text). In q (profiles_in f m)) (sym same) a))
  | inr e ↦ rw (profiles-add fd fe p m, e) a
]

-- A profile that is there was there, or is the one added.
pub profile-In :
    (fd fe p q : Text) (m : List (Text × List Text))
    → In q (profiles_in fe (add_profile fd p m))
    → In q (profiles_in fe m) ⊎ ((fd ≡ fe) × (q ≡ p))
profile-In fd fe p q m a = elim (Bool-cases (text_eq fd fe)) [
  | inl e ↦
      let same : fd ≡ fe = (text_eq_iff fd fe).0 e in
      elim (In-add q (profiles_in fd m) p (rw (profiles-add fd fe p m, e) at a)) [
        | inl b ↦ inl (subst (λ (f : Text). In q (profiles_in f m)) same b)
        | inr s ↦ inr (same, s)
      ]
  | inr e ↦ inl (rw (profiles-add fd fe p m, e) at a)
]

pub note-Grows :
    (fd pe : Text) (attrs : Attributes) (s : PcSubnet) → Grows attrs (note_subnet fd pe attrs s)
unfolding note_subnet
note-Grows fd pe attrs s = elim (Bool-cases (on_other_element s.cluster_reference pe)) [
  | inl e ↦ rw (note_subnet, e) (Grows-refl attrs)
  | inr e ↦
      rw (note_subnet, e)
        (record {
          layers_stay = λ l i. In-insert_old l (subnet_layer_name s.subnet_type) attrs.layers i;
          vpcs_stay = λ v i. vpc-In_old s.vpc_reference attrs.vpc_references v i;
          profiles_stay = λ fe q i.
              profile-In_old fd fe (subnet_profile_key s) q attrs.profiles_by_failure_domain i;
        })
]

note-Recorded :
    (fd pe : Text) (attrs : Attributes) (s : PcSubnet)
    → on_other_element s.cluster_reference pe ≡ false
    → Recorded fd s (note_subnet fd pe attrs s)
unfolding note_subnet
note-Recorded fd pe attrs s e =
    rw (note_subnet, e)
      (record {
        layer_in = In-insert_self (subnet_layer_name s.subnet_type) attrs.layers;
        vpc_in = λ v p full. vpc-In_self s.vpc_reference attrs.vpc_references v p full;
        profile_in = profile-In_self fd (subnet_profile_key s) attrs.profiles_by_failure_domain;
      })

pub notes-Grows :
    (fd pe : Text) (attrs : Attributes) (ss : List PcSubnet)
    → Grows attrs (note_subnets fd pe attrs ss)
unfolding note_subnets
notes-Grows fd pe attrs [] = Grows-refl attrs
notes-Grows fd pe attrs (s ∷ ss) =
    let next = note_subnet fd pe attrs s in
    Grows-trans attrs next (note_subnets fd pe next ss) (note-Grows fd pe attrs s)
      (notes-Grows fd pe next ss)

pub notes-Recorded :
    (fd pe : Text) (attrs : Attributes) (ss : List PcSubnet) (s : PcSubnet)
    → on_other_element s.cluster_reference pe ≡ false
    → Any (λ t. t ≡ s) ss
    → Recorded fd s (note_subnets fd pe attrs ss)
unfolding note_subnets
notes-Recorded fd pe attrs [] s here a = absurd a
notes-Recorded fd pe attrs (t ∷ ss) s here (inr a) =
    notes-Recorded fd pe (note_subnet fd pe attrs t) ss s here a
notes-Recorded fd pe attrs (t ∷ ss) s here (inl p) =
    let next = note_subnet fd pe attrs s in
    subst (λ (u : PcSubnet). Recorded fd s (note_subnets fd pe (note_subnet fd pe attrs u) ss))
      (sym p)
      (Recorded-Grows fd s next (note_subnets fd pe next ss) (notes-Grows fd pe next ss)
        (note-Recorded fd pe attrs s here))
