-- ===== src/Metro/Elements/Span.antt =====
-- How many Prism Elements a cluster spans.
use cluster_api_runtime_exte.Prelude.{
  ◌≡◌, ◌≢◌, ◌↔◌, refl, sym, subst, true, List, [], ◌∷◌, none, Text, length, Any, All, ◌⊎◌, inl, inr,
  arith,
}
use cluster_api_runtime_exte.Prism.{Client, Answer, ok, err}
use cluster_api_runtime_exte.Metro.Report.{Complaint, fail_check, fail_check_internal}
use cluster_api_runtime_exte.Metro.Domains.{Kube}
use cluster_api_runtime_exte.Metro.Elements.Distinct.{
  In, Distinct, add-Distinct, In-add_self, In-add_old, In-add, length_two,
}
use cluster_api_runtime_exte.Metro.Elements.{
  failure_domain_prism_element, add_element, Elements, elements, no_element, collect_elements,
  scale_verdict, run_scale,
}

pub Answer-cases : {A : Type 0} (a : Answer A) → ((u : A) × (a ≡ ok u)) ⊎ ((e : Text) × (a ≡ err e))
Answer-cases (ok u) = inl (u, refl)
Answer-cases (err e) = inr (e, refl)

module _ (kube : Kube) (client : Client) where
  abbrev pub Element : Text → Text → Type 0
  Element fd u = failure_domain_prism_element kube client fd ≡ ok u

  -- What the loop has collected.
  pub record Collected (old names out : List Text) : Type 0 where
    all_known : All (λ fd. (u : Text) × Element fd u × In u out) names
    kept : (x : Text) → In x old → In x out
    only : (x : Text) → In x out → In x old ⊎ Any (λ fd. Element fd x) names
    distinct : Distinct old → Distinct out

  elements_injective : (xs ys : List Text) → elements xs ≡ elements ys → xs ≡ ys
  elements_injective xs ys h = cc h

  only_of :
      (old : List Text) (fd u : Text) (names : List Text) (x : Text)
      → Element fd u
      → In x (add_element old u) ⊎ Any (λ d. Element d x) names
      → In x old ⊎ Any (λ d. Element d x) (fd ∷ names)
  only_of old fd u names x e (inr later) = inr (inr later)
  only_of old fd u names x e (inl a) = elim (In-add x old u a) [
    | inl b ↦ inl b
    | inr s ↦ inr (inl (subst (λ (v : Text). Element fd v) (sym s) e))
  ]

  pub collect-Collected :
      (names old out : List Text)
      → collect_elements kube client old names ≡ elements out
      → Collected old names out
  unfolding collect_elements
  collect-Collected [] old out h =
      let same : old ≡ out = elements_injective old out h in
      record {
        all_known = tt;
        kept = λ x a. subst (λ (xs : List Text). In x xs) same a;
        only = λ x a. inl (subst (λ (xs : List Text). In x xs) (sym same) a);
        distinct = λ d. subst Distinct same d;
      }
  collect-Collected (fd ∷ names) old out h =
      elim (Answer-cases (failure_domain_prism_element kube client fd)) [
        | inl (u, e) ↦
            let rest =
              collect-Collected names (add_element old u) out (rw (e, collect_elements) at h) in
            record {
              all_known = ((u, e, rest.kept u (In-add_self old u)), rest.all_known);
              kept = λ x a. rest.kept x (In-add_old x old u a);
              only = λ x a. only_of old fd u names x e (rest.only x a);
              distinct = λ d. rest.distinct (add-Distinct old u d);
            }
        | inr (e, p) ↦ let never = rw (p, collect_elements) at h in absurd (cc never)
      ]

  collect_known :
      (names old : List Text)
      → All (λ fd. (u : Text) × Element fd u) names
      → (out : List Text) × (collect_elements kube client old names ≡ elements out)
  unfolding collect_elements
  collect_known [] old known = (old, refl)
  collect_known (fd ∷ names) old known =
      let rest = collect_known names (add_element old known.0.0) known.1 in
      (rest.0, rw (known.0.1, collect_elements) rest.1)

  -- Every failure domain stands on one of two different Prism Elements, and on each stands one.
  pub record SpansTwo (names : List Text) : Type 0 where
    pub first : Text
    pub second : Text
    pub apart : first ≢ second
    pub on_two : All (λ fd. Element fd first ⊎ Element fd second) names
    pub on_first : Any (λ fd. Element fd first) names
    pub on_second : Any (λ fd. Element fd second) names

  Element-injective : (fd u v : Text) → Element fd u → Element fd v → u ≡ v
  Element-injective fd u v p q = cc (p, q)

  on_one :
      (x y : Text) (names : List Text)
      → All (λ fd. (u : Text) × Element fd u × In u (x ∷ y ∷ [])) names
      → All (λ fd. Element fd x ⊎ Element fd y) names
  on_one x y [] known = tt
  on_one x y (fd ∷ names) ((u, e, inl s), known) =
      (inl (subst (λ (v : Text). Element fd v) s e), on_one x y names known)
  on_one x y (fd ∷ names) ((u, e, inr (inl s)), known) =
      (inr (subst (λ (v : Text). Element fd v) s e), on_one x y names known)
  on_one x y (fd ∷ names) ((u, e, inr (inr n)), known) = absurd n

  stands :
      (names : List Text) (x : Text)
      → In x [] ⊎ Any (λ fd. Element fd x) names
      → Any (λ fd. Element fd x) names
  stands names x (inl n) = absurd n
  stands names x (inr a) = a

  Collected-SpansTwo :
      (names : List Text) (x y : Text) → Collected [] names (x ∷ y ∷ []) → SpansTwo names
  Collected-SpansTwo names x y c = record {
    first = x;
    second = y;
    apart = λ p. (c.distinct tt).0 (inl p);
    on_two = on_one x y names c.all_known;
    on_first = stands names x (c.only x (inl refl));
    on_second = stands names y (c.only y (inr (inl refl)));
  }

  pub length-SpansTwo :
      (names out : List Text) → Collected [] names out → length out ≡ 2 → SpansTwo names
  length-SpansTwo names [] c h = absurd (cc h)
  length-SpansTwo names (x ∷ []) c h = absurd (cc h)
  length-SpansTwo names (x ∷ y ∷ []) c h = Collected-SpansTwo names x y c
  length-SpansTwo names (x ∷ y ∷ z ∷ out) c h = ground arith

  one_of :
      (a b x : Text) (names : List Text)
      → All (λ fd. Element fd a ⊎ Element fd b) names
      → Any (λ fd. Element fd x) names
      → (x ≡ a) ⊎ (x ≡ b)
  one_of a b x [] two any_x = absurd any_x
  one_of a b x (fd ∷ names) (inl p, two) (inl e) = inl (Element-injective fd x a e p)
  one_of a b x (fd ∷ names) (inr p, two) (inl e) = inr (Element-injective fd x b e p)
  one_of a b x (fd ∷ names) (p, two) (inr later) = one_of a b x names two later

  In-Collected :
      (x : Text) (out names : List Text)
      → All (λ fd. (u : Text) × Element fd u × In u out) names
      → Any (λ fd. Element fd x) names
      → In x out
  In-Collected x out [] known any_x = absurd any_x
  In-Collected x out (fd ∷ names) ((u, e, a), known) (inl p) =
      subst (λ (v : Text). In v out) (Element-injective fd u x e p) a
  In-Collected x out (fd ∷ names) (k, known) (inr later) = In-Collected x out names known later

  known_of :
      (a b : Text) (names : List Text)
      → All (λ fd. Element fd a ⊎ Element fd b) names
      → All (λ fd. (u : Text) × Element fd u) names
  known_of a b [] two = tt
  known_of a b (fd ∷ names) (inl e, two) = ((a, e), known_of a b names two)
  known_of a b (fd ∷ names) (inr e, two) = ((b, e), known_of a b names two)

  SpansTwo-length :
      (names out : List Text) → Collected [] names out → SpansTwo names → length out ≡ 2
  SpansTwo-length names out c s =
      length_two out s.first s.second (c.distinct tt)
        (λ x a. one_of s.first s.second x names s.on_two (stands names x (c.only x a))) s.apart
        (In-Collected s.first out names c.all_known s.on_first)
        (In-Collected s.second out names c.all_known s.on_second)

  Elements-cases :
      (e : Elements)
      → ((out : List Text) × (e ≡ elements out))
        ⊎ ((fd : Text) × (m : Text) × (e ≡ no_element fd m))
  Elements-cases (elements out) = inl (out, refl)
  Elements-cases (no_element fd m) = inr (fd, m, refl)

module _ (say : Complaint → Text) (kube : Kube) (client : Client) where
  allowed-length :
      (field : Text) (names out : List Text)
      → (scale_verdict say kube client field names (elements out)).allowed ≡ true
      → length out ≡ 2
  unfolding scale_verdict fail_check
  allowed-length field names out h = ground (arith, h)

  -- The check of the failure domains' Prism Elements allows the cluster exactly when there are two
  -- different Prism Elements such that every failure domain stands on one of them and on each of them
  -- stands a failure domain. The names of the failure domains are known.
  pub run_scale-allowed :
      (field : Text) (names : List Text)
      → ((run_scale say kube client field names none).allowed ≡ true) ↔ SpansTwo kube client names
  unfolding run_scale scale_verdict fail_check fail_check_internal
  run_scale-allowed field names = (
    λ h. elim (Elements-cases kube client (collect_elements kube client [] names)) [
      | inl (out, e) ↦
          length-SpansTwo kube client names out (collect-Collected kube client names [] out e)
            (allowed-length field names out (rw e at h))
      | inr (fd, m, e) ↦ let never = rw e at h in absurd (cc never)
    ],
    λ s.
        let k =
          collect_known kube client names []
            (known_of kube client s.first s.second names s.on_two) in
        let two =
          SpansTwo-length kube client names k.0 (collect-Collected kube client names [] k.0 k.1)
            s in
        rw (k.1, two) refl,
  )
