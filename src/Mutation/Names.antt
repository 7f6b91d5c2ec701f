-- ===== src/Mutation/Names.antt =====
-- Which names of classes a MachineDeployment's class matches.
use cluster_api_runtime_exte.Prelude.{
  ◌≡◌, ◌↔◌, refl, sym, ap, ◌∙◌, subst, true, ◌||◌, List, [], ◌∷◌, ◌++◌, some, Option-cases, Text,
  codes, text_eq, text_eq_iff, text_eq_refl, any, Any, ◌==◌, ==_iff, Bool-cases, ◌⊎◌, inl, inr,
  or_split, or_left, or_right, arith,
}
use cluster_api_runtime_exte.Prism.{ok}
use cluster_api_runtime_exte.Mutation.{
  HolderReference, matches_machine_deployment_class, class_matches, has_prefix, has_suffix, star,
  after_star, with_head, before_star, ends_with, starts_with, matches_name,
}

has_prefix-append : (p s : Text) → has_prefix p s ≡ true → (t : Text) × (s ≡ p ++ t)
unfolding has_prefix
has_prefix-append [] s h = (s, refl)
has_prefix-append (c ∷ p) [] h = absurd (cc h)
has_prefix-append (c ∷ p) (d ∷ s) h =
    let same : c ≡ d = (==_iff c d).0 (ground (arith, h)) in
    let (t, e) = has_prefix-append p s (ground (arith, h)) in (t, cc (same, e))

append-has_prefix : (p t : Text) → has_prefix p (p ++ t) ≡ true
unfolding has_prefix
append-has_prefix [] t = refl
append-has_prefix (c ∷ p) t =
    let same = (==_iff c c).1 refl in ground (arith, same, append-has_prefix p t)

has_suffix-append : (t s : Text) → has_suffix t s ≡ true → (p : Text) × (s ≡ p ++ t)
unfolding has_suffix
has_suffix-append t [] h = ([], (text_eq_iff [] t).0 h)
has_suffix-append t (c ∷ s) h = elim (or_split (text_eq (c ∷ s) t) (has_suffix t s) h) [
  | inl e ↦ ([], (text_eq_iff (c ∷ s) t).0 e)
  | inr e ↦ let (p, q) = has_suffix-append t s e in (c ∷ p, cc q)
]

has_suffix_self : (t : Text) → has_suffix t t ≡ true
unfolding has_suffix
has_suffix_self [] = text_eq_refl []
has_suffix_self (c ∷ t) =
    or_left (text_eq (c ∷ t) (c ∷ t)) (has_suffix (c ∷ t) t) (text_eq_refl (c ∷ t))

append-has_suffix : (p t : Text) → has_suffix t (p ++ t) ≡ true
unfolding has_suffix
append-has_suffix [] t = has_suffix_self t
append-has_suffix (c ∷ p) t =
    or_right (text_eq (c ∷ (p ++ t)) t) (has_suffix t (p ++ t)) (append-has_suffix p t)

after_star_lem : (n t : Text) → after_star n ≡ some t → n ≡ star ∷ t
unfolding after_star
after_star_lem [] t h = absurd (cc h)
after_star_lem (c ∷ n) t h = elim (Bool-cases (c == star)) [
  | inl e ↦
      let first : c ≡ star = (==_iff c star).0 e in
      let rest : some n ≡ some t = rw (e, after_star) at h in cc (first, rest)
  | inr e ↦ absurd (cc (rw (e, after_star) at h))
]

before_star_lem : (n p : Text) → before_star n ≡ some p → n ≡ p ++ (star ∷ [])
unfolding before_star with_head
before_star_lem [] p h = absurd (cc h)
before_star_lem (c ∷ []) p h = elim (Bool-cases (c == star)) [
  | inl e ↦
      let first : c ≡ star = (==_iff c star).0 e in
      let rest : some [] ≡ some p = rw (e, before_star) at h in
      let nothing : [] ≡ p = cc rest in
      subst (λ (q : Text). c ∷ [] ≡ q ++ (star ∷ [])) nothing (cc first)
  | inr e ↦ absurd (cc (rw (e, before_star) at h))
]
before_star_lem (c ∷ d ∷ n) p h = elim (Option-cases (before_star (d ∷ n))) [
  | inl e ↦ absurd (cc (rw (e, before_star, with_head) at h))
  | inr (q, e) ↦
      let rest = before_star_lem (d ∷ n) q e in
      let whole : some (c ∷ q) ≡ some p = rw (e, before_star, with_head) at h in
      let same : c ∷ q ≡ p = cc whole in
      subst (λ (r : Text). c ∷ d ∷ n ≡ r ++ (star ∷ [])) same (cc rest)
]

snoc-before_star : (p : Text) → before_star (p ++ (star ∷ [])) ≡ some p
unfolding before_star with_head
snoc-before_star [] = refl
snoc-before_star (c ∷ []) = refl
snoc-before_star (c ∷ d ∷ p) = let rest = snoc-before_star (d ∷ p) in ap (with_head c) rest

-- A name is a star, the class itself, a star and an end of the class, or a beginning of it and a star.
abbrev pub NameMatches : Text → Text → Type 0
NameMatches class n =
    ((n ≡ codes "*") ⊎ (n ≡ class))
    ⊎ (((t : Text) × ((p : Text) × (n ≡ star ∷ t) × (class ≡ p ++ t)))
        ⊎ ((p : Text) × ((t : Text) × (n ≡ p ++ (star ∷ [])) × (class ≡ p ++ t))))

-- A template of a MachineDeployment: its bootstrap configuration or its machines.
pub record OfWorkers (h : HolderReference) : Type 0 where
  pub is_deployment : h.kind ≡ codes "MachineDeployment"
  pub is_template :
      (h.field_path ≡ codes "spec.template.spec.bootstrap.configRef")
      ⊎ (h.field_path ≡ codes "spec.template.spec.infrastructureRef")

ends-NameMatches : (class n : Text) → ends_with class (after_star n) ≡ true → NameMatches class n
ends-NameMatches class n h = elim (Option-cases (after_star n)) [
  | inl e ↦ absurd (cc (rw e at h))
  | inr (t, e) ↦
      let (p, q) = has_suffix-append t class (rw e at h) in
      inr (inl (t, (p, after_star_lem n t e, q)))
]

starts-NameMatches :
    (class n : Text) → starts_with class (before_star n) ≡ true → NameMatches class n
starts-NameMatches class n h = elim (Option-cases (before_star n)) [
  | inl e ↦ absurd (cc (rw e at h))
  | inr (p, e) ↦
      let (t, q) = has_prefix-append p class (rw e at h) in
      inr (inr (p, (t, before_star_lem n p e, q)))
]

module _ (quote unquote : Text → Text) (inverse : (c : Text) → unquote (quote c) ≡ c) where
  quote_injective : (a b : Text) → quote a ≡ quote b → a ≡ b
  quote_injective a b e = sym (inverse a) ∙ ap unquote e ∙ inverse b

  name-NameMatches :
      (class n : Text) → matches_name quote unquote (quote class) n ≡ true → NameMatches class n
  unfolding matches_name
  name-NameMatches class n h =
      let h = rw (inverse class, matches_name) at h in
      elim (or_split (text_eq n (codes "*") || text_eq (quote class) (quote n))
        (ends_with class (after_star n) || starts_with class (before_star n)) h) [
          | inl a ↦ elim (or_split (text_eq n (codes "*")) (text_eq (quote class) (quote n)) a) [
            | inl e ↦ inl (inl ((text_eq_iff n (codes "*")).0 e))
            | inr e ↦
                inl
                  (inr (sym (quote_injective class n ((text_eq_iff (quote class) (quote n)).0 e))))
          ]
          | inr a ↦
              elim (or_split (ends_with class (after_star n)) (starts_with class (before_star n))
                a) [ inl e ↦ ends-NameMatches class n e | inr e ↦ starts-NameMatches class n e ]
        ]

  NameMatches-name :
      (class n : Text) → NameMatches class n → matches_name quote unquote (quote class) n ≡ true
  unfolding matches_name
  NameMatches-name class n (inl (inl e)) =
      let t = (text_eq_iff n (codes "*")).1 e in ground (arith, t)
  NameMatches-name class n (inl (inr e)) =
      let t = (text_eq_iff (quote class) (quote n)).1 (ap quote (sym e)) in ground (arith, t)
  NameMatches-name class n (inr (inl (t, (p, e, q)))) =
      let there : ends_with (unquote (quote class)) (after_star n) ≡ true =
        rw (inverse class, q, e) (append-has_suffix p t) in
      ground (arith, there)
  NameMatches-name class n (inr (inr (p, (t, e, q)))) =
      let there : starts_with (unquote (quote class)) (before_star n) ≡ true =
        rw (inverse class, q, e, snoc-before_star p) (append-has_prefix p t) in
      ground (arith, there)

  names-NameMatches :
      (class : Text) (names : List Text)
      → (any (matches_name quote unquote (quote class)) names ≡ true)
        ↔ Any (NameMatches class) names
  names-NameMatches class [] = (λ h. absurd (cc h), λ a. absurd a)
  names-NameMatches class (n ∷ ns) =
      let rest = names-NameMatches class ns in
      (
        λ h.
            elim (or_split (matches_name quote unquote (quote class) n)
              (any (matches_name quote unquote (quote class)) ns) h) [
                | inl e ↦ inl (name-NameMatches class n e)
                | inr e ↦ inr (rest.0 e)
              ],
        λ a. elim a [
          | inl b ↦
              or_left (matches_name quote unquote (quote class) n)
                (any (matches_name quote unquote (quote class)) ns) (NameMatches-name class n b)
          | inr b ↦
              or_right (matches_name quote unquote (quote class) n)
                (any (matches_name quote unquote (quote class)) ns) (rest.1 b)
        ],
      )

  -- A selector of classes matches a holder, when the class of the MachineDeployment can be read,
  -- exactly if the holder is a template of a MachineDeployment and one of the names is a star, the
  -- class, a star and an end of the class, or a beginning of the class and a star. The functions quote
  -- and unquote are inverse.
  pub matches_machine_deployment_class-NameMatches :
      (h : HolderReference) (names : List Text) (class : Text)
      → (matches_machine_deployment_class quote unquote h names (ok (quote class)) ≡ true)
        ↔ (OfWorkers h × Any (NameMatches class) names)
  unfolding matches_machine_deployment_class class_matches
  matches_machine_deployment_class-NameMatches h names class =
      let all_names = names-NameMatches class names in
      let kind = text_eq_iff h.kind (codes "MachineDeployment") in
      let config = text_eq_iff h.field_path (codes "spec.template.spec.bootstrap.configRef") in
      let machines = text_eq_iff h.field_path (codes "spec.template.spec.infrastructureRef") in
      (
        λ m.
            let is_kind : text_eq h.kind (codes "MachineDeployment") ≡ true = ground (arith, m) in
            let some_name : any (matches_name quote unquote (quote class)) names ≡ true =
              ground (arith, m) in
            let path : (text_eq h.field_path (codes "spec.template.spec.bootstrap.configRef")
                  || text_eq h.field_path (codes "spec.template.spec.infrastructureRef"))
                ≡ true =
              ground (arith, m) in
            (
              record {
                is_deployment = kind.0 is_kind;
                is_template =
                    elim (or_split
                      (text_eq h.field_path (codes "spec.template.spec.bootstrap.configRef"))
                      (text_eq h.field_path (codes "spec.template.spec.infrastructureRef")) path) [
                        | inl e ↦ inl (config.0 e)
                        | inr e ↦ inr (machines.0 e)
                      ];
              },
              all_names.0 some_name,
            ),
        λ (w, a).
            let is_kind = kind.1 w.is_deployment in
            let some_name = all_names.1 a in
            elim w.is_template [
              | inl e ↦ let p = config.1 e in ground (arith, is_kind, some_name, p)
              | inr e ↦ let p = machines.1 e in ground (arith, is_kind, some_name, p)
            ],
      )
