-- ===== src/Metro/Sites/Names.antt =====
-- How long the names of a cluster and of its NutanixMetro may be.
use cluster_api_runtime_exte.Prelude.{
  ℕ, ◌+◌, ◌≡◌, ◌≤◌, ◌↔◌, refl, true, List, [], ◌∷◌, ◌++◌, Text, codes, length, length-append, leb,
  All, decimal, arith,
}
use cluster_api_runtime_exte.Preflight.{CheckResult}
use cluster_api_runtime_exte.Metro.Report.{Complaint, passed, fail_check}
use cluster_api_runtime_exte.Metro.Sites.{
  vha_domain_name, vha_category_value, check_category, check_categories, run_category_name,
}

abbrev tail : Text
tail = codes "-" ++ (codes "default" ++ (codes "-" ++ decimal 0))

length-tail : length tail ≡ 10
unfolding codes decimal
length-tail = refl

length-category :
    (cluster metro : Text)
    → length (vha_category_value (vha_domain_name cluster metro) (codes "default") 0)
      ≡ 24 + (length cluster + length metro)
unfolding vha_category_value vha_domain_name codes
length-category cluster metro = ground (
  arith,
  length-append (cluster ++ (codes "-" ++ metro)) tail,
  length-append cluster (codes "-" ++ metro),
  length-tail,
)

le_64 : (n : ℕ) → (leb (24 + n) 64 ≡ true) ↔ (n ≤ 40)
le_64 n = ground arith

module _ (say : Complaint → Text) (field : Text) where
  check_category-allowed :
      (cluster : Text) (r : CheckResult) (metro : Text)
      → ((check_category say field cluster r metro).allowed ≡ true)
        ↔ ((r.allowed ≡ true) × (length cluster + length metro ≤ 40))
  unfolding check_category fail_check
  check_category-allowed cluster r metro =
      let len = length-category cluster metro in
      ground (arith, len, le_64 (length cluster + length metro))

  check_categories-allowed :
      (cluster : Text) (r : CheckResult) (metros : List Text)
      → ((check_categories say field cluster r metros).allowed ≡ true)
        ↔ ((r.allowed ≡ true) × All (λ metro. length cluster + length metro ≤ 40) metros)
  unfolding check_categories
  check_categories-allowed cluster r [] = (λ h. (h, tt), λ h. h.0)
  check_categories-allowed cluster r (metro ∷ metros) =
      let one = check_category-allowed cluster r metro in
      let rest =
        check_categories-allowed cluster (check_category say field cluster r metro) metros in
      (
        λ h. let t = rest.0 h in let o = one.0 t.0 in (o.0, (o.1, t.1)),
        λ (a, (p, t)). rest.1 (one.1 (a, p), t),
      )

  -- The check of the category values allows the cluster exactly when the name of each of its
  -- NutanixMetros has, with the cluster's name, at most 40 characters.
  pub run_category_name-allowed :
      (cluster : Text) (metros : List Text)
      → ((run_category_name say field cluster metros).allowed ≡ true)
        ↔ All (λ metro. length cluster + length metro ≤ 40) metros
  unfolding run_category_name
  run_category_name-allowed cluster metros =
      let all = check_categories-allowed cluster passed metros in
      (λ h. (all.0 h).1, λ p. all.1 (refl, p))
