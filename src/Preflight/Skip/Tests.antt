-- ===== src/Preflight/Skip/Tests.antt =====
-- The skip annotation at a few values.
use cluster_api_runtime_exte.Prelude.{◌≡◌, refl, ◌↔◌, true, false, List, [], ◌∷◌, Text, codes}
use cluster_api_runtime_exte.Preflight.Skip.{skip_annotation_key, normalize, new, skips, skips_all}
use cluster_api_runtime_exte.Preflight.Skip.Laws.{asked_of, IsAllOnly, skips_all-new}
use cluster_api_runtime_exte.Prelude.{lookup, text_eq, to_lower, trim_space, split_on}

abbrev annotated : List (Text × Text)
annotated = (skip_annotation_key, codes "Registry, ,NutanixVMImage ") ∷ []

abbrev annotated_all : List (Text × Text)
annotated_all = (skip_annotation_key, codes " ALL,") ∷ []

abbrev annotated_all_and_more : List (Text × Text)
annotated_all_and_more = (skip_annotation_key, codes "all,Registry") ∷ []

skips_listed : skips (new annotated) (codes "nutanixvmimage") ≡ true
unfolding skips new normalize codes text_eq lookup to_lower trim_space split_on
skips_listed = refl

skips_other : skips (new annotated) (codes "NutanixCIDRValidation") ≡ false
unfolding skips new normalize codes text_eq lookup to_lower trim_space split_on
skips_other = refl

skips_all_alone : skips_all (new annotated_all) ≡ true
unfolding skips_all new normalize codes text_eq lookup to_lower trim_space split_on
skips_all_alone = refl

skips_all_with_more : skips_all (new annotated_all_and_more) ≡ false
unfolding skips_all new normalize codes text_eq lookup to_lower trim_space split_on
skips_all_with_more = refl

skips_all-new_example : (skips_all (new annotated_all) ≡ true) ↔ IsAllOnly (asked_of annotated_all)
skips_all-new_example = skips_all-new annotated_all
