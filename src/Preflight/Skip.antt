-- ===== src/Preflight/Skip.antt =====
-- pkg/webhook/preflight/skip/skip.go: which checks a cluster's annotation asks to skip.
-- The Go map `normalizedCheckNames` of empty structs is a list without repetitions.
pub mod Laws
pub mod Tests
use cluster_api_runtime_exte.Prelude.{
  Bool, true, false, ◌&&◌, ◌||◌, List, [], ◌∷◌, Option, none, some, Text, codes, text_eq, is_empty,
  to_lower, trim_space, split_on, lookup, any, length, ◌==◌, if◌then◌else◌,
}

pub record Evaluator : Type 0 where
  pub names : List Text
  pub all : Bool

abbrev pub skip_annotation_key : Text
skip_annotation_key = codes "preflight.cluster.caren.nutanix.com/skip"

abbrev pub skip_all_value : Text
skip_all_value = codes "all"

unfoldable pub normalize : Text → Text
normalize s = trim_space (to_lower s)

unfoldable pub contains : Text → List Text → Bool
contains k names = any (text_eq k) names

add_name : Text → List Text → List Text
unfolding contains
add_name k names = if contains k names then names else k ∷ names

-- The loop over the pieces of the annotation.
collect : List Text → List Text → List Text
unfolding add_name
collect names [] = names
collect names (piece ∷ pieces) =
    collect (if is_empty piece then names else add_name (normalize piece) names) pieces

evaluate : Text → Evaluator
unfolding collect contains
evaluate value =
    let names = collect [] (split_on b',' value) in
    record { names = names; all = contains skip_all_value names && length names == 1 }

from_value : Option Text → Evaluator
unfolding evaluate
from_value none = record { names = []; all = false }
from_value (some value) = evaluate value

-- `New`: no annotations, and no annotation of this key, give an evaluator that skips nothing.
unfoldable pub new : List (Text × Text) → Evaluator
unfolding from_value
new annotations = from_value (lookup skip_annotation_key annotations)

-- `For`.
unfoldable pub skips : Evaluator → Text → Bool
unfolding contains
skips o name = if o.all then true else contains (normalize name) o.names

-- `ForAll`.
unfoldable pub skips_all : Evaluator → Bool
skips_all o = o.all
