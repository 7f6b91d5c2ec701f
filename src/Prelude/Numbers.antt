-- ===== src/Prelude/Numbers.antt =====
-- Go's `%d` of a number that is not negative.
use Prim.Native.Nat.{ℕ, zero, suc, ◌+◌, ◌/◌, ◌%◌}
use mathlib.Core.List.{◌∷◌, []}
use cluster_api_runtime_exte.Prelude.Tests.{ltb, if◌then◌else◌}
use cluster_api_runtime_exte.Prelude.Strings.{Text}

-- The digits in front of `acc`; a number has fewer digits than its value plus one.
digits_onto : ℕ → ℕ → Text → Text
digits_onto zero n acc = acc
digits_onto (suc fuel) n acc =
    let acc' = (b'0' + n % 10) ∷ acc in
    let rest = digits_onto fuel (n / 10) acc' in if ltb n 10 then acc' else rest

unfoldable pub decimal : ℕ → Text
unfolding digits_onto
decimal n = digits_onto (suc n) n []
