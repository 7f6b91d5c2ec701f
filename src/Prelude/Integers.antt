-- ===== src/Prelude/Integers.antt =====
-- Signed numbers over the native ones, and their order as a Boolean.
use Prim.Native.Nat.{ℕ}
use mathlib.Core.Bool.{Bool, true, false}
use cluster_api_runtime_exte.Prelude.Tests.{leb}

pub data ℤ : Type 0 where
  pos negsuc : ℕ → ℤ

abbrev pub leb_int : ℤ → ℤ → Bool
leb_int (pos m) (pos n) = leb m n
leb_int (pos m) (negsuc n) = false
leb_int (negsuc m) (pos n) = true
leb_int (negsuc m) (negsuc n) = leb n m
