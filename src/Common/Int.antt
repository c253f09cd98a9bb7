-- ===== src/Common/Int.antt =====
-- Signed integers, for the columns and parameters that Go holds in an `int`.
use Prim.Native.Nat.{ℕ}
use mathlib.Core.Bool.{Bool, false}
use chatterloop_developer_se.Common.Tests.{leb}

-- `negsuc n` is -(n + 1).
pub data ℤ : Type 0 where
  pos : ℕ → ℤ
  negsuc : ℕ → ℤ

-- `n <= z` for an unsigned `n`.
abbrev pub leb_ℤ : ℕ → ℤ → Bool
leb_ℤ n (pos m) = leb n m
leb_ℤ n (negsuc m) = false
