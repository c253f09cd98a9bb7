-- ===== src/Common/Decimal.antt =====
-- `%d` of an unsigned number: decimal digits, on fuel, with the proof that they spell it.
use Prim.Native.Nat.{ℕ, zero, suc, ◌+◌, ◌*◌, ◌/◌, ◌%◌, ◌<◌, ◌-◌}
use mathlib.Core.Path.{◌≡◌, refl, ◌∙◌, sym, ap}
use mathlib.Core.List.{[], ◌∷◌}
use mathlib.Core.Logic.{inl, inr}
use native.Mathlib.Omega.{arith}
use chatterloop_developer_se.Common.Tests.{ltb, if◌then◌else◌, Bool-cases}
use chatterloop_developer_se.Common.Bytes.{Text}

unfoldable pub digits : ℕ → ℕ → Text → Text
digits zero n out = out
digits (suc fuel) n out =
    let more = digits fuel (n / 10) ((b'0' + n % 10) ∷ out) in
    if ltb n 10 then (b'0' + n) ∷ out else more

-- A number has at most as many digits as itself, and one.
unfoldable pub decimal : ℕ → Text
unfolding digits
decimal n = digits (suc n) n []

abbrev value_from : ℕ → Text → ℕ
value_from acc [] = acc
value_from acc (c ∷ s) = value_from (acc * 10 + (c - b'0')) s

value-digits :
    (fuel n : ℕ) (out : Text) → n < fuel → value_from 0 (digits fuel n out) ≡ value_from n out
unfolding digits
value-digits zero n out h = absurd (omega arith)
value-digits (suc fuel) n out h = elim (Bool-cases (ltb n 10)) [
  | inl small ↦ rw small (ap (λ k. value_from k out) (last n))
  | inr large ↦
      rw large (value-digits fuel (n / 10) _ (ground arith) ∙ ap (λ k. value_from k out) (again n))
]
  where
    last : (n : ℕ) → 0 * 10 + (b'0' + n - b'0') ≡ n
    last n = omega arith

    again : (n : ℕ) → n / 10 * 10 + (b'0' + n % 10 - b'0') ≡ n
    again n = omega arith

-- Two numbers with the same decimal digits are equal.
pub decimal-injective : (m n : ℕ) → decimal m ≡ decimal n → m ≡ n
unfolding decimal
decimal-injective m n e =
    sym (value-digits (suc m) m [] (omega arith))
    ∙ ap (value_from 0) e
    ∙ value-digits (suc n) n [] (omega arith)

decimal_test :
    decimal 1700000000 ≡ b'1' ∷ b'7' ∷ b'0' ∷ b'0' ∷ b'0' ∷ b'0' ∷ b'0' ∷ b'0' ∷ b'0' ∷ b'0' ∷ []
unfolding decimal
decimal_test = refl
