-- ===== src/Prelude/Decimals.antt =====
-- Decimals, printed and read back.
use Prim.Native.Nat.{ℕ, zero, suc, ◌+◌, ◌/◌, ◌%◌, ◌≤◌}
use mathlib.Core.Path.{◌≡◌, refl, ◌∙◌}
use mathlib.Core.Option.{some}
use mathlib.Core.List.{[], ◌∷◌}
use mathlib.Core.Logic.{inl, inr}
use native.Mathlib.Omega.{arith}
use frigate_notifications.Prelude.Tests.{ltb, Bool-cases}
use frigate_notifications.Prelude.Lists.{All}
use frigate_notifications.Prelude.Texts.{Text}
use frigate_notifications.Prelude.Numerals.{digits_onto, decimal, digits_value, parse_decimal}

abbrev pub IsDigit : ℕ → Type 0
IsDigit c = (b'0' ≤ c) × (c ≤ b'9')

-- A numeral: a digit, and digits after it.
pub record IsNumeral (t : Text) : Type 0 where
  pub first : ℕ
  pub rest : Text
  pub whole : t ≡ first ∷ rest
  pub is_digit : IsDigit first

digits_onto-IsNumeral : (fuel n : ℕ) (acc : Text) → n ≤ fuel → IsNumeral (digits_onto fuel n acc)
unfolding digits_onto
digits_onto-IsNumeral zero n acc h = record {
  first = b'0' + n % 10;
  rest = acc;
  whole = refl;
  is_digit = (omega arith, omega arith);
}
digits_onto-IsNumeral (suc fuel) n acc h = elim (Bool-cases (ltb n 10)) [
  | inl small ↦ rw small (record {
    first = b'0' + n;
    rest = acc;
    whole = refl;
    is_digit = (omega arith, ground arith);
  })
  | inr large ↦
      rw large (digits_onto-IsNumeral fuel (n / 10) ((b'0' + n % 10) ∷ acc) (ground arith))
]

digits_onto-All :
    (fuel n : ℕ) (acc : Text) → n ≤ fuel → All IsDigit acc → All IsDigit (digits_onto fuel n acc)
unfolding digits_onto
digits_onto-All zero n acc h all = ((omega arith, omega arith), all)
digits_onto-All (suc fuel) n acc h all = elim (Bool-cases (ltb n 10)) [
  | inl small ↦ rw small ((omega arith, ground arith), all)
  | inr large ↦ rw large (
      digits_onto-All fuel (n / 10) ((b'0' + n % 10) ∷ acc) (ground arith)
        ((omega arith, omega arith), all))
]

digits_value-onto :
    (fuel n : ℕ) (acc : Text)
    → n ≤ fuel
    → digits_value 0 (digits_onto fuel n acc) ≡ digits_value n acc
unfolding digits_onto digits_value
digits_value-onto zero n acc h = ground arith
digits_value-onto (suc fuel) n acc h =
    ground (arith, digits_value-onto fuel (n / 10) ((b'0' + n % 10) ∷ acc))

pub decimal-IsNumeral : (n : ℕ) → IsNumeral (decimal n)
unfolding decimal
decimal-IsNumeral n = digits_onto-IsNumeral n n [] (omega arith)

pub decimal-All : (n : ℕ) → All IsDigit (decimal n)
unfolding decimal
decimal-All n = digits_onto-All n n [] (omega arith) tt

parse_decimal-numeral : (t : Text) → IsNumeral t → parse_decimal t ≡ digits_value 0 t
unfolding parse_decimal
parse_decimal-numeral t h = let e = h.whole in rw e refl

-- What is printed in decimals is read back.
pub parse_decimal-decimal : (n : ℕ) → parse_decimal (decimal n) ≡ some n
unfolding decimal digits_value
parse_decimal-decimal n =
    parse_decimal-numeral (decimal n) (decimal-IsNumeral n) ∙ digits_value-onto n n [] (omega arith)
