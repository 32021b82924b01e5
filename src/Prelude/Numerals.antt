-- ===== src/Prelude/Numerals.antt =====
-- Decimal numerals: strconv's FormatInt and ParseInt, and "%d".
use Prim.Native.Nat.{ℕ, zero, suc, ◌+◌, ◌-◌, ◌*◌, ◌/◌, ◌%◌}
use mathlib.Core.Bool.{true, false, ◌&&◌}
use mathlib.Core.Option.{Option, none, some}
use mathlib.Core.List.{[], ◌∷◌}
use frigate_notifications.Prelude.Tests.{ltb, leb, if◌then◌else◌}
use frigate_notifications.Prelude.Texts.{Text}

-- The digits of `n` before `acc`; a fuel of `n` is enough.
unfoldable pub digits_onto : ℕ → ℕ → Text → Text
digits_onto zero n acc = (b'0' + n % 10) ∷ acc
digits_onto (suc fuel) n acc =
    let more = digits_onto fuel (n / 10) ((b'0' + n % 10) ∷ acc) in
    if ltb n 10 then (b'0' + n) ∷ acc else more

unfoldable pub decimal : ℕ → Text
unfolding digits_onto
decimal n = digits_onto n n []

unfoldable pub digits_value : ℕ → Text → Option ℕ
digits_value n [] = some n
digits_value n (c ∷ s) = elim (leb b'0' c && leb c b'9') [
  | true ↦ digits_value (n * 10 + (c - b'0')) s
  | false ↦ none
]

-- An unsigned numeral; with no digit it is none.
unfoldable pub parse_decimal : Text → Option ℕ
unfolding digits_value
parse_decimal [] = none
parse_decimal (c ∷ s) = digits_value 0 (c ∷ s)
