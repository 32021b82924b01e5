-- ===== src/Unicode/Trim.antt =====
-- What `strings.TrimSpace` leaves alone.
use frigate_notifications.Prelude.{ℕ, ◌≤◌, ◌≡◌, refl, false, [], ◌∷◌, Text, All, arith}
use frigate_notifications.Unicode.{Unicode, ascii, trim_left, trim_right, trim_space}

-- No rune of the text is a space.
abbrev pub IsSolid : Unicode → Text → Type 0
IsSolid u s = All (λ c. u.is_space c ≡ false) s

-- What Unicode says of the digits, the colon and the lower-case letters of ASCII: none is a space, and
-- none changes in lower case.
pub record IsPlainAscii (u : Unicode) : Type 0 where
  pub digit_solid : (c : ℕ) → b'0' ≤ c → c ≤ b':' → u.is_space c ≡ false
  pub letter_solid : (c : ℕ) → b'a' ≤ c → c ≤ b'z' → u.is_space c ≡ false
  pub digit_lower : (c : ℕ) → b'0' ≤ c → c ≤ b':' → u.to_lower c ≡ c
  pub letter_lower : (c : ℕ) → b'a' ≤ c → c ≤ b'z' → u.to_lower c ≡ c

module _ (u : Unicode) where
  trim_right_solid : (s : Text) → IsSolid u s → trim_right u s ≡ s
  unfolding trim_right
  trim_right_solid [] h = refl
  trim_right_solid (c ∷ []) h = ground arith
  trim_right_solid (c ∷ d ∷ s) h = rw (trim_right_solid (d ∷ s) h.1)

  pub trim_space_solid : (s : Text) → IsSolid u s → trim_space u s ≡ s
  unfolding trim_space
  trim_space_solid [] h = refl
  trim_space_solid (c ∷ s) h = rw (h.0, trim_left) (trim_right_solid (c ∷ s) h)

pub ascii-IsPlainAscii : IsPlainAscii ascii
ascii-IsPlainAscii = record {
  digit_solid = λ c p q. ground arith;
  letter_solid = λ c p q. ground arith;
  digit_lower = λ c p q. ground arith;
  letter_lower = λ c p q. ground arith;
}
