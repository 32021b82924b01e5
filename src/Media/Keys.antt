-- ===== src/Media/Keys.antt =====
-- internal/media/media.go: the signer of a configuration. A byte is a number; the HMAC of a key, in
-- base64, is a parameter. A negative link TTL does not pass validation.
use frigate_notifications.Prelude.{
  ℕ, ◌+◌, ◌-◌, ◌*◌, ◌/◌, ◌%◌, ◌<◌, ◌≡◌, refl, ap, ◌∙◌, not, ◌&&◌, Option, none, some, List, [], ◌∷◌,
  Text, lit, is_empty, length, ltb, leb, All, trim_suffix, if◌then◌else◌, Result, ok, err, arith,
}
use frigate_notifications.Prelude.Int.{pos_part}
use frigate_notifications.Unicode.{Unicode, trim_space}
use frigate_notifications.Config.File.{MediaConfig, enabled}
use frigate_notifications.Media.{Signer}

abbrev hex_digit : ℕ → Option ℕ
hex_digit c =
    if leb b'0' c && leb c b'9'
    then some (c - b'0')
    else if leb b'a' c && leb c b'f'
    then some (c - 87)
    else if leb b'A' c && leb c b'F'
    then some (c - 55)
    else none

-- hex.DecodeString
unfoldable pub decode_hex : Text → Option (List ℕ)
decode_hex [] = some []
decode_hex (a ∷ []) = none
decode_hex (a ∷ b ∷ s) =
    let rest = decode_hex s in
    elim (hex_digit a) [
      | none ↦ none
      | some x ↦ elim (hex_digit b) [
        | none ↦ none
        | some y ↦ elim rest [ none ↦ none | some bytes ↦ some ((16 * x + y) ∷ bytes) ]
      ]
    ]

abbrev least_key : ℕ
least_key = 16

module _ (hmac : List ℕ → Text → Text) (u : Unicode) where
  with_key : List ℕ → Text → ℕ → Result Signer
  with_key key base_url ttl =
      if ltb (length key) least_key
      then err
      else if is_empty base_url
      then err
      else ok (record { mac = hmac key; base_url = trim_suffix base_url (lit "/"); ttl = ttl })

  unfoldable pub new_signer : Text → Text → ℕ → Result Signer
  unfolding decode_hex with_key trim_space
  new_signer hex_key base_url ttl = elim (decode_hex (trim_space u hex_key)) [
    | none ↦ err
    | some key ↦ with_key key base_url ttl
  ]

  -- No signer where media are not set up.
  unfoldable pub signer_for : MediaConfig → Result (Option Signer)
  unfolding new_signer
  signer_for c =
      if not (enabled c)
      then ok none
      else elim (new_signer c.signing_key c.public_base_url (pos_part c.link_ttl)) [
        | err ↦ err
        | ok s ↦ ok (some s)
      ]

-- hex.EncodeToString
abbrev pub hex_of : ℕ → ℕ
hex_of n = if ltb n 10 then n + b'0' else n + 87

abbrev pub encode_hex : List ℕ → Text
encode_hex [] = []
encode_hex (b ∷ bs) = hex_of (b / 16) ∷ hex_of (b % 16) ∷ encode_hex bs

hex_digit-hex_of : (n : ℕ) → n < 16 → hex_digit (hex_of n) ≡ some n
hex_digit-hex_of n h = ground arith

decode-pair :
    (a b x y : ℕ) (s : Text) (bytes : List ℕ)
    → hex_digit a ≡ some x
    → hex_digit b ≡ some y
    → decode_hex s ≡ some bytes
    → decode_hex (a ∷ b ∷ s) ≡ some ((16 * x + y) ∷ bytes)
unfolding decode_hex
decode-pair a b x y s bytes e f g = rw (decode_hex, e, f, g) refl

byte_parts : (b : ℕ) → 16 * (b / 16) + b % 16 ≡ b
byte_parts b = omega arith

-- A key that is written in hex is read again.
pub decode_hex-encode_hex :
    (bs : List ℕ) → All (λ b. b < 256) bs → decode_hex (encode_hex bs) ≡ some bs
unfolding decode_hex
decode_hex-encode_hex [] h = refl
decode_hex-encode_hex (b ∷ bs) h =
    decode-pair (hex_of (b / 16)) (hex_of (b % 16)) (b / 16) (b % 16) (encode_hex bs) bs
      (hex_digit-hex_of (b / 16) (omega (arith, h.0))) (hex_digit-hex_of (b % 16) (omega arith))
      (decode_hex-encode_hex bs h.1)
    ∙ ap (λ c. some (c ∷ bs)) (byte_parts b)
