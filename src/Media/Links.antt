-- ===== src/Media/Links.antt =====
-- internal/media/media.go: signing and verifying, and the ids of clips.
use frigate_notifications.Prelude.{
  ℕ, ◌+◌, ◌-◌, ◌*◌, ◌/◌, ◌≤◌, ◌<◌, ◌≡◌, ◌≢◌, ap, refl, true, false, some, [], ◌∷◌, ◌++◌, Text, lit,
  text_eq, text_eq_refl, is_empty, leb, All, arith, if◌then◌else◌,
}
use frigate_notifications.Prelude.Int.{pos, ◌-ℤ◌}
use frigate_notifications.Prelude.Numerals.{decimal, parse_decimal}
use frigate_notifications.Prelude.Decimals.{
  IsDigit, IsNumeral, decimal-IsNumeral, decimal-All, parse_decimal-decimal,
}
use frigate_notifications.Clock.{second}
use frigate_notifications.Media.{
  Kind, accepts, Signer, sign, signed_decimal, parse_int, max_int64, verify, valid, expired,
  clip_id, parse_clip_id, split_clip_id, cut_dash, check_span, max_clip_span,
}

parse_int-numeral :
    (t : Text) (n : ℕ)
    → IsNumeral t
    → parse_decimal t ≡ some n
    → n ≤ max_int64
    → parse_int t ≡ some (pos n)
unfolding parse_int
parse_int-numeral [] n h e le = cc
parse_int-numeral (c ∷ s) n h e le = ground arith

pub parse_int-decimal : (n : ℕ) → n ≤ max_int64 → parse_int (decimal n) ≡ some (pos n)
parse_int-decimal n le =
    parse_int-numeral (decimal n) n (decimal-IsNumeral n) (parse_decimal-decimal n) le

-- A link's parts, as it carries them, verify until the second that they expire in, and the time left is
-- what is to go; from then on they have expired.
pub verify-sign :
    (s : Signer) (k : Kind) (id : Text) (exp now : ℕ)
    → accepts k id ≡ true
    → exp ≤ max_int64
    → verify s k id (signed_decimal (pos exp)) (sign s k id (pos exp)) now
      ≡ (if leb (exp * second) now then expired else valid (exp * second - now))
unfolding verify
verify-sign s k id exp now taken le =
    rw (taken, parse_int-decimal exp le, text_eq_refl (sign s k id (pos exp))) refl

cut_dash-append : (t s : Text) → All IsDigit t → cut_dash (t ++ (lit "-" ++ s)) ≡ some (t, s)
unfolding cut_dash
cut_dash-append [] s h = refl
cut_dash-append (c ∷ t) s h = ground (arith, cut_dash-append t s h.1)

clip_id-printed :
    (camera : Text) (start end : ℕ)
    → 2 ≤ start / second
    → clip_id camera start end
      ≡ decimal (start / second - 2)
        ++ (lit "-" ++ (decimal (end / second + 3) ++ (lit "-" ++ camera)))
unfolding clip_id
clip_id-printed camera start end h =
    let minus : (pos (start / second) -ℤ pos 2) ≡ pos (start / second - 2) = ground arith in
    ap (λ z. signed_decimal z ++ (lit "-" ++ (decimal (end / second + 3) ++ (lit "-" ++ camera))))
      minus

split_clip_id-printed :
    (a b : ℕ) (camera : Text)
    → split_clip_id (decimal a ++ (lit "-" ++ (decimal b ++ (lit "-" ++ camera))))
      ≡ some (decimal a, decimal b, camera)
unfolding split_clip_id
split_clip_id-printed a b camera = rw (
  cut_dash-append (decimal a) (decimal b ++ (lit "-" ++ camera)) (decimal-All a),
  split_clip_id,
  cut_dash-append (decimal b) camera (decimal-All b),
)

check_span-within :
    (camera : Text) (a b : ℕ)
    → 0 < a
    → a < b
    → b ≤ a + max_clip_span
    → check_span camera (some (pos a)) (some (pos b)) ≡ some (camera, a, b)
check_span-within camera a b p q r = ground arith

-- A review's clip id names its camera and its span with the padding, in whole seconds, for a camera
-- that has a name other than ".", a review that starts after the padding, and a span that is no longer
-- than a clip may be.
pub parse_clip_id-clip_id :
    (camera : Text) (start end : ℕ)
    → camera ≢ []
    → text_eq camera (lit ".") ≡ false
    → 2 < start / second
    → start ≤ end
    → end / second + 5 ≤ start / second + max_clip_span
    → end / second + 3 ≤ max_int64
    → parse_clip_id (clip_id camera start end) ≡ some (camera, start / second - 2, end / second + 3)
unfolding parse_clip_id
parse_clip_id-clip_id camera start end named not_dot late order short bound =
    let a = start / second - 2 in
    let b = end / second + 3 in
    let filled : is_empty camera ≡ false = ground arith in
    rw
      (
        clip_id-printed camera start end (omega arith),
        split_clip_id-printed a b camera,
        parse_clip_id,
        filled,
        not_dot,
        parse_int-decimal a (omega arith),
        parse_int-decimal b bound,
      )
      (check_span-within camera a b (omega arith) (omega arith) (omega arith))
