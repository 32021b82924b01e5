-- ===== src/Window/Parse/Written.antt =====
-- internal/config/window.go: times of day written out on both clocks.
use frigate_notifications.Prelude.{
  ℕ, ◌+◌, ◌/◌, ◌%◌, ◌≤◌, ◌<◌, ◌≡◌, ◌∙◌, ap, none, some, [], ◌∷◌, map, Text, text_eq, arith, Result,
  ok,
}
use frigate_notifications.Prelude.Int.{ℤ}
use frigate_notifications.Unicode.{Unicode}
use frigate_notifications.Unicode.Trim.{IsSolid, IsPlainAscii, trim_space_solid}
use frigate_notifications.Window.Parse.{
  Half, am, pm, wall_clock, ampm_endpoint, clock_endpoint, lower_endpoint, parse_trimmed,
  parse_endpoint, clock_re, ampm_re,
}

-- Two decimal digits.
abbrev pub two_digits : ℕ → Text
two_digits n = (b'0' + n / 10) ∷ (b'0' + n % 10) ∷ []

-- "HH:MM"
abbrev pub hh_mm : ℕ → ℕ → Text
hh_mm h m = (b'0' + h / 10) ∷ (b'0' + h % 10) ∷ b':' ∷ two_digits m

abbrev pub half_letter : Half → ℕ
half_letter am = b'a'
half_letter pm = b'p'

-- "HH:MMam" and "HH:MMpm"
abbrev pub hh_mm_half : ℕ → ℕ → Half → Text
hh_mm_half h m half =
    (b'0' + h / 10)
    ∷ (b'0' + h % 10)
    ∷ b':'
    ∷ (b'0' + m / 10)
    ∷ (b'0' + m % 10)
    ∷ half_letter half
    ∷ b'm'
    ∷ []

clock_re-hh_mm :
    (h m : ℕ)
    → h < 24
    → m < 60
    → clock_re (hh_mm h m) ≡ some ((b'0' + h / 10) ∷ (b'0' + h % 10) ∷ [], two_digits m)
unfolding clock_re
clock_re-hh_mm h m p q = ground arith

module _ (u : Unicode) (parse_duration : Text → Result ℤ) where
  clock_endpoint-hh_mm :
      (raw : Text) (h m : ℕ)
      → h < 24
      → m < 60
      → clock_endpoint u parse_duration raw ((b'0' + h / 10) ∷ (b'0' + h % 10) ∷ []) (two_digits m)
        ≡ ok (wall_clock h m raw)
  unfolding clock_endpoint
  clock_endpoint-hh_mm raw h m p q = ground arith

  parse_endpoint-solid :
      (s : Text)
      → IsSolid u s
      → parse_endpoint u parse_duration s ≡ parse_trimmed u parse_duration s
  unfolding parse_endpoint
  parse_endpoint-solid s h = ap (parse_trimmed u parse_duration) (trim_space_solid u s h)

  parse_trimmed-hh_mm :
      (h m : ℕ)
      → h < 24
      → m < 60
      → parse_trimmed u parse_duration (hh_mm h m) ≡ ok (wall_clock h m (hh_mm h m))
  unfolding parse_trimmed
  parse_trimmed-hh_mm h m p q =
      rw (clock_re-hh_mm h m p q) (clock_endpoint-hh_mm (hh_mm h m) h m p q)

  -- For each of the 24 hours and 60 minutes, "HH:MM" parses to that time of day, where digits and the
  -- colon are no spaces.
  pub parse_endpoint-hh_mm :
      IsPlainAscii u
      → (h m : ℕ) → h < 24
      → m < 60
      → parse_endpoint u parse_duration (hh_mm h m) ≡ ok (wall_clock h m (hh_mm h m))
  parse_endpoint-hh_mm plain h m p q =
      let digit = plain.digit_solid in
      parse_endpoint-solid (hh_mm h m) (
        digit _ (omega arith) (omega arith),
        (
          digit _ (omega arith) (omega arith),
          (
            digit _ (omega arith) (omega arith),
            (digit _ (omega arith) (omega arith), (digit _ (omega arith) (omega arith), tt)),
          ),
        ),
      )
      ∙ parse_trimmed-hh_mm h m p q

-- On the 12-hour clock 12 comes before 1.
abbrev pub hour_of_half : ℕ → Half → ℕ
hour_of_half h am = h % 12
hour_of_half h pm = h % 12 + 12

clock_re-hh_mm_half : (h m : ℕ) (half : Half) → clock_re (hh_mm_half h m half) ≡ none
unfolding clock_re
clock_re-hh_mm_half h m half = ground arith

ampm_re-hh_mm_half :
    (h m : ℕ) (half : Half)
    → h ≤ 12
    → m < 60
    → ampm_re (hh_mm_half h m half)
      ≡ some ((b'0' + h / 10) ∷ (b'0' + h % 10) ∷ [], two_digits m, half)
unfolding ampm_re text_eq
ampm_re-hh_mm_half h m am p q = ground arith
ampm_re-hh_mm_half h m pm p q = ground arith

module _ (u : Unicode) (parse_duration : Text → Result ℤ) where
  ampm_endpoint-hh_mm_half :
      (raw : Text) (h m : ℕ) (half : Half)
      → 1 ≤ h
      → h ≤ 12
      → m < 60
      → ampm_endpoint u parse_duration raw
          ((b'0' + h / 10) ∷ (b'0' + h % 10) ∷ [])
          (two_digits m)
          half
        ≡ ok (wall_clock (hour_of_half h half) m raw)
  unfolding ampm_endpoint
  ampm_endpoint-hh_mm_half raw h m am o p q = ground arith
  ampm_endpoint-hh_mm_half raw h m pm o p q = ground arith

  module _ (plain : IsPlainAscii u) (h m : ℕ) (half : Half) (o : 1 ≤ h) (p : h ≤ 12)
      (q : m < 60) where
    half_letter_range : (b'a' ≤ half_letter half) × (half_letter half ≤ b'z')
    half_letter_range = elim half as (λ k. (b'a' ≤ half_letter k) × (half_letter k ≤ b'z')) [
      | am ↦ omega arith
      | pm ↦ omega arith
    ]

    hh_mm_half-IsSolid : IsSolid u (hh_mm_half h m half)
    hh_mm_half-IsSolid =
        let digit = plain.digit_solid in
        let letter = plain.letter_solid in
        (
          digit _ (omega arith) (omega arith),
          (
            digit _ (omega arith) (omega arith),
            (
              digit _ (omega arith) (omega arith),
              (
                digit _ (omega arith) (omega arith),
                (
                  digit _ (omega arith) (omega arith),
                  (
                    letter _ half_letter_range.0 half_letter_range.1,
                    (letter _ (omega arith) (omega arith), tt),
                  ),
                ),
              ),
            ),
          ),
        )

    hh_mm_half_lower : map u.to_lower (hh_mm_half h m half) ≡ hh_mm_half h m half
    hh_mm_half_lower =
        let digit = plain.digit_lower in
        cc (
          digit (b'0' + h / 10) (omega arith) (omega arith),
          digit (b'0' + h % 10) (omega arith) (omega arith),
          digit b':' (omega arith) (omega arith),
          digit (b'0' + m / 10) (omega arith) (omega arith),
          digit (b'0' + m % 10) (omega arith) (omega arith),
          plain.letter_lower (half_letter half) half_letter_range.0 half_letter_range.1,
          plain.letter_lower b'm' (omega arith) (omega arith),
        )

    lower_endpoint-hh_mm_half :
        lower_endpoint u parse_duration (hh_mm_half h m half) (hh_mm_half h m half)
        ≡ ok (wall_clock (hour_of_half h half) m (hh_mm_half h m half))
    unfolding lower_endpoint
    lower_endpoint-hh_mm_half =
        rw (ampm_re-hh_mm_half h m half p q, lower_endpoint)
          (ampm_endpoint-hh_mm_half (hh_mm_half h m half) h m half o p q)

    parse_trimmed-hh_mm_half :
        parse_trimmed u parse_duration (hh_mm_half h m half)
        ≡ lower_endpoint u parse_duration
            (hh_mm_half h m half)
            (map u.to_lower (hh_mm_half h m half))
    unfolding parse_trimmed
    parse_trimmed-hh_mm_half = rw (clock_re-hh_mm_half h m half)

    -- For each hour from 1 to 12 and each of the 60 minutes, "HH:MMam" and "HH:MMpm" parse to that
    -- time of day, where 12am is midnight, 12pm is noon and any other pm adds 12 hours, and where
    -- these characters are no spaces and do not change in lower case.
    pub parse_endpoint-hh_mm_half :
        parse_endpoint u parse_duration (hh_mm_half h m half)
        ≡ ok (wall_clock (hour_of_half h half) m (hh_mm_half h m half))
    parse_endpoint-hh_mm_half =
        parse_endpoint-solid u parse_duration (hh_mm_half h m half) hh_mm_half-IsSolid
        ∙ parse_trimmed-hh_mm_half
        ∙ ap (lower_endpoint u parse_duration (hh_mm_half h m half)) hh_mm_half_lower
        ∙ lower_endpoint-hh_mm_half
