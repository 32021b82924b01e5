-- ===== src/Window/Parse/Clocks.antt =====
-- internal/config/window.go: where the endpoints lie that `ParseEndpoint` accepts.
use frigate_notifications.Prelude.{
  ℕ, ◌<◌, ◌≡◌, Option, none, some, [], ◌∷◌, map, Text, arith, Option-cases, inl, inr, Result, ok,
}
use frigate_notifications.Prelude.Int.{ℤ}
use frigate_notifications.Unicode.{Unicode, trim_space}
use frigate_notifications.Window.{Endpoint}
use frigate_notifications.Window.Cycle.{InDay, IsPlaced}
use frigate_notifications.Window.Parse.{
  Half, wall_clock, solar_endpoint, ampm_endpoint, clock_endpoint, lower_endpoint, parse_trimmed,
  parse_endpoint, named_clock, clock_re, ampm_re, solar_re,
}

wall_clock-IsPlaced : (h min : ℕ) (raw : Text) → h < 24 → min < 60 → IsPlaced (wall_clock h min raw)
wall_clock-IsPlaced h min raw p q = ground arith

module _ (u : Unicode) (parse_duration : Text → Result ℤ) where
  solar_endpoint-IsPlaced :
      (raw : Text) (m : Option (Text × ℕ × Text)) (e : Endpoint)
      → solar_endpoint u parse_duration raw m ≡ ok e
      → IsPlaced e
  unfolding solar_endpoint
  solar_endpoint-IsPlaced raw none e h = cc
  solar_endpoint-IsPlaced raw (some (word, sign, [])) e h = record { in_day = λ p. ground arith }
  solar_endpoint-IsPlaced raw (some (word, sign, c ∷ s)) e h = record { in_day = λ p. ground arith }

  ampm_endpoint-IsPlaced :
      (raw hours minutes : Text) (half : Half) (e : Endpoint)
      → ampm_endpoint u parse_duration raw hours minutes half ≡ ok e
      → IsPlaced e
  unfolding ampm_endpoint
  ampm_endpoint-IsPlaced raw hours minutes half e h = ground arith

  clock_endpoint-IsPlaced :
      (raw hours minutes : Text) (e : Endpoint)
      → clock_endpoint u parse_duration raw hours minutes ≡ ok e
      → IsPlaced e
  unfolding clock_endpoint
  clock_endpoint-IsPlaced raw hours minutes e h = ground arith

  named_clock-InDay : (w : Text) (d : ℤ) → named_clock w ≡ some d → InDay d
  unfolding named_clock
  named_clock-InDay w d h = ground arith

  lower_endpoint-IsPlaced :
      (raw lower : Text) (e : Endpoint)
      → lower_endpoint u parse_duration raw lower ≡ ok e
      → IsPlaced e
  unfolding lower_endpoint
  lower_endpoint-IsPlaced raw lower e h = elim (Option-cases (ampm_re lower)) [
    | inr ((hours, minutes, half), m) ↦
        ampm_endpoint-IsPlaced raw hours minutes half e (ground arith)
    | inl no_ampm ↦ elim (Option-cases (named_clock lower)) [
      | inr (d, m) ↦ record { in_day = λ p. ground (arith, named_clock-InDay lower d m) }
      | inl no_name ↦ solar_endpoint-IsPlaced raw (solar_re lower) e (ground arith)
    ]
  ]

  -- Every endpoint that parsing accepts is solar or a time in [0, 24h).
  pub parse_endpoint-IsPlaced :
      (s : Text) (e : Endpoint) → parse_endpoint u parse_duration s ≡ ok e → IsPlaced e
  unfolding parse_endpoint
  parse_endpoint-IsPlaced s e h = go (trim_space u s) h
    where
      go : (t : Text) → parse_trimmed u parse_duration t ≡ ok e → IsPlaced e
      go [] p = cc
      go (c ∷ t) p = elim (Option-cases (clock_re (c ∷ t))) [
        | inr ((hours, minutes), m) ↦ clock_endpoint-IsPlaced (c ∷ t) hours minutes e (ground arith)
        | inl no_clock ↦ lower_endpoint-IsPlaced (c ∷ t) (map u.to_lower (c ∷ t)) e (ground arith)
      ]
