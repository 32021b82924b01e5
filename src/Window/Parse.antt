-- ===== src/Window/Parse.antt =====
-- internal/config/window.go: `ParseEndpoint`, with its regular expressions as functions by clauses.
-- The offset's text goes through `time.ParseDuration`, which is a parameter.
pub mod Clocks
pub mod Written
use frigate_notifications.Prelude.{
  ℕ, zero, suc, ◌+◌, ◌-◌, ◌*◌, Bool, true, false, not, ◌&&◌, ◌||◌, Option, none, some, List, [],
  ◌∷◌, map, Text, lit, text_eq, is_empty, all, ltb, leb, ◌==◌, if◌then◌else◌, Result, ok, err,
}
use frigate_notifications.Prelude.Int.{ℤ, pos, ◌-ℤ◌}
use frigate_notifications.Clock.{minute, hour}
use frigate_notifications.Unicode.{Unicode, trim_space}
use frigate_notifications.Window.{
  SolarEvent, no_solar, sunrise, sunset, dawn, dusk, Endpoint, is_solar_event,
}

abbrev pub is_digit : ℕ → Bool
is_digit c = leb b'0' c && leb c b'9'

-- [a-z]
abbrev pub is_letter : ℕ → Bool
is_letter c = leb b'a' c && leb c b'z'

-- \s
abbrev pub is_blank : ℕ → Bool
is_blank c = c == 32 || c == 9 || c == 10 || c == 12 || c == 13

-- strconv.Atoi of digits
abbrev atoi_from : ℕ → Text → ℕ
atoi_from n [] = n
atoi_from n (c ∷ s) = atoi_from (n * 10 + (c - b'0')) s

abbrev pub atoi : Text → ℕ
atoi s = atoi_from 0 s

-- ([0-9]{1,2}), then the rest: greedy, and no match of the rest begins with a digit
unfoldable pub one_or_two_digits : Text → Option (Text × Text)
one_or_two_digits [] = none
one_or_two_digits (a ∷ []) = if is_digit a then some (a ∷ [], []) else none
one_or_two_digits (a ∷ b ∷ s) =
    if not (is_digit a)
    then none
    else if is_digit b
    then some (a ∷ b ∷ [], s)
    else some (a ∷ [], b ∷ s)

-- ([0-9]{2})$
unfoldable pub two_digits_end : Text → Option Text
two_digits_end (a ∷ b ∷ []) = if is_digit a && is_digit b then some (a ∷ b ∷ []) else none
two_digits_end _ = none

clock_rest : Text → Text → Option (Text × Text)
unfolding two_digits_end
clock_rest h [] = none
clock_rest h (c ∷ s) =
    if c == b':' then elim (two_digits_end s) [ none ↦ none | some m ↦ some (h, m) ] else none

-- clockRe: ^([0-9]{1,2}):([0-9]{2})$
unfoldable pub clock_re : Text → Option (Text × Text)
unfolding one_or_two_digits clock_rest
clock_re s = elim (one_or_two_digits s) [ none ↦ none | some (h, rest) ↦ clock_rest h rest ]

pub data Half : Type 0 where
  am pm : Half

-- \s*([ap]m)$
unfoldable pub half_end : Text → Option Half
half_end [] = none
half_end (c ∷ s) =
    let rest = half_end s in
    if is_blank c
    then rest
    else if text_eq (c ∷ s) (lit "am")
    then some am
    else if text_eq (c ∷ s) (lit "pm")
    then some pm
    else none

with_half : Text → Text → Option Half → Option (Text × Text × Half)
with_half h m none = none
with_half h m (some half) = some (h, m, half)

ampm_rest : Text → Text → Option (Text × Text × Half)
unfolding half_end with_half
ampm_rest h (c ∷ a ∷ b ∷ s) =
    if c == b':'
    then (if is_digit a && is_digit b then with_half h (a ∷ b ∷ []) (half_end s) else none)
    else with_half h [] (half_end (c ∷ a ∷ b ∷ s))
ampm_rest h s = with_half h [] (half_end s)

-- ampmRe: ^([0-9]{1,2})(?::([0-9]{2}))?\s*([ap]m)$
unfoldable pub ampm_re : Text → Option (Text × Text × Half)
unfolding one_or_two_digits ampm_rest
ampm_re s = elim (one_or_two_digits s) [ none ↦ none | some (h, rest) ↦ ampm_rest h rest ]

-- ([a-z]*), then the rest
letters : Text → Text × Text
letters [] = ([], [])
letters (c ∷ s) = let (l, rest) = letters s in if is_letter c then (c ∷ l, rest) else ([], c ∷ s)

-- [a-z].*$ after the digits; `.` is any rune but a line feed
is_unit : Text → Bool
is_unit [] = false
is_unit (c ∷ s) = is_letter c && all (λ d. not (d == 10)) s

-- [0-9]*[a-z].*$
digits_then_unit : Text → Bool
unfolding is_unit
digits_then_unit [] = false
digits_then_unit (c ∷ s) =
    let rest = digits_then_unit s in if is_digit c then rest else is_unit (c ∷ s)

-- [0-9]+[a-z].*$
is_offset : Text → Bool
unfolding digits_then_unit
is_offset [] = false
is_offset (c ∷ s) = is_digit c && digits_then_unit s

-- The word, the sign (no sign is 0) and the offset's text.
solar_rest : Text → Text → Option (Text × ℕ × Text)
unfolding is_offset
solar_rest word [] = some (word, 0, [])
solar_rest word (c ∷ s) =
    if (c == b'+' || c == b'-') && is_offset s then some (word, c, s) else none

-- solarRe: ^([a-z]+)(?:([+-])([0-9]+[a-z].*))?$
unfoldable pub solar_re : Text → Option (Text × ℕ × Text)
unfolding letters solar_rest
solar_re s = let (word, rest) = letters s in if is_empty word then none else solar_rest word rest

-- solarEvents; a word that is no key gives the empty event
unfoldable pub solar_event : Text → SolarEvent
solar_event w =
    if text_eq w (lit "sunrise")
    then sunrise
    else if text_eq w (lit "sunset")
    then sunset
    else if text_eq w (lit "dawn")
    then dawn
    else if text_eq w (lit "dusk")
    then dusk
    else no_solar

-- namedClocks
unfoldable pub named_clock : Text → Option ℤ
named_clock w =
    if text_eq w (lit "noon")
    then some (pos (12 * hour))
    else if text_eq w (lit "midnight")
    then some (pos 0)
    else none

abbrev pub wall_clock : ℕ → ℕ → Text → Endpoint
wall_clock h min raw = record {
  solar = no_solar;
  clock = pos (h * hour + min * minute);
  offset = pos 0;
  raw = raw;
}

abbrev to_24_hours : ℕ → Half → ℕ
to_24_hours h am = if h == 12 then 0 else h
to_24_hours h pm = if not (h == 12) then h + 12 else h

module _ (u : Unicode) (parse_duration : Text → Result ℤ) where
  with_offset : Text → SolarEvent → ℕ → Text → Result Endpoint
  with_offset raw event sign [] =
      ok (record { solar = event; clock = pos 0; offset = pos 0; raw = raw })
  with_offset raw event sign (c ∷ s) = elim (parse_duration (c ∷ s)) [
    | err ↦ err
    | ok d ↦ ok (record {
      solar = event;
      clock = pos 0;
      offset = if sign == b'-' then pos 0 -ℤ d else d;
      raw = raw;
    })
  ]

  solar_endpoint : Text → Option (Text × ℕ × Text) → Result Endpoint
  unfolding solar_event with_offset
  solar_endpoint raw none = err
  solar_endpoint raw (some (word, sign, offset)) =
      let event = solar_event word in
      if not (is_solar_event event) then err else with_offset raw event sign offset

  ampm_endpoint : Text → Text → Text → Half → Result Endpoint
  ampm_endpoint raw hours minutes half =
      let h = atoi hours in
      let min = atoi minutes in
      if ltb h 1 || ltb 12 h || ltb 59 min
      then err
      else ok (wall_clock (to_24_hours h half) min raw)

  clock_endpoint : Text → Text → Text → Result Endpoint
  clock_endpoint raw hours minutes =
      let h = atoi hours in
      let min = atoi minutes in if ltb 23 h || ltb 59 min then err else ok (wall_clock h min raw)

  -- After `clockRe` has not matched; `lower` is the trimmed text in lower case.
  lower_endpoint : Text → Text → Result Endpoint
  unfolding ampm_re ampm_endpoint named_clock solar_re solar_endpoint
  lower_endpoint raw lower = elim (ampm_re lower) [
    | some (hours, minutes, half) ↦ ampm_endpoint raw hours minutes half
    | none ↦ elim (named_clock lower) [
      | some d ↦ ok (record { solar = no_solar; clock = d; offset = pos 0; raw = raw })
      | none ↦ solar_endpoint raw (solar_re lower)
    ]
  ]

  parse_trimmed : Text → Result Endpoint
  unfolding clock_re clock_endpoint lower_endpoint
  parse_trimmed s = if is_empty s then err else elim (clock_re s) [
    | some (hours, minutes) ↦ clock_endpoint s hours minutes
    | none ↦ lower_endpoint s (map u.to_lower s)
  ]

  unfoldable pub parse_endpoint : Text → Result Endpoint
  unfolding parse_trimmed trim_space
  parse_endpoint s = parse_trimmed (trim_space u s)
