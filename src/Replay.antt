-- ===== src/Replay.antt =====
-- cmd/replay/main.go: the checks of the replay tool's flags, and how long it waits.
pub mod Sunless
mod Examples
use frigate_notifications.Prelude.{
  ℕ, ◌+◌, ◌-◌, ◌*◌, ◌==◌, Bool, true, false, ◌&&◌, ◌||◌, Option, none, some, List, [], ◌∷◌, Text,
  lit, text_eq, is_empty, any, ltb, leb, if◌then◌else◌, Map, lookup, insert, Result, ok, err,
}
use frigate_notifications.Prelude.Int.{ℤ, pos, ltb_ℤ}
use frigate_notifications.Unicode.{Unicode, trim_space}
use frigate_notifications.Window.{Window, needs_solar}
use frigate_notifications.Config.{Config, Recipient, Rule, RuleConditions, effective_holdoff}
use frigate_notifications.Rules.{Phase}
use frigate_notifications.Frigate.{ReviewEvent}

abbrev pub solar_hours : Option Window → Bool
solar_hours none = false
solar_hours (some w) = needs_solar w

abbrev pub rule_uses_solar : Rule → Bool
rule_uses_solar r = solar_hours r.when.hours || any (λ c. solar_hours c.hours) r.unless

unfoldable pub uses_solar : Config → Bool
uses_solar c = any rule_uses_solar c.rules || any (λ e. solar_hours e.1.active_hours) c.recipients

-- The longest holdoff of the rules, 0 if none is positive.
unfoldable pub longest_holdoff : Unicode → ℤ → List Rule → ℤ
longest_holdoff u longest [] = longest
longest_holdoff u longest (r ∷ rs) =
    longest_holdoff u
      (if ltb_ℤ longest (effective_holdoff u r) then effective_holdoff u r else longest) rs

-- What is left of `readReview` once the file is decoded.
unfoldable pub accept_review : ReviewEvent → Result ReviewEvent
accept_review event = if is_empty event.after.id then err else ok event

-- The flag `--phase`, where it is given.
unfoldable pub with_phase : Option Phase → ReviewEvent → ReviewEvent
with_phase none event = event
with_phase (some p) event = record event { type = p }

abbrev digit : ℕ → Option ℕ
digit c = if leb b'0' c && leb c b'9' then some (c - b'0') else none

abbrev in_clock : ℕ → ℕ → Option (ℕ × ℕ)
in_clock h m = if ltb h 24 && ltb m 60 then some (h, m) else none

minutes : ℕ → Text → Option (ℕ × ℕ)
minutes h (a ∷ b ∷ []) = elim (digit a) [
  | none ↦ none
  | some x ↦ elim (digit b) [ none ↦ none | some y ↦ in_clock h (10 * x + y) ]
]
minutes h _ = none

-- After the first digit of the hour: a colon, or a second digit and a colon.
after_hour : ℕ → Text → Option (ℕ × ℕ)
unfolding minutes
after_hour x [] = none
after_hour x (c ∷ s) = elim (c == b':') [
  | true ↦ minutes x s
  | false ↦ elim (digit c) [
    | none ↦ none
    | some y ↦ elim s [
      | [] ↦ none
      | d ∷ rest ↦ if d == b':' then minutes (10 * x + y) rest else none
    ]
  ]
]

-- time.Parse by "15:04": the hour has one digit or two, the minute has two.
unfoldable pub parse_clock : Text → Option (ℕ × ℕ)
unfolding after_hour
parse_clock [] = none
parse_clock (c ∷ s) = elim (digit c) [ none ↦ none | some x ↦ after_hour x s ]

-- strings.Cut(pair, "=")
unfoldable pub cut_equals : Text → Option (Text × Text)
cut_equals [] = none
cut_equals (c ∷ s) =
    let rest = cut_equals s in
    elim (c == b'=') [
      | true ↦ some ([], s)
      | false ↦ elim rest [ none ↦ none | some (name, clock) ↦ some (c ∷ name, clock) ]
    ]

-- strings.Split(spec, ","): the part that is being read, and those after it.
unfoldable pub split_commas : Text → Text × List Text
split_commas [] = ([], [])
split_commas (c ∷ s) =
    let (part, parts) = split_commas s in
    if c == b',' then ([], part ∷ parts) else (c ∷ part, parts)

-- The attribute of sun.sun for each name.
unfoldable pub solar_key : Text → Option Text
solar_key name =
    if text_eq name (lit "dawn")
    then some (lit "next_dawn")
    else if text_eq name (lit "dusk")
    then some (lit "next_dusk")
    else if text_eq name (lit "sunrise")
    then some (lit "next_rising")
    else if text_eq name (lit "sunset")
    then some (lit "next_setting")
    else none

unfoldable pub add_pair : Unicode → Text → Map (ℕ × ℕ) → Result (Map (ℕ × ℕ))
unfolding trim_space cut_equals solar_key parse_clock
add_pair u pair attrs = elim (cut_equals (trim_space u pair)) [
  | none ↦ err
  | some (name, clock) ↦ elim (solar_key name) [
    | none ↦ err
    | some key ↦ elim (parse_clock clock) [ none ↦ err | some t ↦ ok (insert key t attrs) ]
  ]
]

unfoldable pub add_pairs : Unicode → List Text → Map (ℕ × ℕ) → Result (Map (ℕ × ℕ))
unfolding add_pair
add_pairs u [] attrs = ok attrs
add_pairs u (pair ∷ pairs) attrs = elim (add_pair u pair attrs) [
  | err ↦ err
  | ok more ↦ add_pairs u pairs more
]

-- The hour and the minute of each attribute, on the day of the replay.
pub record Sun : Type 0 where
  pub next_dawn : ℕ × ℕ
  pub next_dusk : ℕ × ℕ
  pub next_rising : ℕ × ℕ
  pub next_setting : ℕ × ℕ

-- All four must be present.
unfoldable pub complete : Map (ℕ × ℕ) → Result Sun
complete attrs = elim (lookup (lit "next_dawn") attrs) [
  | none ↦ err
  | some dawn ↦ elim (lookup (lit "next_dusk") attrs) [
    | none ↦ err
    | some dusk ↦ elim (lookup (lit "next_rising") attrs) [
      | none ↦ err
      | some rising ↦ elim (lookup (lit "next_setting") attrs) [
        | none ↦ err
        | some setting ↦ ok (record {
          next_dawn = dawn;
          next_dusk = dusk;
          next_rising = rising;
          next_setting = setting;
        })
      ]
    ]
  ]
]

-- No flag gives no times.
unfoldable pub parse_sun : Unicode → Text → Result (Option Sun)
unfolding split_commas add_pairs complete
parse_sun u [] = ok none
parse_sun u (c ∷ spec) =
    let (part, parts) = split_commas (c ∷ spec) in
    elim (add_pairs u (part ∷ parts) []) [
      | err ↦ err
      | ok attrs ↦ elim (complete attrs) [ err ↦ err | ok sun ↦ ok (some sun) ]
    ]

-- offlineStates: the sun where its times were given, and nothing else.
unfoldable pub offline_state : Option Text → Text → Result Text
offline_state none id = err
offline_state (some solar) id = if text_eq id (lit "sun.sun") then ok solar else err
