-- ===== src/Replay/Examples.antt =====
-- cmd/replay/main.go: the flags read, and the house of `Scene` without the sun.
use frigate_notifications.Prelude.{
  ℕ, false, ◌*◌, ◌≡◌, refl, [], ◌∷◌, none, some, lit, ok, err, lookup, insert, text_eq,
}
use frigate_notifications.Unicode.{ascii}
use frigate_notifications.Prelude.Int.{pos}
use frigate_notifications.Clock.{hour, second}
use frigate_notifications.Config.{Config}
use frigate_notifications.Window.{SolarTimes, Endpoint, Window, no_solar, needs_solar}
use frigate_notifications.Rules.{MatchContext, new}
use frigate_notifications.Scene.{house, at_noon, quiet_rule, anything}
use frigate_notifications.Replay.{parse_sun, parse_clock, uses_solar}
use frigate_notifications.Replay.Sunless.{IsSunless, uses_solar-Sunless}

all_four :
    parse_sun ascii (lit "dawn=06:12,sunrise=6:42, sunset=19:50,dusk=20:20")
    ≡ ok (
        some (record {
          next_dawn = (6, 12);
          next_dusk = (20, 20);
          next_rising = (6, 42);
          next_setting = (19, 50);
        }))
unfolding parse_sun text_eq lookup insert
all_four = refl

three_only : parse_sun ascii (lit "dawn=06:12,sunrise=06:42,sunset=19:50") ≡ err
unfolding parse_sun text_eq lookup insert
three_only = refl

no_such_hour : parse_clock (lit "24:00") ≡ none
unfolding parse_clock
no_such_hour = refl

abbrev at_hour : ℕ → Endpoint
at_hour h = record { solar = no_solar; clock = pos (h * hour); offset = pos 0; raw = [] }

-- At night only, by the clock.
abbrev night : Window
night = record { from = at_hour 22; to = at_hour 6 }

abbrev at_night : Config
at_night = record house {
  rules = record quiet_rule { when = record anything { hours = some night } } ∷ [];
}

abbrev seen : MatchContext
seen = record {
  camera = lit "front";
  labels = lit "car" ∷ [];
  sub_labels = [];
  zones = [];
  severity = lit "detection";
  phase = new;
  now = record { instant = 43200 * second; location = λ t. pos 0 };
  dwell = pos 0;
  entity_state = none;
  solar = none;
}

abbrev bright : SolarTimes
bright = record {
  sunrise_at = pos (6 * hour);
  sunset_at = pos (20 * hour);
  dawn_at = pos (5 * hour);
  dusk_at = pos (21 * hour);
}

by_clock : uses_solar at_night ≡ false
unfolding uses_solar needs_solar
by_clock = refl

uses_solar-Sunless_example : IsSunless ascii at_night seen at_noon (some (ok bright)) (ok bright)
uses_solar-Sunless_example =
    uses_solar-Sunless ascii at_night seen at_noon (some (ok bright)) (ok bright) by_clock
