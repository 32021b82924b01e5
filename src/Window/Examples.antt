-- ===== src/Window/Examples.antt =====
-- internal/config/window.go: windows and times of day at work.
use frigate_notifications.Prelude.{◌*◌, ◌≡◌, ◌≤◌, ◌↔◌, true, Text, lit, Result, ok, err, arith}
use frigate_notifications.Prelude.Int.{ℤ, pos}
use frigate_notifications.Clock.{hour, Time}
use frigate_notifications.Unicode.{ascii}
use frigate_notifications.Unicode.Trim.{ascii-IsPlainAscii}
use frigate_notifications.Window.Cycle.{InDay, ahead, within-iff-ahead}
use frigate_notifications.Window.Parse.{parse_endpoint, wall_clock, pm}
use frigate_notifications.Window.Parse.Written.{hh_mm_half, parse_endpoint-hh_mm_half}
use frigate_notifications.Window.{Endpoint, Window, no_solar, within, resolve, clock_of, SolarTimes}

abbrev no_durations : Text → Result ℤ
no_durations t = err

abbrev ten : Endpoint
ten = record { solar = no_solar; clock = pos (22 * hour); offset = pos 0; raw = lit "22:00" }

abbrev six : Endpoint
six = record { solar = no_solar; clock = pos (6 * hour); offset = pos 0; raw = lit "06:00" }

-- From ten in the evening to six.
abbrev night : Window
night = record { from = ten; to = six }

abbrev three : Time
three = record { instant = 3 * hour; location = λ t. pos 0 }

abbrev no_sun : SolarTimes
no_sun = record { sunrise_at = pos 0; sunset_at = pos 0; dawn_at = pos 0; dusk_at = pos 0 }

ten-InDay : InDay (pos (22 * hour))
ten-InDay = record { from_midnight = omega arith; before_midnight = omega arith }

six-InDay : InDay (pos (6 * hour))
six-InDay = record { from_midnight = omega arith; before_midnight = omega arith }

within-iff-ahead_example : (within night three no_sun ≡ true) ↔ (
    ahead (resolve ten no_sun) (pos (clock_of three))
    ≤ ahead (resolve ten no_sun) (resolve six no_sun))
within-iff-ahead_example =
    within-iff-ahead night three no_sun (record { in_day = λ h. ten-InDay })
      (record { in_day = λ h. six-InDay })

parse_endpoint-hh_mm_half_example :
    parse_endpoint ascii no_durations (hh_mm_half 10 30 pm)
    ≡ ok (wall_clock 22 30 (hh_mm_half 10 30 pm))
parse_endpoint-hh_mm_half_example =
    parse_endpoint-hh_mm_half ascii no_durations ascii-IsPlainAscii 10 30 pm (omega arith)
      (omega arith) (omega arith)
