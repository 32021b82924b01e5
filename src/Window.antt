-- ===== src/Window.antt =====
-- internal/config/window.go: time-of-day windows with wall-clock or solar endpoints.
pub mod Parse
pub mod Cycle
mod Examples
use frigate_notifications.Prelude.{
  ℕ, ◌+◌, ◌*◌, Bool, true, false, not, ◌&&◌, ◌||◌, Text, if◌then◌else◌,
}
use frigate_notifications.Prelude.Int.{ℤ, pos, ltb_ℤ, rem_ℤ, ◌+ℤ◌}
use frigate_notifications.Clock.{second, minute, hour, day, Time, hour_of, minute_of, second_of}

pub data SolarEvent : Type 0 where
  no_solar sunrise sunset dawn dusk : SolarEvent

-- Durations since local midnight.
pub record SolarTimes : Type 0 where
  pub sunrise_at : ℤ
  pub sunset_at : ℤ
  pub dawn_at : ℤ
  pub dusk_at : ℤ

pub record Endpoint : Type 0 where
  pub solar : SolarEvent
  pub clock : ℤ
  pub offset : ℤ
  pub raw : Text

abbrev pub is_solar_event : SolarEvent → Bool
is_solar_event no_solar = false
is_solar_event _ = true

abbrev pub is_solar : Endpoint → Bool
is_solar e = is_solar_event e.solar

unfoldable pub normalize_day : ℤ → ℤ
normalize_day d = let r = rem_ℤ d day in if ltb_ℤ r (pos 0) then r +ℤ pos day else r

-- The `switch` of `resolve`; without a case the base is the zero duration.
abbrev solar_base : SolarEvent → SolarTimes → ℤ
solar_base no_solar st = pos 0
solar_base sunrise st = st.sunrise_at
solar_base sunset st = st.sunset_at
solar_base dawn st = st.dawn_at
solar_base dusk st = st.dusk_at

unfoldable pub resolve : Endpoint → SolarTimes → ℤ
resolve e st =
    if not (is_solar e) then e.clock else normalize_day (solar_base e.solar st +ℤ e.offset)

pub record Window : Type 0 where
  pub from : Endpoint
  pub to : Endpoint

unfoldable pub needs_solar : Window → Bool
needs_solar w = is_solar w.from || is_solar w.to

abbrev pub clock_of : Time → ℕ
clock_of now = hour_of now * hour + minute_of now * minute + second_of now * second

-- The comparison at the end of `Contains`.
unfoldable pub in_arc : ℤ → ℤ → ℤ → Bool
in_arc n from to =
    if not (ltb_ℤ to from)
    then not (ltb_ℤ n from) && not (ltb_ℤ to n)
    else not (ltb_ℤ n from) || not (ltb_ℤ to n)

unfoldable pub within : Window → Time → SolarTimes → Bool
unfolding in_arc
within w now st = in_arc (pos (clock_of now)) (resolve w.from st) (resolve w.to st)
