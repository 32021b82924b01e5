-- ===== src/Window/Cycle.antt =====
-- internal/config/window.go: a window is an arc of the day's circle.
use frigate_notifications.Prelude.{ℕ, ◌+◌, ◌-◌, ◌%◌, ◌≤◌, ◌<◌, ◌≡◌, ◌↔◌, true, arith}
use frigate_notifications.Prelude.Int.{ℤ, pos, negsuc, pos_part, ◌≤ℤ◌, ◌+ℤ◌}
use frigate_notifications.Clock.{day, Time, second_of_day}
use frigate_notifications.Window.{
  Endpoint, SolarTimes, no_solar, Window, normalize_day, solar_base, resolve, clock_of, in_arc,
  within,
}

-- A time of day: a duration in [0, 24h).
pub record InDay (d : ℤ) : Type 0 where
  pub from_midnight : pos 0 ≤ℤ d
  pub before_midnight : d +ℤ pos 1 ≤ℤ pos day

pub normalize_day-InDay : (d : ℤ) → InDay (normalize_day d)
unfolding normalize_day
normalize_day-InDay d = ground arith

second_of_day_bound : (now : Time) → second_of_day now < 86400
unfolding second_of_day
second_of_day_bound now = omega arith

pub clock_of_bound : (now : Time) → clock_of now < day
clock_of_bound now = omega (arith, second_of_day_bound now)

-- A wall-clock endpoint that lies in the day; a solar one is brought into it by `resolve`.
pub record IsPlaced (e : Endpoint) : Type 0 where
  pub in_day : e.solar ≡ no_solar → InDay e.clock

-- Every placed endpoint resolves to a time of day, whatever the sun and the offset.
pub resolve-InDay : (e : Endpoint) (st : SolarTimes) → IsPlaced e → InDay (resolve e st)
unfolding resolve
resolve-InDay e st h =
    ground (arith, h.in_day, normalize_day-InDay (solar_base e.solar st +ℤ e.offset))

-- How far ahead of `a` the time of day `b` is, going round the clock.
abbrev pub ahead : ℤ → ℤ → ℕ
ahead a b = (pos_part b + day - pos_part a) % day

arc :
    (n : ℕ) (from to : ℤ)
    → n < day
    → InDay from
    → InDay to
    → (in_arc (pos n) from to ≡ true) ↔ (ahead from (pos n) ≤ ahead from to)
unfolding in_arc
arc n (pos a) (pos b) h f t = ground arith
arc n (pos a) (negsuc b) h f t = absurd (omega (arith, t.from_midnight))
arc n (negsuc a) to h f t = absurd (omega (arith, f.from_midnight))

-- A window whose endpoints lie in the day contains a time exactly if, going round the clock from its
-- start, one reaches that time no later than its end: also for a window that wraps midnight, and with
-- solar endpoints and offsets.
pub within-iff-ahead :
    (w : Window) (now : Time) (st : SolarTimes)
    → IsPlaced w.from
    → IsPlaced w.to
    → (within w now st ≡ true) ↔ (
        ahead (resolve w.from st) (pos (clock_of now))
        ≤ ahead (resolve w.from st) (resolve w.to st))
unfolding within
within-iff-ahead w now st f t =
    arc (clock_of now) (resolve w.from st) (resolve w.to st) (clock_of_bound now)
      (resolve-InDay w.from st f) (resolve-InDay w.to st t)
