-- ===== src/HassCache.antt =====
-- internal/hasscache/hasscache.go: Home Assistant's states behind short caches.
pub mod Entities
pub mod Sun
pub mod Matching
mod Examples
use frigate_notifications.Prelude.{
  ℕ, ◌+◌, ◌*◌, ◌==◌, Bool, true, false, not, ◌&&◌, ◌||◌, Option, none, some, [], Text, lit, ltb,
  if◌then◌else◌, Map, lookup, insert, Result, ok, err,
}
use frigate_notifications.Prelude.Int.{ℤ, pos}
use frigate_notifications.Clock.{
  second, minute, hour, Location, Time, at_location, hour_of, minute_of, second_of,
}
use frigate_notifications.Window.{SolarTimes}

abbrev pub entity_ttl : ℕ
entity_ttl = 10 * second

abbrev pub solar_ttl : ℕ
solar_ttl = 15 * minute

abbrev pub fail_ttl : ℕ
fail_ttl = 5 * second

-- A read, which gave a state or failed, and when it was over.
pub record Entry : Type 0 where
  pub answer : Result Text
  pub fetched : ℕ

pub record Cache : Type 0 where
  pub location : Location
  pub entities : Map Entry
  pub solar : SolarTimes
  -- 0 until the first successful fetch
  pub solar_at : ℕ
  pub solar_err : Bool
  -- 0 while the latest fetch succeeded
  pub solar_err_at : ℕ

abbrev no_times : SolarTimes
no_times = record { sunrise_at = pos 0; sunset_at = pos 0; dawn_at = pos 0; dusk_at = pos 0 }

unfoldable pub new : Location → Cache
new loc = record {
  location = loc;
  entities = [];
  solar = no_times;
  solar_at = 0;
  solar_err = false;
  solar_err_at = 0;
}

-- The attributes of sun.sun, each 0 where it is missing.
pub record Attributes : Type 0 where
  pub next_dawn : Time
  pub next_dusk : Time
  pub next_rising : Time
  pub next_setting : Time

-- The client's JSON, as the two payloads it is decoded into.
pub record Decoders : Type 0 where
  pub decode_state : Text → Result Text
  pub decode_sun : Text → Result Attributes

-- One call: when it looks at the cache, when a read it makes is over, what Home Assistant then answers
-- within the time that is allowed, and whether the caller is cancelled by then.
pub record Call : Type 0 where
  pub asked : ℕ
  pub over : ℕ
  pub response : Text → Result Text
  pub cancelled : Bool

-- How long a read is remembered.
unfoldable pub ttl_of : Result Text → ℕ
ttl_of (ok s) = entity_ttl
ttl_of err = fail_ttl

-- time.Since(at) < ttl
abbrev pub recent : ℕ → ℕ → ℕ → Bool
recent at ttl now = ltb now (at + ttl)

abbrev pub is_ok : Result Text → Bool
is_ok (ok s) = true
is_ok err = false

unfoldable pub time_of_day : Location → Time → ℤ
time_of_day loc t =
    let local = at_location t loc in
    pos (hour_of local * hour + minute_of local * minute + second_of local * second)

abbrev is_zero : Time → Bool
is_zero t = t.instant == 0

abbrev pub lacking : Attributes → Bool
lacking a =
    is_zero a.next_dawn || is_zero a.next_dusk || is_zero a.next_rising || is_zero a.next_setting

unfoldable pub solar_times : Location → Attributes → Result SolarTimes
unfolding time_of_day
solar_times loc a =
    if lacking a
    then err
    else ok (record {
      dawn_at = time_of_day loc a.next_dawn;
      dusk_at = time_of_day loc a.next_dusk;
      sunrise_at = time_of_day loc a.next_rising;
      sunset_at = time_of_day loc a.next_setting;
    })

abbrev pub have_last : Cache → Bool
have_last c = ltb 0 c.solar_at

-- The last good value where there is one.
unfoldable pub last_solar : Cache → Result SolarTimes
last_solar c = if have_last c then ok c.solar else err

-- What a fetch leaves in the cache, and the answer.
unfoldable pub note_solar : Call → Cache → Result SolarTimes → Result SolarTimes × Cache
unfolding last_solar
note_solar call c err = (
  last_solar c,
  if call.cancelled then c else record c { solar_err = true; solar_err_at = call.over },
)
note_solar call c (ok s) =
    (ok s, record c { solar = s; solar_at = call.over; solar_err = false; solar_err_at = 0 })

module _ (ds : Decoders) where
  unfoldable pub fetch_state : Call → Text → Result Text
  fetch_state call entity_id = elim (call.response entity_id) [
    | err ↦ err
    | ok body ↦ ds.decode_state body
  ]

  -- The state that is in the cache and recent enough to be the answer.
  unfoldable pub cached_state : Cache → ℕ → Text → Option (Result Text)
  unfolding ttl_of
  cached_state c now entity_id = elim (lookup entity_id c.entities) [
    | none ↦ none
    | some e ↦ if recent e.fetched (ttl_of e.answer) now then some e.answer else none
  ]

  unfoldable pub refresh_state : Call → Text → Cache → Result Text × Cache
  unfolding fetch_state
  refresh_state call entity_id c =
      let answer = fetch_state call entity_id in
      if is_ok answer || not call.cancelled
      then (
        answer,
        record c {
          entities = insert entity_id (record { answer = answer; fetched = call.over }) c.entities;
        },
      )
      else (answer, c)

  unfoldable pub state : Call → Text → Cache → Result Text × Cache
  unfolding cached_state refresh_state
  state call entity_id c = elim (cached_state c call.asked entity_id) [
    | some answer ↦ (answer, c)
    | none ↦ refresh_state call entity_id c
  ]

  unfoldable pub fetch_solar : Call → Location → Result SolarTimes
  unfolding solar_times
  fetch_solar call loc = elim (call.response (lit "sun.sun")) [
    | err ↦ err
    | ok body ↦ elim (ds.decode_sun body) [ err ↦ err | ok a ↦ solar_times loc a ]
  ]

  unfoldable pub refresh_solar : Call → Cache → Result SolarTimes × Cache
  unfolding fetch_solar note_solar
  refresh_solar call c = note_solar call c (fetch_solar call c.location)

  unfoldable pub solar : Call → Cache → Result SolarTimes × Cache
  unfolding refresh_solar last_solar
  solar call c =
      if have_last c && recent c.solar_at solar_ttl call.asked
      then (ok c.solar, c)
      else if c.solar_err && recent c.solar_err_at fail_ttl call.asked
      then (last_solar c, c)
      else refresh_solar call c
