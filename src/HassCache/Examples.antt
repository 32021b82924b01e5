-- ===== src/HassCache/Examples.antt =====
-- internal/hasscache/hasscache.go: the caches at work.
use mathlib.Core.List.{Memᴰ}
use frigate_notifications.Prelude.{
  ℕ, ◌+◌, ◌*◌, ◌<◌, ◌≡◌, ◌⊎◌, inl, inr, All, none, refl, true, false, List, [], ◌∷◌, Text, lit,
  text_eq, if◌then◌else◌, Result, ok, err, arith, lookup, insert,
}
use frigate_notifications.Clock.{second, utc, Time}
use frigate_notifications.HassCache.{
  Cache, Call, Decoders, Attributes, new, state, fetch_state, ttl_of,
}
use frigate_notifications.HassCache.Entities.{
  Read, IsSpaced, Reached, created, state_asked, note, state-IsRecent, Reached-IsSpaced,
}
use frigate_notifications.Prelude.Int.{pos}
use frigate_notifications.Unicode.{ascii}
use frigate_notifications.Config.{Rule}
use frigate_notifications.Rules
use frigate_notifications.Rules.{
  MatchContext, match_one, evaluate, evaluate_home, entities_match, entity_matches, suppressed_by,
  suppressed_from,
}
use frigate_notifications.Scene.{quiet_rule, anything}
use frigate_notifications.HassCache.Matching.{IsCurrent, live, cached, cache_never_silences}
use frigate_notifications.HassCache.Sun.{IsLasting, solars, solars-IsLasting}

abbrev at_hour : ℕ → Time
at_hour h = record { instant = h * 3600 * second; location = utc }

abbrev sun : Attributes
sun = record {
  next_dawn = at_hour 30;
  next_dusk = at_hour 45;
  next_rising = at_hour 31;
  next_setting = at_hour 44;
}

-- A body is the state itself; that of the sun has its attributes.
abbrev decoders : Decoders
decoders = record {
  decode_state = λ body. ok body;
  decode_sun = λ body. if text_eq body (lit "above_horizon") then ok sun else err;
}

abbrev up : Text → Result Text
up id = if text_eq id (lit "sun.sun") then ok (lit "above_horizon") else ok (lit "home")

abbrev down : Text → Result Text
down id = err

abbrev call_at : ℕ → (Text → Result Text) → Call
call_at t response = record {
  asked = t * second;
  over = (t + 1) * second;
  response = response;
  cancelled = false;
}

abbrev ana_home : Text
ana_home = lit "person.ana"

abbrev fresh : Cache
fresh = new utc

-- A read that fails, and six seconds after it began one that succeeds.
abbrev after_one : Cache
after_one = (state decoders (call_at 100 down) ana_home fresh).1

abbrev one_read : List Read
one_read = note decoders (call_at 100 down) ana_home fresh []

abbrev after_two : Cache
after_two = (state decoders (call_at 106 up) ana_home after_one).1

abbrev two_reads : List Read
two_reads = note decoders (call_at 106 up) ana_home after_one one_read

one_reached : Reached decoders after_one one_read
one_reached = state_asked (call_at 100 down) ana_home (created utc) tt (omega arith)

two_reached : Reached decoders after_two two_reads
unfolding note fetch_state state lookup new
two_reached = state_asked (call_at 106 up) ana_home one_reached ((omega arith), tt) (omega arith)

-- The failed read still answers after three seconds, and a good one after nine.
still_failed : (state decoders (call_at 103 up) ana_home after_one).0 ≡ err
unfolding state lookup new insert text_eq
still_failed = refl

still_home : (state decoders (call_at 115 down) ana_home after_two).0 ≡ ok (lit "home")
unfolding state lookup new insert text_eq
still_home = refl

gone_after_ten : (state decoders (call_at 117 down) ana_home after_two).0 ≡ err
unfolding state lookup new insert text_eq
gone_after_ten = refl

state-IsRecent_example :
    ((state decoders (call_at 115 down) ana_home after_two).0
      ≡ fetch_state decoders (call_at 115 down) ana_home)
    ⊎ ((r : Read) × Memᴰ r two_reads
        × (r.entity ≡ ana_home)
        × ((state decoders (call_at 115 down) ana_home after_two).0 ≡ r.answer)
        × (115 * second < r.over + ttl_of r.answer))
state-IsRecent_example =
    state-IsRecent decoders after_two two_reads (call_at 115 down) ana_home two_reached

Reached-IsSpaced_example : IsSpaced two_reads
Reached-IsSpaced_example = Reached-IsSpaced decoders after_two two_reads two_reached

-- No answer, then one that is kept through an outage.
abbrev calls : List Call
calls = call_at 50 down ∷ call_at 60 up ∷ call_at 2000 down ∷ []

solars-IsLasting_example : IsLasting (solars decoders calls (new utc))
solars-IsLasting_example =
    solars-IsLasting decoders utc calls ((omega arith), ((omega arith), ((omega arith), tt)))

-- A rule that wants Ana at home, three seconds after the read that failed.
abbrev home_rule : Rule
home_rule = record quiet_rule {
  when = record anything { entity_state = (ana_home, lit "home") ∷ [] };
}

abbrev seen : MatchContext
seen = record {
  camera = lit "front";
  labels = lit "car" ∷ [];
  sub_labels = [];
  zones = [];
  severity = lit "detection";
  phase = Rules.new;
  now = record { instant = 103 * second; location = utc };
  dwell = pos 0;
  entity_state = none;
  solar = none;
}

one_current : All (IsCurrent decoders (call_at 103 up)) one_read
unfolding note fetch_state state lookup new
one_current = (inr (inl refl), tt)

home_live : (match_one ascii 0 home_rule (live decoders (call_at 103 up) seen)).matched ≡ true
unfolding match_one evaluate evaluate_home entities_match entity_matches suppressed_by
    suppressed_from fetch_state text_eq
home_live = refl

cache_never_silences_example :
    (match_one ascii 0 home_rule (cached decoders (call_at 103 up) after_one seen)).matched ≡ true
cache_never_silences_example =
    cache_never_silences decoders (call_at 103 up) ascii seen 0 home_rule after_one one_read
      one_reached one_current home_live
