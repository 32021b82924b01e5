-- ===== src/Policy.antt =====
-- internal/notifier/policy.go: a recipient's own preferences, applied to what a rule has selected.
pub mod Reach
pub mod Verdicts
pub mod Cap
mod Examples
use frigate_notifications.Prelude.{
  ℕ, suc, ◌*◌, Bool, true, false, not, ◌&&◌, Option, none, some, List, [], ◌∷◌, ◌++◌, Text, lit,
  is_empty, ltb, ◌==◌, if◌then◌else◌, Result, ok, err,
}
use frigate_notifications.Prelude.Int.{ℤ, pos, ltb_ℤ}
use frigate_notifications.Prelude.Numerals.{decimal}
use frigate_notifications.Clock.{second, minute, Time, Location, hour_of, minute_of}
use frigate_notifications.Window.{Window, SolarTimes, needs_solar, within}
use frigate_notifications.Config.{Config, Recipient, Rule, Target, camera_name, review_list_url}
use frigate_notifications.Rules.{accounts_for_everyone}
use frigate_notifications.Frigate.{ReviewPayload}
use frigate_notifications.Message.{Message, blank, digest}
use frigate_notifications.Store.{
  Store, DigestEntry, count_for_hour, add_to_digest, acquire_cooldown, clear_digest,
}
use frigate_notifications.Environment.{
  Env, Moment, Effect, send_failed, SuppressReason, only_skipped_people, outside_active_hours,
  rate_cap,
}
use frigate_notifications.State.{State, emit, send_one}

-- The source's verdict is `send` with `critical`, or a reason.
pub data Verdict : Type 0 where
  send : Bool → Verdict
  held : SuppressReason → Verdict

abbrev pub digest_interval : ℕ
digest_interval = 10 * minute

-- In the zone of the configuration.
abbrev pub local_now : Config → Moment → Time
local_now cfg at = record { instant = at.instant; location = cfg.location }

two_digits : ℕ → Text
two_digits n = (if ltb n 10 then lit "0" else []) ++ decimal n

-- since.Format("15:04")
clock_text : Time → Text
unfolding two_digits
clock_text t = two_digits (hour_of t) ++ (lit ":" ++ two_digits (minute_of t))

abbrev no_times : SolarTimes
no_times = record { sunrise_at = pos 0; sunset_at = pos 0; dawn_at = pos 0; dusk_at = pos 0 }

abbrev by_solar : Window → Time → Result SolarTimes → Bool
by_solar w now err = true
by_solar w now (ok st) = within w now st

-- The window of a recipient: without the sun's times it reads as open.
unfoldable pub in_active_hours : Moment → Window → Time → Bool
in_active_hours at w now = if needs_solar w then by_solar w now at.solar else within w now no_times

abbrev pub is_inactive : Moment → Option Window → Time → Bool
is_inactive at none now = false
is_inactive at (some w) now = not (in_active_hours at w now)

module _ {P : Type 0} (env : Env P) (cfg : Config) (at : Moment) where
  digest_message : Text → DigestEntry → Message
  unfolding clock_text
  digest_message camera entry =
      let since : Time = record { instant = entry.since * second; location = cfg.location } in
      let noun = if entry.count == 1 then lit "event" else lit "events" in
      let summary =
        decimal entry.count ++ (lit " more " ++ (noun ++ (lit " since " ++ clock_text since))) in
      record blank {
        camera = camera;
        title = camera_name cfg camera;
        headline = summary;
        body = summary;
        stage = digest;
        tag = lit "fn-digest-" ++ camera;
        click_url = review_list_url cfg;
      }

  abbrev after_digest : Text → Target → Result Text → State P → State P
  after_digest name t err s = emit (send_failed name t.type) s
  after_digest name t (ok ref) s = s

  unfoldable pub send_digests : Text → List Target → Message → State P → State P
  unfolding emit
  send_digests name [] msg s = s
  send_digests name (t ∷ rest) msg s =
      let (r, s') = send_one env cfg at t msg [] s in
      send_digests name rest msg (after_digest name t r s')

  unfoldable pub send_digest : Text → Recipient → Text → State P → State P
  unfolding digest_message
  send_digest name recipient camera s =
      let (entry, store1) =
        add_to_digest env.backend env.codecs name camera (local_now cfg at) s.store in
      let (fresh, store2) =
        acquire_cooldown env.backend env.codecs (lit "digest:" ++ (name ++ (lit ":" ++ camera)))
          (pos digest_interval) at.instant store1 in
      let s' : State P = record s { store = store2 } in
      let cleared : State P = record s {
        store = clear_digest env.backend env.codecs name camera at.instant store2;
      } in
      if not fresh
      then s'
      else send_digests name recipient.targets (digest_message camera entry) cleared

  -- The hourly cap, which counts this push.
  unfoldable pub apply_cap : Text → Recipient → Text → State P → Verdict × State P
  apply_cap name recipient camera s =
      let (count, store') = count_for_hour env.backend env.codecs name (local_now cfg at) s.store in
      let s' : State P = record s { store = store' } in
      if ltb_ℤ recipient.max_per_hour (pos count)
      then (held rate_cap, send_digest name recipient camera s')
      else (send false, s')

  unfoldable pub apply_policy :
      Text → Recipient → Rule → ReviewPayload → State P → Verdict × State P
  apply_policy name recipient rule review s =
      if rule.critical && recipient.allow_critical
      then (send true, s)
      else if not (is_empty recipient.skip_when_only)
          && accounts_for_everyone env.unicode recipient.skip_when_only
              review.review_data.sub_labels review.review_data.objects
      then (held only_skipped_people, s)
      else if is_inactive at recipient.active_hours (local_now cfg at)
      then (held outside_active_hours, s)
      else if ltb_ℤ (pos 0) recipient.max_per_hour
      then apply_cap name recipient review.camera s
      else (send false, s)
