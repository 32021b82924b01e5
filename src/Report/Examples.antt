-- ===== src/Report/Examples.antt =====
-- cmd/events/main.go: the report on three notes of two reviews.
use frigate_notifications.Prelude.{
  ℕ, ◌+◌, ◌*◌, ◌≡◌, refl, Bool, true, false, some, List, [], ◌∷◌, Text, lit, ok, lookup, insert,
  text_eq,
}
use frigate_notifications.Clock.{second}
use frigate_notifications.Config.{hass, auto}
use frigate_notifications.Rules.{new}
use frigate_notifications.Message.{blank}
use frigate_notifications.Environment.{NotificationRecord}
use frigate_notifications.Scene.{phone, car}
use frigate_notifications.Records.{ReviewEventRecord, new_review_event_record}
use frigate_notifications.Report.{latency, millisecond, per_recipient, totals_from, no_totals}
use frigate_notifications.Report.Delays.{IsDelay}
use frigate_notifications.Report.Counts.{IsCounted, totals-IsCounted}
use frigate_notifications.Report.Sound.{IsOutcome, latency-IsOutcome}

abbrev note_of : Text → ℕ → Bool → NotificationRecord
note_of id at dry = record {
  sent_at = at;
  review_id = id;
  event_id = lit "e1";
  rule = lit "loud";
  recipient = lit "ana";
  backend = hass;
  target = phone;
  phase = new;
  preset = auto;
  critical = false;
  dry_run = dry;
  message = blank;
  success = true;
}

abbrev reviews : List ReviewEventRecord
reviews =
    new_review_event_record (10 * second) car new
    ∷ new_review_event_record (12 * second) (record car { id = lit "r2" }) new
    ∷ []

-- Three seconds for the first review, a quarter of one and a bit for the second.
abbrev notes : List NotificationRecord
notes =
    note_of (lit "r1") (11 * second) true
    ∷ note_of (lit "r2") (12 * second + 250600000) false
    ∷ note_of (lit "r1") (13 * second) false
    ∷ []

reported :
    latency reviews notes
    ≡ ok (
        some (record {
          count = 2;
          p50 = 3000 * millisecond;
          p90 = 3000 * millisecond;
          longest = 3000 * millisecond;
        }))
unfolding latency new_review_event_record lookup insert text_eq
reported = refl

latency-IsOutcome_example : IsOutcome (IsDelay reviews notes) (latency reviews notes)
latency-IsOutcome_example = latency-IsOutcome reviews notes

totals-IsCounted_example : IsCounted notes (totals_from no_totals notes) (per_recipient notes [])
totals-IsCounted_example = totals-IsCounted notes
