-- ===== src/State.antt =====
-- internal/notifier/notifier.go: the notifier's own state, and the sends at the bottom of every path.
-- Calls that the source makes concurrently are made in the order of their lists.
pub mod Extends
pub mod Sends
pub mod Adds
use frigate_notifications.Prelude.{
  ℕ, suc, Bool, true, false, not, ◌&&◌, Option, none, some, List, [], ◌∷◌, ◌++◌, Text, Map,
  get_elem?, is_empty, if◌then◌else◌, Result, ok, err,
}
use frigate_notifications.Config.{Config, Recipient, Rule, Target, TargetType}
use frigate_notifications.Rules.{Phase}
use frigate_notifications.Frigate.{ReviewPayload}
use frigate_notifications.Message.{Message}
use frigate_notifications.Store.{Store}
use frigate_notifications.Environment.{
  Env, Moment, Effect, pushed, dry_logged, notification_saved, sent_counted, send_failed,
  NotificationRecord,
}

-- A decision that waits out its holdoff. The timer is its deadline; `token` tells it from a later
-- decision for the same review.
pub record PendingDecision : Type 0 where
  pub token : ℕ
  pub deadline : ℕ
  pub review : ReviewPayload
  pub phase : Phase

pub record State (P : Type 0) : Type 0 where
  pub store : Store P
  pub pending : Map PendingDecision
  pub next_token : ℕ
  -- the cameras already warned about
  pub unconfigured : List Text
  -- newest first
  pub effects : List Effect

pub record Job : Type 0 where
  pub target : ℕ
  pub prev : Text
  pub tag : Text

pub record SendResult : Type 0 where
  pub sent : Bool
  pub ref : Text

-- A job's own tag, or the message's.
abbrev pub or_tag : Text → Text → Text
or_tag [] tag = tag
or_tag (c ∷ own) tag = c ∷ own

module _ {P : Type 0} where
  unfoldable pub emit : Effect → State P → State P
  emit e s = record s { effects = e ∷ s.effects }

  unfoldable pub emit_all : List Effect → State P → State P
  emit_all [] s = s
  emit_all (e ∷ es) s = emit_all es (emit e s)

module _ {P : Type 0} (env : Env P) (cfg : Config) (at : Moment) where
  unfoldable pub send_one : Target → Message → Text → State P → Result Text × State P
  unfolding emit
  send_one t m prev s =
      if not (env.has_sender t.type)
      then (err, s)
      else if cfg.dry_run
      then (ok prev, emit (dry_logged t m) s)
      else (env.send s.effects t m prev, emit (pushed t m prev) s)

  record_of : Rule → Text → Phase → Text → Text → Target → Message → Bool → NotificationRecord
  record_of rule name phase review_id event_id t msg success = record {
    sent_at = at.instant;
    review_id = review_id;
    event_id = event_id;
    rule = rule.name;
    recipient = name;
    backend = t.type;
    target = t;
    phase = phase;
    preset = rule.preset;
    critical = msg.critical;
    dry_run = cfg.dry_run;
    message = msg;
    success = success;
  }

  -- What follows one send: the metrics, and the audit record.
  abbrev after_send :
      Rule
      → Text
      → Phase
      → Text
      → Text
      → Target
      → Message
      → Result Text
      → State P
      → SendResult × State P
  after_send rule name phase review_id event_id t msg err s = (
    record { sent = false; ref = [] },
    emit (notification_saved (record_of rule name phase review_id event_id t msg false))
        (emit (send_failed name t.type) s),
  )
  after_send rule name phase review_id event_id t msg (ok ref) s = (
    record { sent = true; ref = ref },
    emit (notification_saved (record_of rule name phase review_id event_id t msg true))
        (if cfg.dry_run then s else emit (sent_counted rule.name name t.type rule.preset phase) s),
  )

  -- One job. Its target is an index of the recipient's targets: every caller sees to that.
  unfoldable pub deliver_job :
      Text → Text → Text → Recipient → Job → Message → Rule → Phase → State P → SendResult × State P
  unfolding emit record_of
  deliver_job review_id event_id name recipient j msg rule phase s =
      elim (get_elem? recipient.targets j.target) [
        | none ↦ (record { sent = false; ref = [] }, s)
        | some t ↦
            let m : Message = record msg { tag = or_tag j.tag msg.tag } in
            let (r, s') = send_one t m j.prev s in
            after_send rule name phase review_id event_id t m r s'
      ]

  unfoldable pub deliver_jobs :
      Text
      → Text
      → Text
      → Recipient
      → List Job
      → Message
      → Rule
      → Phase
      → State P
      → List SendResult × State P
  deliver_jobs review_id event_id name recipient [] msg rule phase s = ([], s)
  deliver_jobs review_id event_id name recipient (j ∷ rest) msg rule phase s =
      let (r, s') = deliver_job review_id event_id name recipient j msg rule phase s in
      let (rs, s'') = deliver_jobs review_id event_id name recipient rest msg rule phase s' in
      (r ∷ rs, s'')

  unfoldable pub deliver_to :
      Text
      → Text
      → Text
      → Recipient
      → List Job
      → Message
      → Bool
      → Bool
      → Rule
      → Phase
      → State P
      → List SendResult × State P
  deliver_to review_id event_id name recipient jobs c critical update rule phase s =
      deliver_jobs review_id event_id name recipient jobs
        (record c { critical = critical; update = update }) rule phase s
