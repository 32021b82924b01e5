-- ===== src/Delivery/First.antt =====
-- internal/notifier/notifier.go: what a first send and an escalation reach.
use frigate_notifications.Prelude.{
  ℕ, suc, ◌≡◌, ◌∙◌, refl, Bool, true, false, not, ◌&&◌, some, List, [], ◌∷◌, Text, lookup,
  get_elem?, All, All-mem, Bool-cases, Option-cases, inl, inr, arith,
}
use mathlib.Core.List.{Memᴰ}
use frigate_notifications.Config.{Config, Recipient, Rule, Target}
use frigate_notifications.Rules.{Phase}
use frigate_notifications.Frigate.{ReviewPayload}
use frigate_notifications.Message.{Message, digest}
use frigate_notifications.Environment.{Env, Moment, Effect, suppressed}
use frigate_notifications.State.{State, deliver_to}
use frigate_notifications.State.Extends.{Extends, Extends-refl, Extends-trans, Extends-emit}
use frigate_notifications.State.Sends.{OfPush, Allowed, deliver_jobs-Extends}
use frigate_notifications.Policy.{Verdict, send, held, apply_policy}
use frigate_notifications.Policy.Reach.{apply_policy-Extends}
use frigate_notifications.Policy.Verdicts.{apply_policy-critical, apply_policy-at_once}
use frigate_notifications.Delivery.{jobs_from, after_policy, notify, fan_out_to, fan_out, skips}

-- A call that creates a notification for one target of a recipient of the rule: it edits nothing, it
-- is critical exactly if the rule is and the recipient allows it.
pub record Creates (cfg : Config) (rule : Rule) (tag : Text) (t : Target) (m : Message)
    (prev : Text) : Type 0 where
  pub name : Text
  pub named : Memᴰ name rule.to
  pub recipient : Recipient
  pub known : lookup name cfg.recipients ≡ some recipient
  pub index : ℕ
  pub place : get_elem? recipient.targets index ≡ some t
  pub loud : m.critical ≡ (rule.critical && recipient.allow_critical)
  pub fresh : prev ≡ []
  pub same_tag : m.tag ≡ tag
  pub live : cfg.dry_run ≡ false

-- A call that sends a digest to a target of a recipient of the rule.
pub record SumsUp (cfg : Config) (rule : Rule) (t : Target) (m : Message) (prev : Text)
    : Type 0 where
  pub name : Text
  pub named : Memᴰ name rule.to
  pub recipient : Recipient
  pub known : lookup name cfg.recipients ≡ some recipient
  pub place : Memᴰ t recipient.targets
  pub sums : m.stage ≡ digest
  pub fresh : prev ≡ []
  pub live : cfg.dry_run ≡ false

-- A call that a first send or an escalation makes: a first send may send digests beside.
pub data Starts (cfg : Config) (rule : Rule) (tag : Text) (escalation : Bool) (t : Target)
    (m : Message) (prev : Text) : Type 0 where
  creates :
      Creates cfg rule tag t m prev
      → (escalation ≡ true → m.critical ≡ true)
      → Starts cfg rule tag escalation t m prev
  sums_up : escalation ≡ false → SumsUp cfg rule t m prev → Starts cfg rule tag escalation t m prev

module _ {P : Type 0} (env : Env P) (cfg : Config) (at : Moment) (review : ReviewPayload)
    (rule : Rule) (c : Message) (phase : Phase) (event_id : Text) (escalation : Bool) (tag : Text)
    (kept : c.tag ≡ tag) where
  abbrev Q : Effect → Type 0
  Q = OfPush (Starts cfg rule tag escalation)

  module _ (name : Text) (recipient : Recipient) (named : Memᴰ name rule.to)
      (known : lookup name cfg.recipients ≡ some recipient) where
    jobs_from-Allowed :
        (critical : Bool) (i : ℕ) (ts : List Target)
        → critical ≡ (rule.critical && recipient.allow_critical)
        → (escalation ≡ true → critical ≡ true)
        → All
            (Allowed env cfg at
              (Starts cfg rule tag escalation)
              review.id
              event_id
              name
              recipient
              (record c { critical = critical; update = false })
              rule
              phase)
            (jobs_from i ts)
    unfolding jobs_from
    jobs_from-Allowed critical i [] loud esc = tt
    jobs_from-Allowed critical i (_ ∷ ts) loud esc = (
      λ t at_target wet.
          creates
            (record {
              name = name;
              named = named;
              recipient = recipient;
              known = known;
              index = i;
              place = at_target;
              loud = loud;
              fresh = refl;
              same_tag = kept;
              live = wet;
            })
            esc,
      jobs_from-Allowed critical (suc i) ts loud esc,
    )

    after_policy-Extends :
        (v : Verdict) (s : State P)
        → ((critical : Bool)
            → v ≡ send critical
            → critical ≡ (rule.critical && recipient.allow_critical))
        → (escalation ≡ true → (rule.critical && recipient.allow_critical) ≡ true)
        → Extends Q s (after_policy env cfg at review rule c phase event_id name recipient v s).1
    unfolding after_policy deliver_to
    after_policy-Extends (held reason) s loud esc =
        Extends-emit (suppressed reason rule.name name) s tt
    after_policy-Extends (send critical) s loud esc =
        deliver_jobs-Extends env cfg at _ review.id event_id name recipient _ rule phase _ s (
          jobs_from-Allowed critical 0 recipient.targets (loud critical refl)
            (λ e. loud critical refl ∙ esc e))

    notify-Extends :
        (s : State P)
        → Extends Q s (notify env cfg at review rule c phase event_id escalation name recipient s).1
    unfolding notify
    notify-Extends s =
        let policy = apply_policy env cfg at name recipient rule review s in
        let reached : (escalation && not (rule.critical && recipient.allow_critical)) ≡ false
            → Extends Q s policy.1 =
          λ shown. elim (Bool-cases (rule.critical && recipient.allow_critical)) [
            | inl loud ↦
                rw (apply_policy-at_once env cfg at name recipient rule review s loud)
                  (Extends-refl s)
            | inr plain ↦
                apply_policy-Extends env cfg at _ recipient
                  (λ t m own wet sums. sums_up (ground arith) (record {
                    name = name;
                    named = named;
                    recipient = recipient;
                    known = known;
                    place = own;
                    sums = sums;
                    fresh = refl;
                    live = wet;
                  }))
                  name rule review s
          ] in
        elim (Bool-cases (skips env cfg at rule escalation recipient)) [
          | inl skipped ↦ rw skipped (Extends-refl s)
          | inr shown ↦ rw shown (
              Extends-trans (reached shown) (
                after_policy-Extends policy.0 policy.1
                  (apply_policy-critical env cfg at name recipient rule review s)
                  (λ e. ground arith)))
        ]

  fan_out_to-Extends :
      (names : List Text) (s : State P)
      → All (λ name. Memᴰ name rule.to) names
      → Extends Q s (fan_out_to env cfg at names review rule c phase event_id escalation s).1
  unfolding fan_out_to
  fan_out_to-Extends [] s h = Extends-refl s
  fan_out_to-Extends (name ∷ rest) s h = elim (Option-cases (lookup name cfg.recipients)) [
    | inl gone ↦ rw gone (fan_out_to-Extends rest s h.1)
    | inr (recipient, known) ↦
        rw known (
          Extends-trans (notify-Extends name recipient h.0 known s) (fan_out_to-Extends rest _ h.1))
  ]

  -- Telling the recipients of a rule calls a backend only, outside dry runs, to push a message with no
  -- ref to a target of a configured recipient that the rule names, critical exactly if the rule is and
  -- the recipient allows it, or, if this is no escalation, to send a digest to such a target. Every push of an
  -- escalation is critical.
  pub fan_out-Extends :
      (s : State P) → Extends Q s (fan_out env cfg at review rule c phase event_id escalation s).1
  unfolding fan_out
  fan_out-Extends s = fan_out_to-Extends rule.to s (All-mem _ rule.to (λ name m. m))
