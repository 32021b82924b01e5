-- ===== src/Delivery/Edits.antt =====
-- internal/notifier/notifier.go: updates of what was delivered.
use frigate_notifications.Prelude.{
  ℕ, suc, ◌≡◌, refl, true, false, ◌&&◌, some, List, [], ◌∷◌, map, Text, text_eq, lookup, get_elem?,
  length, ltb, All, All-mem, Bool-cases, Option-cases, inl, inr, arith, eq_of_text_eq,
}
use mathlib.Core.List.{Memᴰ}
use frigate_notifications.Config.{Config, Recipient, Rule, Target}
use frigate_notifications.Rules.{Phase, end}
use frigate_notifications.Frigate.{ReviewPayload, primary_event_id}
use frigate_notifications.Message.{Message}
use frigate_notifications.Content.{build_content, or_else}
use frigate_notifications.Content.Kept.{build_content-tag}
use frigate_notifications.Store.{Delivery, ReviewState, recipients}
use frigate_notifications.Environment.{Env, Moment}
use frigate_notifications.State.{State, Job, deliver_to, or_tag}
use frigate_notifications.State.Extends.{Extends, Extends-refl, Extends-trans, Extends-emit_all}
use frigate_notifications.State.Sends.{OfPush, Allowed, deliver_jobs-Extends}
use frigate_notifications.Delivery.Reach.{cached_description-Extends, save-Extends, selected-quiet}
use frigate_notifications.Delivery.{
  cached_description, update_jobs, job_of, redeliver_to, redeliver_all, redeliver, refresh,
  send_update,
}

-- A call of a backend that edits the notification of one earlier delivery: it goes to that delivery's
-- recipient and target, names its ref, keeps its tag, and is marked as an update.
pub record Edits (cfg : Config) (prior : ReviewState) (t : Target) (m : Message) (prev : Text)
    : Type 0 where
  pub delivery : Delivery
  pub earlier : Memᴰ delivery prior.deliveries
  pub recipient : Recipient
  pub known : lookup delivery.recipient cfg.recipients ≡ some recipient
  pub place : get_elem? recipient.targets delivery.target ≡ some t
  pub same_ref : prev ≡ delivery.ref
  pub same_tag : m.tag ≡ or_tag delivery.tag prior.tag
  pub quiet : m.update ≡ true
  pub live : cfg.dry_run ≡ false

module _ {P : Type 0} (env : Env P) (cfg : Config) (at : Moment) (prior : ReviewState) where
  abbrev Allows : Text → Text → Text → Recipient → Message → Rule → Phase → Job → Type 0
  Allows review_id event_id name recipient msg rule phase =
      Allowed env cfg at (Edits cfg prior) review_id event_id name recipient msg rule phase

  update_jobs_allowed :
      (review_id event_id name : Text) (recipient : Recipient) (msg : Message) (rule : Rule)
      (phase : Phase)
      → lookup name cfg.recipients ≡ some recipient
      → msg.tag ≡ prior.tag
      → msg.update ≡ true
      → (i : ℕ) (ds : List Delivery) → All (λ d. Memᴰ d prior.deliveries) ds
      → All
          (Allows review_id event_id name recipient msg rule phase)
          (map job_of (update_jobs name (length recipient.targets) i ds))
  unfolding update_jobs
  update_jobs_allowed review_id event_id name recipient msg rule phase known tag quiet i [] h = tt
  update_jobs_allowed review_id event_id name recipient msg rule phase known tag quiet i (d ∷ rest)
        h =
      let later =
        update_jobs_allowed review_id event_id name recipient msg rule phase known tag quiet (suc i)
          rest h.1 in
      elim (Bool-cases (text_eq d.recipient name && ltb d.target (length recipient.targets))) [
        | inr other ↦ rw other later
        | inl mine ↦ rw mine (
          λ t at_target wet. record {
            delivery = d;
            earlier = h.0;
            recipient = recipient;
            known =
                let e : d.recipient ≡ name = eq_of_text_eq d.recipient name (ground arith) in
                rw e known;
            place = at_target;
            same_ref = refl;
            same_tag = rw tag;
            quiet = quiet;
            live = wet;
          },
          later,
        )
      ]

  module _ (review_id event_id : Text) (c : Message) (tag : c.tag ≡ prior.tag) (rule : Rule)
      (phase : Phase) where
    redeliver_to-Extends :
        (name : Text) (recipient : Recipient) (ds : List Delivery) (s : State P)
        → lookup name cfg.recipients ≡ some recipient
        → Extends
            (OfPush (Edits cfg prior))
            s
            (redeliver_to env cfg at review_id event_id prior c rule phase name recipient ds s).1
    unfolding redeliver_to deliver_to
    redeliver_to-Extends name recipient ds s known =
        let msg : Message = record c {
          critical = recipient.allow_critical && rule.critical;
          update = true;
        } in
        deliver_jobs-Extends env cfg at (Edits cfg prior) review_id event_id name recipient msg rule
          phase _ s
          (update_jobs_allowed review_id event_id name recipient msg rule phase known tag refl 0
            prior.deliveries (All-mem _ prior.deliveries (λ d m. m)))

    redeliver_all-Extends :
        (names : List Text) (ds : List Delivery) (s : State P)
        → Extends
            (OfPush (Edits cfg prior))
            s
            (redeliver_all env cfg at review_id event_id prior c rule phase names ds s).1
    unfolding redeliver_all
    redeliver_all-Extends [] ds s = Extends-refl s
    redeliver_all-Extends (name ∷ rest) ds s = elim (Option-cases (lookup name cfg.recipients)) [
      | inl gone ↦ rw gone (redeliver_all-Extends rest ds s)
      | inr (recipient, known) ↦ rw known (
          Extends-trans (redeliver_to-Extends name recipient ds s known)
            (redeliver_all-Extends rest _ _))
    ]

    pub redeliver-Extends :
        (s : State P)
        → Extends
            (OfPush (Edits cfg prior))
            s
            (redeliver env cfg at review_id event_id prior c rule phase s).1
    unfolding redeliver
    redeliver-Extends s = redeliver_all-Extends (recipients prior) prior.deliveries s

  -- Refreshing a notification, under whatever rule and phase, calls a backend only to edit one of its
  -- earlier deliveries: at that delivery's recipient and target, with its ref and its tag, marked as
  -- an update, and never in a dry run. It leaves the holdoffs and the warnings alone.
  pub refresh-Extends :
      (review : ReviewPayload) (content_phase label : Phase) (idx : ℕ) (rule : Rule) (s : State P)
      → Extends
          (OfPush (Edits cfg prior))
          s
          (refresh env cfg at review content_phase label prior idx rule s)
  unfolding refresh
  refresh-Extends review content_phase label idx rule s =
      let event_id = or_else prior.event_id (primary_event_id review) in
      let desc = (cached_description env cfg at event_id s).0 in
      let (content, selected) =
        build_content env cfg at.instant review rule content_phase prior.tag event_id desc in
      Extends-trans (cached_description-Extends env cfg at event_id s) (
        Extends-trans
          (Extends-emit_all selected _ (
            selected-quiet env cfg at _ at.instant review rule content_phase prior.tag event_id
              desc))
          (Extends-trans
            (redeliver-Extends review.id event_id content
              (build_content-tag env cfg at.instant review rule content_phase prior.tag event_id
                desc)
              rule label _)
            (save-Extends env cfg at review.id _ _)))

  -- An update of a notification, under the rule that it was sent with, calls a backend only to edit
  -- one of its earlier deliveries: at that delivery's recipient and target, with its ref and its tag,
  -- marked as an update, and never in a dry run. It leaves the holdoffs and the warnings alone.
  pub send_update-Extends :
      (review : ReviewPayload) (label : Phase) (s : State P)
      → Extends (OfPush (Edits cfg prior)) s (send_update env cfg at review prior label s)
  unfolding send_update
  send_update-Extends review label s = elim (Option-cases (get_elem? cfg.rules prior.rule_index)) [
    | inl gone ↦ rw (gone, send_update) (Extends-refl s)
    | inr (rule, e) ↦ rw (e, send_update) (refresh-Extends review end label prior.rule_index rule s)
  ]
