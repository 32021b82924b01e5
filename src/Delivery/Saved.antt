-- ===== src/Delivery/Saved.antt =====
-- internal/notifier/notifier.go: what is saved for a notification that is edited.
use frigate_notifications.Prelude.{
  ℕ, zero, suc, ◌+◌, ◌≤◌, ◌≡◌, refl, ◌∙◌, ap, not, ◌&&◌, none, some, List, [], ◌∷◌, map, Text,
  lookup, get_elem?, length, Bool-cases, Option-cases, inl, inr, arith, ◌==◌, text_eq,
  if◌then◌else◌,
}
use frigate_notifications.Config.{Config, Rule}
use frigate_notifications.Rules.{Phase, end}
use frigate_notifications.Frigate.{ReviewPayload, primary_event_id}
use frigate_notifications.Message.{Message}
use frigate_notifications.Content.{build_content, or_else}
use frigate_notifications.Store.{Delivery, ReviewState, recipients, load_review, review_ttl}
use frigate_notifications.Store.Interface.{IsLossless}
use frigate_notifications.Store.Reviews.{load-save-by_event}
use frigate_notifications.Environment.{Env, Moment}
use frigate_notifications.State.{State, Job, SendResult, emit_all}
use frigate_notifications.State.Extends.{Extends-trans, Extends-emit_all}
use frigate_notifications.Delivery.Reach.{cached_description-Extends, selected-quiet}
use frigate_notifications.Delivery.Edits.{Edits, redeliver-Extends}
use frigate_notifications.Content.Kept.{build_content-tag}
use frigate_notifications.Delivery.{
  cached_description, set_ref, note_refs, update_jobs, redeliver_to, redeliver_all, redeliver,
  refresh, save, under_rule, send_update,
}

-- Where a delivery is, whatever its ref.
abbrev pub place : Delivery → Text × ℕ × Text
place d = (d.recipient, d.target, d.tag)

-- A later state of the same notification: at the same places, under the same tag and as loud, and
-- under a rule of the same priority or a higher one.
pub record Continues (prior st : ReviewState) : Type 0 where
  pub no_lower : st.rule_index ≤ prior.rule_index
  pub same_tag : st.tag ≡ prior.tag
  pub as_loud : st.critical ≡ prior.critical
  pub same_event : st.event_id ≡ prior.event_id
  pub same_places : map place st.deliveries ≡ map place prior.deliveries

set_ref-place :
    (i : ℕ) (ref : Text) (ds : List Delivery) → map place (set_ref i ref ds) ≡ map place ds
set_ref-place i ref [] = refl
set_ref-place zero ref (d ∷ rest) = refl
set_ref-place (suc i) ref (d ∷ rest) = ap (λ ps. place d ∷ ps) (set_ref-place i ref rest)

note_refs-place :
    (js : List (ℕ × Job)) (rs : List SendResult) (ds : List Delivery)
    → map place (note_refs js rs ds).0 ≡ map place ds
unfolding note_refs
note_refs-place [] rs ds = refl
note_refs-place (j ∷ js) [] ds = refl
note_refs-place ((i, j) ∷ js) (r ∷ rs) ds =
    let new = r.sent && not (text_eq r.ref j.prev) in
    let ds' = if new then set_ref i r.ref ds else ds in
    note_refs-place js rs ds' ∙ elim (Bool-cases new) [
      | inl changed ↦ rw changed (set_ref-place i r.ref ds)
      | inr same ↦ rw same
    ]

module _ {P : Type 0} (env : Env P) (cfg : Config) (at : Moment) (prior : ReviewState) where
  module _ (review_id event_id : Text) (c : Message) (rule : Rule) (phase : Phase) where
    redeliver_all-place :
        (names : List Text) (ds : List Delivery) (s : State P)
        → map place (redeliver_all env cfg at review_id event_id prior c rule phase names ds s).0.0
          ≡ map place ds
    unfolding redeliver_all redeliver_to
    redeliver_all-place [] ds s = refl
    redeliver_all-place (name ∷ rest) ds s = elim (Option-cases (lookup name cfg.recipients)) [
      | inl gone ↦ rw gone (redeliver_all-place rest ds s)
      | inr (recipient, known) ↦ rw known (
          redeliver_all-place rest _ _
          ∙ note_refs-place (update_jobs name (length recipient.targets) 0 prior.deliveries) _ ds)
    ]

  under_rule-Continues :
      (idx : ℕ) (rule : Rule) (ds : List Delivery) (payload : Text)
      → idx ≤ prior.rule_index
      → map place ds ≡ map place prior.deliveries
      → Continues prior
          (record (under_rule env cfg at idx rule (record prior { deliveries = ds })) {
            payload = payload;
          })
  under_rule-Continues idx rule ds payload le same = elim (Bool-cases (idx == prior.rule_index)) [
    | inl equal ↦ rw equal (record {
      no_lower = omega arith;
      same_tag = refl;
      as_loud = refl;
      same_event = refl;
      same_places = same;
    })
    | inr other ↦ rw other (record {
      no_lower = le;
      same_tag = refl;
      as_loud = refl;
      same_event = refl;
      same_places = same;
    })
  ]

  -- What is loaded for the review after: a state that continues the prior one.
  abbrev pub Continued : Text → ℕ → State P → Type 0
  Continued review_id t s =
      (st : ReviewState) × ((load_review env.backend env.codecs review_id t s.store).0 ≡ some st)
      × Continues prior st

  module _ (exact : IsLossless env.codecs.review_state) (review : ReviewPayload) (t : ℕ)
      (fresh : t ≤ at.instant + review_ttl) where
    pub refresh-Continued :
        (content_phase label : Phase) (idx : ℕ) (rule : Rule) (s : State P)
        → s.store.primary ≡ none
        → idx ≤ prior.rule_index
        → Continued review.id t (refresh env cfg at review content_phase label prior idx rule s)
    unfolding refresh save redeliver
    refresh-Continued content_phase label idx rule s alone le =
        let event_id = or_else prior.event_id (primary_event_id review) in
        let (desc, s1) = cached_description env cfg at event_id s in
        let (content, selected) =
          build_content env cfg at.instant review rule content_phase prior.tag event_id desc in
        let tag =
          build_content-tag env cfg at.instant review rule content_phase prior.tag event_id desc in
        let s2 = emit_all selected s1 in
        let (r, s3) = redeliver env cfg at review.id event_id prior content rule label s2 in
        let sent =
          redeliver-Extends env cfg at prior review.id event_id content tag rule label s2 in
        let kept = Extends-trans (cached_description-Extends env cfg at event_id s) (
          Extends-trans
            (Extends-emit_all selected s1 (
              selected-quiet env cfg at (Edits cfg prior) at.instant review rule content_phase
                prior.tag event_id desc))
            sent) in
        let st : ReviewState = record (under_rule env cfg at idx rule r.0) {
          payload = env.review_codec.encode review;
        } in
        (
          st,
          (load-save-by_event env.backend env.codecs exact review.id st at.instant t s3.store
              (kept.in_memory alone) fresh).0,
          under_rule-Continues idx rule r.0.deliveries (env.review_codec.encode review) le (
              redeliver_all-place review.id event_id content rule label (recipients prior)
                prior.deliveries s2),
        )

    Continues-refl : Continues prior prior
    Continues-refl = record {
      no_lower = omega arith;
      same_tag = refl;
      as_loud = refl;
      same_event = refl;
      same_places = refl;
    }

    -- Where the prior state is loaded at that time, it stays.
    pub stays :
        (s : State P)
        → (load_review env.backend env.codecs review.id t s.store).0 ≡ some prior
        → Continued review.id t s
    stays s held = (prior, held, Continues-refl)

    pub send_update-Continued :
        (label : Phase) (s : State P)
        → s.store.primary ≡ none
        → (load_review env.backend env.codecs review.id t s.store).0 ≡ some prior
        → Continued review.id t (send_update env cfg at review prior label s)
    unfolding send_update
    send_update-Continued label s alone held =
        elim (Option-cases (get_elem? cfg.rules prior.rule_index)) [
          | inl gone ↦ rw (gone, send_update) (stays s held)
          | inr (rule, e) ↦
              rw (e, send_update)
                (refresh-Continued end label prior.rule_index rule s alone (omega arith))
        ]
