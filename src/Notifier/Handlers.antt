-- ===== src/Notifier/Handlers.antt =====
-- internal/notifier/notifier.go: what the handlers of messages and timers call.
use frigate_notifications.Prelude.{
  ℕ, ◌≡◌, refl, true, false, not, ◌||◌, Option, none, some, Text, text_eq, lookup, any, is_empty,
  ◌==◌, Bool-cases, Option-cases, inl, inr, delete,
}
use frigate_notifications.Config.{Config}
use frigate_notifications.Rules.{Phase, new, update, end, genai, description}
use frigate_notifications.Frigate.{ReviewPayload, ReviewEvent, TrackedObjectUpdate}
use frigate_notifications.Store
use frigate_notifications.Store.{
  Store, ReviewState, first_delivery, load_review, load_review_by_event, set_description,
}
use frigate_notifications.Environment.{
  Env, Moment, Effect, camera_warned, review_saved, review_received, description_saved,
}
use frigate_notifications.State.{State, PendingDecision, emit}
use frigate_notifications.State.Extends.{Extends-weaken}
use frigate_notifications.State.Adds.{
  Adds, Adds-none, Adds-trans, Adds-emit, Adds-Extends, Adds-weaken, Adds-if,
}
use frigate_notifications.State.Sends.{OfPush}
use frigate_notifications.Delivery.Edits.{send_update-Extends}
use frigate_notifications.Notifier.Calls.{
  Called, edits, OfPush-map, decide-Called, handle_gen_ai-Called,
}
use frigate_notifications.Notifier.{
  ignore_camera, dispatch, take_review, handle_review, edit_late, last_ended, delivery_key,
  handle_late_description, cache_description, handle_tracked_object_update, is_face, fire_pending,
  timer_fired,
}

-- No call of a backend.
abbrev pub Silent : Effect → Type 0
Silent = OfPush (λ t m prev. ⊥)

module _ {P : Type 0} (env : Env P) (cfg : Config) (at : Moment) where
  pub ignore_camera-Silent :
      (camera : Text) (s : State P) → Adds Silent s (ignore_camera env cfg at camera s)
  unfolding ignore_camera
  ignore_camera-Silent camera s = elim (Bool-cases (any (text_eq camera) s.unconfigured)) [
    | inl warned ↦ rw warned (Adds-none refl)
    | inr unwarned ↦
        rw unwarned (Adds-trans (Adds-none refl) (Adds-emit (camera_warned camera) _ tt))
  ]

-- What makes a handler run.
pub data Cause : Type 0 where
  message : ReviewEvent → Cause
  object : TrackedObjectUpdate → Cause
  timer : Text → ℕ → Cause

module _ {P : Type 0} (env : Env P) (cfg : Config) where
  -- The store in which a review message looks for what was sent: after the guard.
  abbrev guarded : Moment → ReviewEvent → State P → Store P
  guarded at event s =
      (first_delivery env.backend env.codecs event.after.id (delivery_key env cfg at event)
        at.instant s.store).1

  -- The one in which an update looks: with the description that it brings.
  abbrev described : Moment → TrackedObjectUpdate → State P → Store P
  described at upd s =
      set_description env.backend env.codecs upd.id upd.description_text at.instant
        (Store.description env.backend env.codecs upd.id at.instant s.store).1

  -- What a handler looks at that runs in a state, at a moment, for a cause, and what it finds in the
  -- store: of the review of a message, of the review that is pending when a timer fires, or of the
  -- ended review that an update belongs to.
  pub data Looks (s : State P) (now : Moment) (cause : Cause) (at : Moment) (review : ReviewPayload)
      (prior : Option ReviewState) : Type 0 where
    by_message :
        (event : ReviewEvent)
        → cause ≡ message event
        → at ≡ now
        → review ≡ event.after
        → prior
          ≡ (load_review env.backend env.codecs event.after.id now.instant (guarded now event s)).0
        → Looks s now cause at review prior
    by_timer :
        (review_id : Text) (token : ℕ) (p : PendingDecision)
        → cause ≡ timer review_id token
        → at ≡ now
        → lookup review_id s.pending ≡ some p
        → review ≡ p.review
        → prior ≡ (load_review env.backend env.codecs p.review.id now.instant s.store).0
        → Looks s now cause at review prior
    by_update :
        (upd : TrackedObjectUpdate) (review_id : Text) (st : ReviewState)
        → cause ≡ object upd
        → at ≡ now
        → prior ≡ some st
        → (load_review_by_event env.backend env.codecs upd.id now.instant (described now upd s)).0
          ≡ some (review_id, st)
        → last_ended env cfg now st ≡ some review
        → Looks s now cause at review prior

module _ {P : Type 0} (env : Env P) (cfg : Config) (at : Moment)
    (L : Moment → ReviewPayload → Option ReviewState → Type 0) where
  dispatch-Called :
      (phase : Phase) (review : ReviewPayload) (s : State P)
      → L at review (load_review env.backend env.codecs review.id at.instant s.store).0
      → Adds (OfPush (Called env cfg L)) s (dispatch env cfg at phase review s)
  dispatch-Called genai review s l = handle_gen_ai-Called env cfg at L review s l
  dispatch-Called new review s l = decide-Called env cfg at L review new false s l
  dispatch-Called update review s l = decide-Called env cfg at L review update false s l
  dispatch-Called end review s l = decide-Called env cfg at L review end false s l
  dispatch-Called description review s l = decide-Called env cfg at L review description false s l

  take_review-Called :
      (event : ReviewEvent) (s : State P)
      → L at event.after (load_review env.backend env.codecs event.after.id at.instant s.store).0
      → Adds (OfPush (Called env cfg L)) s (take_review env cfg at event s)
  unfolding take_review
  take_review-Called event s l =
      Adds-trans (Adds-emit (review_saved event.after event.type) s tt)
        (elim (Option-cases (lookup event.after.camera cfg.cameras)) [
          | inl unknown ↦
              rw (unknown, take_review)
                (Adds-weaken (OfPush-map _ _ (λ t m prev h. absurd h))
                  (ignore_camera-Silent env cfg at event.after.camera _))
          | inr (camera, e) ↦ rw (e, take_review) (dispatch-Called event.type event.after _ l)
        ])

  edit_late-Called :
      (found : Option (Text × ReviewState)) (s : State P)
      → ((review_id : Text) (st : ReviewState) (review : ReviewPayload)
          → found ≡ some (review_id, st)
          → last_ended env cfg at st ≡ some review
          → L at review (some st))
      → Adds (OfPush (Called env cfg L)) s (edit_late env cfg at found s)
  edit_late-Called none s l = Adds-none refl
  edit_late-Called (some (review_id, prior)) s l =
      elim (Option-cases (last_ended env cfg at prior)) [
        | inl going ↦ rw (going, edit_late) (Adds-none refl)
        | inr (review, e) ↦
            rw (e, edit_late)
              (Adds-Extends (
                Extends-weaken
                  (OfPush-map _ _
                    (λ t m prev. edits at review prior (l review_id prior review refl e)))
                  (send_update-Extends env cfg at prior review description s)))
      ]

  handle_late_description-Called :
      (event_id : Text) (s : State P)
      → ((review_id : Text) (st : ReviewState) (review : ReviewPayload)
          → (load_review_by_event env.backend env.codecs event_id at.instant s.store).0
            ≡ some (review_id, st)
          → last_ended env cfg at st ≡ some review
          → L at review (some st))
      → Adds (OfPush (Called env cfg L)) s (handle_late_description env cfg at event_id s)
  unfolding handle_late_description
  handle_late_description-Called event_id s l = Adds-trans (Adds-none refl) (
      edit_late-Called (load_review_by_event env.backend env.codecs event_id at.instant s.store).0 _
        l)

module _ {P : Type 0} (env : Env P) (cfg : Config) (at : Moment) where
  -- Every call of a backend that a review message leads to is of a first send or an escalation as
  -- `Starts` says, or an edit as `Edits` says, by what the store then has of that review.
  pub handle_review-Called :
      (event : ReviewEvent) (s : State P)
      → Adds
          (OfPush (Called env cfg (Looks env cfg s at (message event))))
          s
          (handle_review env cfg at event s)
  unfolding handle_review
  handle_review-Called event s =
      let s1 = emit (review_received event.type event.after.camera) s in
      let received : Adds (OfPush (Called env cfg (Looks env cfg s at (message event)))) s s1 =
        Adds-emit _ s tt in
      let (first, store') =
        first_delivery env.backend env.codecs event.after.id (delivery_key env cfg at event)
          at.instant s1.store in
      let s2 : State P = record s1 { store = store' } in
      elim (Bool-cases (not first)) [
        | inl again ↦ rw (again, handle_review) (Adds-trans {t = s1} received (Adds-none refl))
        | inr fresh ↦
            rw (fresh, handle_review)
              (Adds-trans {t = s1} received (
                Adds-trans {t = s2} (Adds-none refl) (
                  take_review-Called env cfg at (Looks env cfg s at (message event)) event s2
                    (by_message event refl refl refl refl))))
      ]

  cache_description-Called :
      (upd : TrackedObjectUpdate) (s : State P)
      → Adds
          (OfPush (Called env cfg (Looks env cfg s at (object upd))))
          s
          (cache_description env cfg at upd s)
  unfolding cache_description
  cache_description-Called upd s =
      let known = (Store.description env.backend env.codecs upd.id at.instant s.store).0 in
      Adds-trans (Adds-emit (description_saved upd.id upd.description_text) s tt)
        (elim (Bool-cases (text_eq known upd.description_text)) [
          | inl same ↦ rw (same, cache_description) (Adds-none refl)
          | inr other ↦
              rw (other, cache_description)
                (Adds-trans (Adds-none refl) (
                  handle_late_description-Called env cfg at (Looks env cfg s at (object upd)) upd.id
                    _ (λ review_id st review f g. by_update upd review_id st refl refl refl f g)))
        ])

  -- The same holds of a tracked-object update.
  pub handle_tracked_object_update-Called :
      (upd : TrackedObjectUpdate) (s : State P)
      → Adds
          (OfPush (Called env cfg (Looks env cfg s at (object upd))))
          s
          (handle_tracked_object_update env cfg at upd s)
  unfolding handle_tracked_object_update
  handle_tracked_object_update-Called upd s =
      elim (Bool-cases (is_face env cfg at upd.type || is_empty upd.description_text)) [
        | inl ignored ↦ rw ignored (Adds-none refl)
        | inr taken ↦ rw taken (cache_description-Called upd s)
      ]

  fire_pending-Called :
      (review_id : Text) (token : ℕ) (found : Option PendingDecision) (s : State P)
      → lookup review_id s.pending ≡ found
      → Adds
          (OfPush (Called env cfg (Looks env cfg s at (timer review_id token))))
          s
          (fire_pending env cfg at review_id token found s)
  unfolding fire_pending
  fire_pending-Called review_id token none s e = Adds-none refl
  fire_pending-Called review_id token (some p) s e =
      let s' : State P = record s { pending = delete review_id s.pending } in
      let fired : Adds (OfPush (Called env cfg (Looks env cfg s at (timer review_id token)))) s s' =
        Adds-none refl in
      Adds-if (not (p.token == token)) (Adds-none refl) (
        Adds-if at.cancelled fired (
          Adds-trans fired (
            decide-Called env cfg at (Looks env cfg s at (timer review_id token)) p.review p.phase
              true s' (by_timer review_id token p refl refl e refl refl))))

  pub timer_fired-Called :
      (review_id : Text) (token : ℕ) (s : State P)
      → Adds
          (OfPush (Called env cfg (Looks env cfg s at (timer review_id token))))
          s
          (timer_fired env cfg at review_id token s)
  unfolding timer_fired
  timer_fired-Called review_id token s =
      fire_pending-Called review_id token (lookup review_id s.pending) s refl
