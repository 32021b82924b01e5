-- ===== src/Notifier/Steps.antt =====
-- internal/notifier/notifier.go: the pending decisions, through the message handlers and the timer.
use frigate_notifications.Prelude.{
  ℕ, ◌≡◌, refl, Bool, true, false, not, ◌&&◌, ◌||◌, Option, none, some, Text, text_eq, lookup,
  get_elem?, any, is_empty, ◌==◌, Option-cases, inl, inr, if◌then◌else◌,
}
use frigate_notifications.Prelude.Int.{pos, ltb_ℤ}
use frigate_notifications.Config.{Config, Rule, effective_holdoff}
use frigate_notifications.Rules.{Phase, new, update, end, genai, description}
use frigate_notifications.Frigate.{ReviewPayload, ReviewEvent, TrackedObjectUpdate}
use frigate_notifications.Store
use frigate_notifications.Store.{ReviewState, first_delivery, load_review, load_review_by_event}
use frigate_notifications.Environment.{Env, Moment, review_received, description_saved}
use frigate_notifications.State.{State, PendingDecision, emit}
use frigate_notifications.Delivery.Edits.{send_update-Extends}
use frigate_notifications.Notifier.Calls.{act-Called}
use frigate_notifications.Notifier.Sound.{
  IsSound, same-IsSound, Extends-IsSound, delete-IsSound, note_latest-IsSound,
  defer_decision-IsSound,
}
use frigate_notifications.Notifier.{
  act_on_state, decide_rule, decide_match, decide, noted, handle_gen_ai, fire_pending, timer_fired,
  ignore_camera, dispatch, take_review, handle_review, edit_late, last_ended,
  handle_late_description, cache_description, handle_tracked_object_update, is_face, delivery_key,
}

IsSound-if :
    {P : Type 0} {x y : State P} (b : Bool) → IsSound x → IsSound y → IsSound (if b then x else y)
IsSound-if true p q = p
IsSound-if false p q = q

module _ {P : Type 0} (env : Env P) (cfg : Config) (at : Moment) where
  act_on_state-IsSound :
      (review : ReviewPayload) (phase : Phase) (idx : ℕ) (rule : Rule) (s : State P)
      → get_elem? cfg.rules idx ≡ some rule
      → IsSound s
      → IsSound (act_on_state env cfg at review phase idx rule s)
  unfolding act_on_state
  act_on_state-IsSound review phase idx rule s e h =
      let (prior, store') = load_review env.backend env.codecs review.id at.instant s.store in
      Extends-IsSound _ _
        (act-Called env cfg at (λ now r found. Unit {0}) review phase idx rule prior
          (record s { store = store' }) tt e)
        (same-IsSound s _ refl refl h)

  decide_match-IsSound :
      (review : ReviewPayload) (phase : Phase) (waits : Bool) (matched : Option ℕ) (s : State P)
      → IsSound s
      → IsSound (decide_match env cfg at review phase waits matched s)
  unfolding decide decide_rule emit
  decide_match-IsSound review phase waits none s h = same-IsSound s _ refl refl h
  decide_match-IsSound review phase waits (some idx) s h =
      elim (Option-cases (get_elem? cfg.rules idx)) [
        | inl gone ↦ rw gone h
        | inr (rule, e) ↦ rw e (
            IsSound-if (waits && ltb_ℤ (pos 0) (effective_holdoff env.unicode rule))
              (defer_decision-IsSound _ review phase s h)
              (act_on_state-IsSound review phase idx rule s e h))
      ]

  noted-IsSound :
      (review : ReviewPayload) (phase : Phase) (deferred : Bool) (s : State P)
      → IsSound s
      → IsSound (noted env cfg at review phase deferred s).1
  noted-IsSound review phase true s h = h
  noted-IsSound review phase false s h = note_latest-IsSound review phase s h

  decide-IsSound :
      (review : ReviewPayload) (phase : Phase) (deferred : Bool) (s : State P)
      → IsSound s
      → IsSound (decide env cfg at review phase deferred s)
  unfolding decide
  decide-IsSound review phase deferred s h =
      decide_match-IsSound review phase _ _ _ (noted-IsSound review phase deferred s h)

  handle_gen_ai-IsSound :
      (review : ReviewPayload) (s : State P)
      → IsSound s
      → IsSound (handle_gen_ai env cfg at review s)
  unfolding handle_gen_ai
  handle_gen_ai-IsSound review s h =
      let (found, store') = load_review env.backend env.codecs review.id at.instant s.store in
      let h' : IsSound (record s { store = store' }) = same-IsSound s _ refl refl h in
      elim (Option-cases found) [
        | inl unknown ↦ rw (unknown, handle_gen_ai) h'
        | inr (prior, e) ↦
            rw (e, handle_gen_ai)
              (Extends-IsSound _ _ (send_update-Extends env cfg at prior review genai _) h')
      ]

  dispatch-IsSound :
      (phase : Phase) (review : ReviewPayload) (s : State P)
      → IsSound s
      → IsSound (dispatch env cfg at phase review s)
  dispatch-IsSound genai review s h = handle_gen_ai-IsSound review s h
  dispatch-IsSound new review s h = decide-IsSound review new false s h
  dispatch-IsSound update review s h = decide-IsSound review update false s h
  dispatch-IsSound end review s h = decide-IsSound review end false s h
  dispatch-IsSound description review s h = decide-IsSound review description false s h

  take_review-IsSound :
      (event : ReviewEvent) (s : State P) → IsSound s → IsSound (take_review env cfg at event s)
  unfolding take_review emit ignore_camera
  take_review-IsSound event s h = elim (Option-cases (lookup event.after.camera cfg.cameras)) [
    | inl unknown ↦
        rw (unknown, take_review)
          (IsSound-if (any (text_eq event.after.camera) s.unconfigured)
            (same-IsSound s _ refl refl h) (same-IsSound s _ refl refl h))
    | inr (camera, e) ↦
        rw (e, take_review)
          (dispatch-IsSound event.type event.after _ (same-IsSound s _ refl refl h))
  ]

  pub handle_review-IsSound :
      (event : ReviewEvent) (s : State P) → IsSound s → IsSound (handle_review env cfg at event s)
  unfolding handle_review emit
  handle_review-IsSound event s h =
      let s1 = emit (review_received event.type event.after.camera) s in
      let (first, store') =
        first_delivery env.backend env.codecs event.after.id (delivery_key env cfg at event)
          at.instant s1.store in
      let s2 : State P = record s1 { store = store' } in
      let h2 : IsSound s2 = same-IsSound s s2 refl refl h in
      IsSound-if (not first) h2 (take_review-IsSound event s2 h2)

  edit_late-IsSound :
      (found : Option (Text × ReviewState)) (s : State P)
      → IsSound s
      → IsSound (edit_late env cfg at found s)
  edit_late-IsSound none s h = h
  edit_late-IsSound (some (review_id, prior)) s h =
      elim (Option-cases (last_ended env cfg at prior)) [
        | inl going ↦ rw (going, edit_late) h
        | inr (review, e) ↦
            rw (e, edit_late)
              (Extends-IsSound s _ (send_update-Extends env cfg at prior review description s) h)
      ]

  handle_late_description-IsSound :
      (event_id : Text) (s : State P)
      → IsSound s
      → IsSound (handle_late_description env cfg at event_id s)
  unfolding handle_late_description
  handle_late_description-IsSound event_id s h =
      let (found, store') =
        load_review_by_event env.backend env.codecs event_id at.instant s.store in
      edit_late-IsSound found (record s { store = store' }) (same-IsSound s _ refl refl h)

  pub handle_tracked_object_update-IsSound :
      (upd : TrackedObjectUpdate) (s : State P)
      → IsSound s
      → IsSound (handle_tracked_object_update env cfg at upd s)
  unfolding handle_tracked_object_update cache_description emit
  handle_tracked_object_update-IsSound upd s h =
      let s1 = emit (description_saved upd.id upd.description_text) s in
      let (known, store1) = Store.description env.backend env.codecs upd.id at.instant s1.store in
      let store2 =
        Store.set_description env.backend env.codecs upd.id upd.description_text at.instant
          store1 in
      let s2 : State P = record s1 { store = store2 } in
      let h2 : IsSound s2 = same-IsSound s s2 refl refl h in
      IsSound-if (is_face env cfg at upd.type || is_empty upd.description_text) h (
        IsSound-if (text_eq known upd.description_text) h2
          (handle_late_description-IsSound upd.id s2 h2))

  fire_pending-IsSound :
      (review_id : Text) (token : ℕ) (found : Option PendingDecision) (s : State P)
      → IsSound s
      → IsSound (fire_pending env cfg at review_id token found s)
  unfolding fire_pending
  fire_pending-IsSound review_id token none s h = h
  fire_pending-IsSound review_id token (some p) s h =
      let gone = delete-IsSound review_id s h in
      IsSound-if (not (p.token == token)) h
        (IsSound-if at.cancelled gone (decide-IsSound p.review p.phase true _ gone))

  pub timer_fired-IsSound :
      (review_id : Text) (token : ℕ) (s : State P)
      → IsSound s
      → IsSound (timer_fired env cfg at review_id token s)
  unfolding timer_fired
  timer_fired-IsSound review_id token s h =
      fire_pending-IsSound review_id token (lookup review_id s.pending) s h
