-- ===== src/Notifier.antt =====
-- internal/notifier/notifier.go: the handlers of messages and timers, and the decision on a review.
pub mod Calls
pub mod Handlers
pub mod Quiet
pub mod Holdoff
pub mod Late
pub mod Memory
pub mod Sound
pub mod Steps
pub mod Runs
mod Examples
use frigate_notifications.Prelude.{
  ℕ, suc, ◌+◌, ◌-◌, ◌*◌, ◌/◌, Bool, true, false, not, ◌&&◌, ◌||◌, Option, none, some, List, [], ◌∷◌,
  ◌++◌, Text, lit, text_eq, lookup, insert, delete, get_elem?, is_empty, any, ltb, ◌==◌,
  if◌then◌else◌, Result, ok, err,
}
use frigate_notifications.Prelude.Int.{ℤ, pos, negsuc, sub_ℕ, ltb_ℤ}
use frigate_notifications.Clock.{second}
use frigate_notifications.Config.{Config, Rule, effective_holdoff}
use frigate_notifications.Rules.{
  Phase, new, update, end, genai, description, is_new, is_end, MatchContext, match_rules,
}
use frigate_notifications.Frigate
use frigate_notifications.Frigate.{
  ReviewPayload, ReviewEvent, TrackedObjectUpdate, UpdateType, face,
}
use frigate_notifications.Fingerprint.{fingerprint}
use frigate_notifications.Policy.{local_now}
use frigate_notifications.Store
use frigate_notifications.Store.{
  Store, ReviewState, first_delivery, load_review, load_review_by_event, set_description,
}
use frigate_notifications.Environment.{
  Env, Moment, Effect, review_received, review_saved, camera_warned, unmatched, description_saved,
}
use frigate_notifications.State.{State, PendingDecision, emit}
use frigate_notifications.Delivery.{send_new, send_update, refresh}

abbrev phase_name : Phase → Text
phase_name new = lit "new"
phase_name update = lit "update"
phase_name end = lit "end"
phase_name genai = lit "genai"
phase_name description = lit "description"

module _ {P : Type 0} where
  -- noteLatest: whether a holdoff is pending for the review, which then takes this payload. An end
  -- stops the wait.
  unfoldable pub note_latest : ReviewPayload → Phase → State P → Bool × State P
  note_latest review phase s = elim (lookup review.id s.pending) [
    | none ↦ (false, s)
    | some p ↦
        if is_end phase then (false, record s { pending = delete review.id s.pending }) else (
          true,
          record s {
            pending = insert review.id (record p { review = review; phase = phase }) s.pending;
          },
        )
  ]

  -- A second decision to wait replaces the payload, and leaves the timer.
  unfoldable pub defer_decision : ℕ → ReviewPayload → Phase → State P → State P
  defer_decision deadline review phase s = elim (lookup review.id s.pending) [
    | some p ↦ record s {
      pending = insert review.id (record p { review = review; phase = phase }) s.pending;
    }
    | none ↦ record s {
      pending =
          insert review.id
            (record { token = s.next_token; deadline = deadline; review = review; phase = phase })
            s.pending;
      next_token = suc s.next_token;
    }
  ]

module _ {P : Type 0} (env : Env P) (cfg : Config) (at : Moment) where
  dwell_of : ReviewPayload → ℤ
  dwell_of review = if not (ltb 0 review.start_time) then pos 0 else elim review.end_time [
    | none ↦ sub_ℕ at.instant (review.start_time / second * second)
    | some stop ↦ sub_ℕ (stop / second * second) (review.start_time / second * second)
  ]

  unfoldable pub match_context : ReviewPayload → Phase → MatchContext
  unfolding dwell_of
  match_context review phase = record {
    camera = review.camera;
    labels = review.review_data.objects;
    sub_labels = review.review_data.sub_labels;
    zones = review.review_data.zones;
    severity = review.severity;
    phase = phase;
    now = local_now cfg at;
    dwell = dwell_of review;
    entity_state = some at.entity_state;
    solar = some at.solar;
  }

  -- The `switch` of `decide`, by what was sent for the review before.
  unfoldable pub act : ReviewPayload → Phase → ℕ → Rule → Option ReviewState → State P → State P
  act review phase idx rule none s = send_new env cfg at review phase idx rule none s
  act review phase idx rule (some prior) s =
      if ltb idx prior.rule_index && (rule.critical && not prior.critical)
      then send_new env cfg at review phase idx rule (some prior) s
      else if ltb idx prior.rule_index
      then refresh env cfg at review phase phase prior idx rule s
      else if is_end phase
      then send_update env cfg at review prior end s
      else s

  unfoldable pub act_on_state : ReviewPayload → Phase → ℕ → Rule → State P → State P
  unfolding act
  act_on_state review phase idx rule s =
      let (prior, store') = load_review env.backend env.codecs review.id at.instant s.store in
      act review phase idx rule prior (record s { store = store' })

  abbrev deadline_of : ℤ → ℕ
  deadline_of (pos d) = at.instant + d
  deadline_of (negsuc d) = at.instant

  -- Hold off, where the rule that matched asks for it; `waits` says that this call may.
  unfoldable pub decide_rule : ReviewPayload → Phase → Bool → ℕ → Rule → State P → State P
  unfolding act_on_state
  decide_rule review phase waits idx rule s =
      let delay = effective_holdoff env.unicode rule in
      if waits && ltb_ℤ (pos 0) delay
      then defer_decision (deadline_of delay) review phase s
      else act_on_state review phase idx rule s

  abbrev with_rule : ReviewPayload → Phase → Bool → ℕ → Option Rule → State P → State P
  with_rule review phase waits idx none s = s
  with_rule review phase waits idx (some rule) s = decide_rule review phase waits idx rule s

  abbrev decide_match : ReviewPayload → Phase → Bool → Option ℕ → State P → State P
  decide_match review phase waits none s = emit (unmatched review.camera phase) s
  decide_match review phase waits (some idx) s =
      with_rule review phase waits idx (get_elem? cfg.rules idx) s

  abbrev noted : ReviewPayload → Phase → Bool → State P → Bool × State P
  noted review phase true s = (false, s)
  noted review phase false s = note_latest review phase s

  unfoldable pub decide : ReviewPayload → Phase → Bool → State P → State P
  unfolding decide_rule emit
  decide review phase deferred s =
      let (holding, s') = noted review phase deferred s in
      decide_match review phase (not deferred && (is_new phase || holding))
        (match_rules env.unicode cfg.rules (match_context review phase)).0 s'

  unfoldable pub handle_gen_ai : ReviewPayload → State P → State P
  handle_gen_ai review s =
      let (prior, store') = load_review env.backend env.codecs review.id at.instant s.store in
      let s' : State P = record s { store = store' } in
      elim prior [ none ↦ s' | some st ↦ send_update env cfg at review st genai s' ]

  -- A camera that is not in the configuration is warned about once.
  unfoldable pub ignore_camera : Text → State P → State P
  unfolding emit
  ignore_camera camera s =
      if any (text_eq camera) s.unconfigured
      then s
      else emit (camera_warned camera) (record s { unconfigured = camera ∷ s.unconfigured })

  abbrev dispatch : Phase → ReviewPayload → State P → State P
  dispatch genai review s = handle_gen_ai review s
  dispatch phase review s = decide review phase false s

  -- After the redelivery guard.
  unfoldable pub take_review : ReviewEvent → State P → State P
  unfolding emit ignore_camera
  take_review event s =
      let review = event.after in
      let s' = emit (review_saved review event.type) s in
      elim (lookup review.camera cfg.cameras) [
        | none ↦ ignore_camera review.camera s'
        | some _ ↦ dispatch event.type review s'
      ]

  abbrev delivery_key : ReviewEvent → Text
  delivery_key event =
      phase_name event.type ++ (lit ":" ++ fingerprint env.hash env.decode_metadata event.after)

  unfoldable pub handle_review : ReviewEvent → State P → State P
  unfolding emit take_review
  handle_review event s =
      let s1 = emit (review_received event.type event.after.camera) s in
      let (first, store') =
        first_delivery env.backend env.codecs event.after.id (delivery_key event) at.instant
          s1.store in
      let s2 : State P = record s1 { store = store' } in
      if not first then s2 else take_review event s2

  abbrev ended_payload : Option ReviewPayload → Option ReviewPayload
  ended_payload none = none
  ended_payload (some review) = elim review.end_time [ none ↦ none | some _ ↦ some review ]

  -- The payload that a notification was last rendered from, if its review has ended.
  abbrev last_ended : ReviewState → Option ReviewPayload
  last_ended prior =
      if is_empty prior.payload then none else ended_payload (env.review_codec.decode prior.payload)

  abbrev edit_late : Option (Text × ReviewState) → State P → State P
  edit_late none s = s
  edit_late (some (review_id, prior)) s = elim (last_ended prior) [
    | none ↦ s
    | some review ↦ send_update env cfg at review prior description s
  ]

  unfoldable pub handle_late_description : Text → State P → State P
  handle_late_description event_id s =
      let (found, store') =
        load_review_by_event env.backend env.codecs event_id at.instant s.store in
      edit_late found (record s { store = store' })

  cache_description : TrackedObjectUpdate → State P → State P
  unfolding emit handle_late_description
  cache_description upd s =
      let s1 = emit (description_saved upd.id upd.description_text) s in
      let (known, store1) = Store.description env.backend env.codecs upd.id at.instant s1.store in
      let store2 =
        set_description env.backend env.codecs upd.id upd.description_text at.instant store1 in
      let s2 : State P = record s1 { store = store2 } in
      if text_eq known upd.description_text then s2 else handle_late_description upd.id s2

  abbrev is_face : UpdateType → Bool
  is_face face = true
  is_face Frigate.description = false

  unfoldable pub handle_tracked_object_update : TrackedObjectUpdate → State P → State P
  unfolding cache_description
  handle_tracked_object_update upd s =
      if is_face upd.type || is_empty upd.description_text then s else cache_description upd s

  -- The function that the timer of a holdoff runs. A token that is no longer pending was decided.
  fire_pending : Text → ℕ → Option PendingDecision → State P → State P
  unfolding decide
  fire_pending review_id token none s = s
  fire_pending review_id token (some p) s =
      let s' : State P = record s { pending = delete review_id s.pending } in
      if not (p.token == token)
      then s
      else if at.cancelled
      then s'
      else decide p.review p.phase true s'

  unfoldable pub timer_fired : Text → ℕ → State P → State P
  unfolding fire_pending
  timer_fired review_id token s = fire_pending review_id token (lookup review_id s.pending) s
