-- ===== src/Delivery/Begin.antt =====
-- internal/notifier/notifier.go: a notification's first send, and the escalation to a louder rule.
use frigate_notifications.Prelude.{
  ℕ, ◌≡◌, Bool, true, false, not, Option, none, some, List, [], ◌∷◌, Text,
}
use frigate_notifications.Config.{Config, Rule, Target}
use frigate_notifications.Rules.{Phase}
use frigate_notifications.Frigate.{ReviewPayload, primary_event_id}
use frigate_notifications.Message.{Message}
use frigate_notifications.Content.{build_content}
use frigate_notifications.Content.Kept.{build_content-tag}
use frigate_notifications.Store.{Delivery, ReviewState, acquire_cooldown}
use frigate_notifications.Store.Alone.{acquire_cooldown-alone, release_cooldown-alone}
use frigate_notifications.Environment.{Env, Moment, suppressed, cooldown}
use frigate_notifications.State.{State}
use frigate_notifications.State.Extends.{
  Extends, Extends-refl, Extends-trans, Extends-emit, Extends-emit_all, Extends-store, Extends-if,
}
use frigate_notifications.State.Sends.{OfPush}
use frigate_notifications.Delivery.Reach.{cached_description-Extends, save-Extends, selected-quiet}
use frigate_notifications.Delivery.First.{Starts, fan_out-Extends}
use frigate_notifications.Delivery.{
  cached_description, conclude, deliver_new, send_new, give_back, scope_key, tag_of, is_escalation,
}

module _ {P : Type 0} (env : Env P) (cfg : Config) (at : Moment) (review : ReviewPayload)
    (phase : Phase) (idx : ℕ) (rule : Rule) where
  module _ (R : Target → Message → Text → Type 0) where
    give_back-Extends :
        (cooling : Bool) (s : State P)
        → Extends (OfPush R) s (give_back env cfg at rule review cooling s)
    unfolding give_back
    give_back-Extends true s = Extends-store s _ (λ h.
        release_cooldown-alone env.backend env.codecs s.store h (scope_key rule review.camera)
          at.instant)
    give_back-Extends false s = Extends-refl s

    conclude-Extends :
        (event_id : Text) (escalating : Option ReviewState) (tag : Text) (ds : List Delivery)
        (s : State P)
        → Extends (OfPush R) s (conclude env cfg at review idx rule event_id escalating tag ds s)
    conclude-Extends event_id escalating tag [] s = give_back-Extends _ s
    conclude-Extends event_id escalating tag (d ∷ ds) s = save-Extends env cfg at review.id _ s

  deliver_new-Extends :
      (escalating : Option ReviewState) (s : State P)
      → Extends
          (OfPush (
            Starts cfg rule
              (tag_of env cfg at review escalating)
              (is_escalation env cfg at escalating)))
          s
          (deliver_new env cfg at review phase idx rule escalating s)
  unfolding deliver_new
  deliver_new-Extends escalating s =
      let tag = tag_of env cfg at review escalating in
      let event_id = primary_event_id review in
      let desc = (cached_description env cfg at event_id s).0 in
      let (content, selected) =
        build_content env cfg at.instant review rule phase tag event_id desc in
      let kept : content.tag ≡ tag =
        build_content-tag env cfg at.instant review rule phase tag event_id desc in
      let out =
        fan_out-Extends env cfg at review rule content phase event_id
          (is_escalation env cfg at escalating) tag kept in
      Extends-trans (cached_description-Extends env cfg at event_id s) (
        Extends-trans
          (Extends-emit_all selected _
            (selected-quiet env cfg at _ at.instant review rule phase tag event_id desc))
          (Extends-trans (out _) (conclude-Extends _ event_id escalating tag _ _)))

  -- A first send or an escalation calls a backend only, outside dry runs, to push a message with no
  -- ref, under its own tag, to a target of a configured recipient that the rule names, critical
  -- exactly if the rule is and the recipient allows it, or, if it is a first send, to send a digest
  -- to such a target.
  -- Every push of an escalation is critical.
  pub send_new-Extends :
      (escalating : Option ReviewState) (s : State P)
      → Extends
          (OfPush (
            Starts cfg rule
              (tag_of env cfg at review escalating)
              (is_escalation env cfg at escalating)))
          s
          (send_new env cfg at review phase idx rule escalating s)
  unfolding send_new
  send_new-Extends (some prior) s = deliver_new-Extends (some prior) s
  send_new-Extends none s =
      let (free, store') =
        acquire_cooldown env.backend env.codecs (scope_key rule review.camera) rule.cooldown
          at.instant s.store in
      let asked = Extends-store s store' (λ h.
        acquire_cooldown-alone env.backend env.codecs s.store h (scope_key rule review.camera)
          rule.cooldown at.instant) in
      Extends-trans asked (
        Extends-if (not free) (λ _. Extends-emit (suppressed cooldown rule.name []) _ tt)
          (λ _. deliver_new-Extends none _))
