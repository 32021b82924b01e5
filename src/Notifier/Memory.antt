-- ===== src/Notifier/Memory.antt =====
-- internal/notifier/notifier.go: what a decision leaves for the messages that follow.
use frigate_notifications.Prelude.{
  ℕ, ◌+◌, ◌≤◌, ◌≡◌, false, not, ◌&&◌, none, some, Bool-cases, inl, inr, arith, ltb,
}
use frigate_notifications.Config.{Config, Rule}
use frigate_notifications.Rules.{Phase, end, is_end}
use frigate_notifications.Frigate.{ReviewPayload}
use frigate_notifications.Store.{ReviewState, load_review, review_ttl}
use frigate_notifications.Store.Interface.{IsLossless}
use frigate_notifications.Environment.{Env, Moment}
use frigate_notifications.State.{State}
use frigate_notifications.Delivery.Saved.{
  Continued, refresh-Continued, send_update-Continued, stays,
}
use frigate_notifications.Notifier.{act}

module _ {P : Type 0} (env : Env P) (cfg : Config) (at : Moment) where
  -- With no primary store and a codec that loses nothing, acting on a match where no louder rule takes over a quiet one never demotes a
  -- notification: what is loaded for the review afterwards, until six hours later, has a rule of the same priority or a higher
  -- one, the same tag, loudness and event, and deliveries at the same places in the same order.
  pub act-Continued :
      IsLossless env.codecs.review_state
      → (review : ReviewPayload) (phase : Phase) (idx : ℕ) (rule : Rule) (prior : ReviewState)
        (t : ℕ) (s : State P)
      → t ≤ at.instant + review_ttl
      → s.store.primary ≡ none
      → (load_review env.backend env.codecs review.id t s.store).0 ≡ some prior
      → (ltb idx prior.rule_index && (rule.critical && not prior.critical)) ≡ false
      → Continued env cfg at prior review.id t (act env cfg at review phase idx rule (some prior) s)
  unfolding act
  act-Continued exact review phase idx rule prior t s fresh alone held quiet =
      rw quiet (elim (Bool-cases (ltb idx prior.rule_index)) [
        | inl lower ↦ rw lower (
            refresh-Continued env cfg at prior exact review t fresh phase phase idx rule s alone
              (ground arith))
        | inr same ↦ rw same (elim (Bool-cases (is_end phase)) [
          | inl over ↦
              rw over (send_update-Continued env cfg at prior exact review t fresh end s alone held)
          | inr going ↦ rw going (stays env cfg at prior exact review t fresh s held)
        ])
      ])
