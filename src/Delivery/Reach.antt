-- ===== src/Delivery/Reach.antt =====
-- internal/notifier/notifier.go: which messages the delivery paths send, and to whom.
use frigate_notifications.Prelude.{ℕ, [], ◌∷◌, Text, All, Option-cases, inl, inr}
use frigate_notifications.Config.{Config, Rule, Target}
use frigate_notifications.Rules.{Phase}
use frigate_notifications.Frigate.{ReviewPayload}
use frigate_notifications.Message.{Message}
use frigate_notifications.Content.{build_content}
use frigate_notifications.Store.{ReviewState}
use frigate_notifications.Store.Alone.{description-alone, save_review-alone}
use frigate_notifications.Environment.{Env, Moment, Effect}
use frigate_notifications.State.{State}
use frigate_notifications.State.Extends.{Extends, Extends-refl, Extends-store}
use frigate_notifications.State.Sends.{OfPush}
use frigate_notifications.Delivery.{cached_description, save}

module _ {P : Type 0} (env : Env P) (cfg : Config) (at : Moment) where
  pub cached_description-Extends :
      {Q : Effect → Type 0} (event_id : Text) (s : State P)
      → Extends Q s (cached_description env cfg at event_id s).1
  unfolding cached_description
  cached_description-Extends [] s = Extends-refl s
  cached_description-Extends (c ∷ id) s =
      Extends-store s _
        (λ h. description-alone env.backend env.codecs s.store h (c ∷ id) at.instant)

  pub save-Extends :
      {Q : Effect → Type 0} (review_id : Text) (st : ReviewState) (s : State P)
      → Extends Q s (save env cfg at review_id st s)
  unfolding save
  save-Extends review_id st s =
      Extends-store s _ (save_review-alone env.backend env.codecs review_id st at.instant s.store)

  -- Choosing media calls no backend.
  pub selected-quiet :
      (R : Target → Message → Text → Type 0) (now : ℕ) (review : ReviewPayload) (rule : Rule)
      (phase : Phase) (tag event_id desc : Text)
      → All (OfPush R) (build_content env cfg now review rule phase tag event_id desc).1
  unfolding build_content
  selected-quiet R now review rule phase tag event_id desc = elim (Option-cases env.signer) [
    | inl unsigned ↦ rw unsigned tt
    | inr (signer, e) ↦ rw e (tt, tt)
  ]
