-- ===== src/Sender/Registered.antt =====
-- internal/sender/sender.go: the backends that `New` registers, and the targets of a valid configuration.
use frigate_notifications.Prelude.{
  ◌≡◌, refl, Bool, true, not, some, All, All-map, Text, is_empty, if◌then◌else◌, ◌∷◌, [], Result,
  ok, err,
}
use frigate_notifications.Unicode.{Unicode}
use frigate_notifications.Config.{TargetType, hass, slack, ntfy, discord}
use frigate_notifications.Config.File.{FileConfig, FileTarget}
use frigate_notifications.Config.Problems.{target_type}
use frigate_notifications.Config.Validate.{Url}
use frigate_notifications.Config.Valid.{
  NonEmpty, IsReachable, IsValid, IsValidTarget, IsValidRecipient,
}

-- `New`: the backends for which there is what they need.
unfoldable pub registered : FileConfig → TargetType → Bool
registered c hass = true
registered c discord = true
registered c slack = not (is_empty c.slack.bot_token)
registered c ntfy = not (is_empty c.ntfy.url)

-- Registry.For
unfoldable pub sender_for : FileConfig → TargetType → Result TargetType
unfolding registered
sender_for c t = if registered c t then ok t else err

-- Every target has a type, and a sender for it.
pub IsServed : FileConfig → FileTarget → Type 0
IsServed c t = (k : TargetType) × (target_type t.type ≡ some k) × (sender_for c k ≡ ok k)

given : (t : Text) → NonEmpty t → not (is_empty t) ≡ true
given [] h = absurd (h refl)
given (c ∷ t) h = refl

module _ (parse : Text → Result Url) (c : FileConfig) where
  reachable-sender_for :
      (t : FileTarget) (k : TargetType) → IsReachable parse c t k → sender_for c k ≡ ok k
  unfolding sender_for registered
  reachable-sender_for t hass h = refl
  reachable-sender_for t discord h = refl
  reachable-sender_for t slack h = rw (given c.slack.bot_token h.1) refl
  reachable-sender_for t ntfy h = rw (given c.ntfy.url h.1) refl

  target-IsServed : (t : FileTarget) → IsValidTarget parse c t → IsServed c t
  unfolding IsServed
  target-IsServed t (k, e, h) = (k, e, reachable-sender_for t k h)

  -- In a valid configuration there is a sender for every target of every recipient.
  pub targets-IsServed :
      (u : Unicode) → IsValid parse u c → All (λ e. All (IsServed c) e.1.targets) c.recipients
  targets-IsServed u v =
      All-map (λ e. IsValidRecipient parse c e.1) (λ e. All (IsServed c) e.1.targets) c.recipients
        (λ e h. All-map (IsValidTarget parse c) (IsServed c) e.1.targets target-IsServed h.targets)
        v.recipients
