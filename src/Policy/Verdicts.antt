-- ===== src/Policy/Verdicts.antt =====
-- internal/notifier/policy.go: the verdicts.
use frigate_notifications.Prelude.{◌≡◌, Bool, true, ◌&&◌, Text, arith}
use frigate_notifications.Config.{Config, Recipient, Rule}
use frigate_notifications.Frigate.{ReviewPayload}
use frigate_notifications.Environment.{Env, Moment}
use frigate_notifications.State.{State}
use frigate_notifications.Policy.{send, apply_policy, apply_cap}

module _ {P : Type 0} (env : Env P) (cfg : Config) (at : Moment) (name : Text)
    (recipient : Recipient) (rule : Rule) (review : ReviewPayload) (s : State P) where
  -- Whenever a policy lets a push out, the push is critical exactly if the rule is critical and the
  -- recipient allows critical pushes.
  pub apply_policy-critical :
      (critical : Bool)
      → (apply_policy env cfg at name recipient rule review s).0 ≡ send critical
      → critical ≡ (rule.critical && recipient.allow_critical)
  unfolding apply_policy apply_cap
  apply_policy-critical critical h = ground arith

  -- Where the rule is critical and the recipient allows it, the policy lets a critical push out and
  -- changes nothing: neither skipped people, hours nor the cap hold it, and the cap does not count it.
  pub apply_policy-at_once :
      (rule.critical && recipient.allow_critical) ≡ true
      → apply_policy env cfg at name recipient rule review s ≡ (send true, s)
  unfolding apply_policy
  apply_policy-at_once h = rw h
