-- ===== src/Delivery/Examples.antt =====
-- internal/notifier/notifier.go: first sends and edits at work.
use frigate_notifications.Prelude.{refl, true, false, none, [], lit, ◌≡◌, ◌∷◌, lookup, All, err}
use frigate_notifications.Rules.{new}
use frigate_notifications.State.Extends.{Extends}
use frigate_notifications.State.Sends.{OfPush}
use frigate_notifications.Scene.{
  house, world, at_noon, start, car, sent_before, quiet_rule, empty_store,
}
use frigate_notifications.Delivery.First.{Starts}
use frigate_notifications.Delivery.Begin.{send_new-Extends}
use frigate_notifications.Delivery.Failed.{send_new-free}
use frigate_notifications.Delivery.Carried.{IsCovered, carry_over-IsCovered}
use frigate_notifications.Prelude.Int.{pos}
use frigate_notifications.Config.{Rule}
use frigate_notifications.Environment.{Env}
use frigate_notifications.Store.{Delivery, acquire_cooldown}
use frigate_notifications.Store.Memory.{Mem}
use frigate_notifications.Store.Memory.View.{view}
use frigate_notifications.Store.Guards.{acquire_cooldown-fresh}
use mathlib.Core.List.{Memᴰ}
use frigate_notifications.Delivery.{carry_over, scope_key, send_new}

send_new-Extends_example :
    Extends
      (OfPush (Starts house quiet_rule (lit "fn-r1") false))
      start
      (send_new world house at_noon car new 2 quiet_rule none start)
send_new-Extends_example = send_new-Extends world house at_noon car new 2 quiet_rule none start

abbrev deaf : Env Mem
deaf = record world { send = λ done t m prev. err }

abbrev cooling_rule : Rule
cooling_rule = record quiet_rule { cooldown = pos 60 }

car_free :
    (acquire_cooldown deaf.backend deaf.codecs
      (scope_key cooling_rule (lit "front"))
      (pos 60)
      at_noon.instant
      empty_store).0
    ≡ true
unfolding view lookup
car_free =
    acquire_cooldown-fresh deaf.backend deaf.codecs (scope_key cooling_rule (lit "front")) 59
      at_noon.instant empty_store refl refl

send_new-free_example :
    (acquire_cooldown deaf.backend deaf.codecs
      (scope_key cooling_rule (lit "front"))
      (pos 60)
      at_noon.instant
      (send_new deaf house at_noon car new 2 cooling_rule none start).store).0
    ≡ true
send_new-free_example =
    send_new-free deaf house at_noon (λ es t m prev. refl) refl car new 2 cooling_rule 59 refl
      at_noon.instant start refl car_free

abbrev reached : Delivery
reached = record { recipient = lit "bob"; target = 0; ref = lit "b"; tag = [] }

carry_over-IsCovered_example :
    All (λ d. Memᴰ d (carry_over (reached ∷ []) sent_before)) (reached ∷ [])
    × All
        (IsCovered (reached ∷ []) (carry_over (reached ∷ []) sent_before) (lit "fn-r1"))
        sent_before.deliveries
carry_over-IsCovered_example = carry_over-IsCovered (reached ∷ []) sent_before
