-- ===== src/Policy/Examples.antt =====
-- internal/notifier/policy.go: a policy at work.
use frigate_notifications.Prelude.{◌≡◌, refl, false, lit, arith, lookup, [], ◌∷◌}
use frigate_notifications.Scene.{house, world, at_noon, start, ana, codecs, empty_store}
use frigate_notifications.Prelude.Int.{pos}
use frigate_notifications.Clock.{hour_stamp}
use frigate_notifications.Config.{Recipient}
use frigate_notifications.Store.Interface.{IsLossless}
use frigate_notifications.Store.Memory.View.{view}
use frigate_notifications.Store.Rates.{InMemory}
use frigate_notifications.Environment.{rate_cap}
use frigate_notifications.Policy.Cap.{verdicts, verdicts-capped}
use frigate_notifications.Policy.{held, send, local_now}

int-IsLossless : IsLossless codecs.int
int-IsLossless = record { decode-encode = λ n. refl }

start-InMemory : InMemory world.backend world.codecs empty_store
start-InMemory = record { alone = refl; unique = tt }

-- Two pushes in the same hour, of which the cap lets one out.
abbrev one_an_hour : Recipient
one_an_hour = record ana { max_per_hour = pos 1 }

verdicts-capped_example :
    verdicts world house (lit "ana") one_an_hour (lit "front") (at_noon ∷ at_noon ∷ []) start
    ≡ send false ∷ held rate_cap ∷ []
unfolding view lookup
verdicts-capped_example =
    verdicts-capped world house (lit "ana") one_an_hour (lit "front") int-IsLossless
      (hour_stamp (local_now house at_noon)) at_noon.instant 0 (at_noon ∷ at_noon ∷ []) start
      start-InMemory (λ t le soon. refl)
      (refl, omega arith, omega arith, (refl, omega arith, omega arith, tt))
