-- ===== src/Notifier/Runs.antt =====
-- internal/notifier/notifier.go: runs of messages and timers, in any order and at any moments.
use frigate_notifications.Prelude.{◌≡◌}
use frigate_notifications.Config.{Config}
use frigate_notifications.Environment.{Env, Moment}
use frigate_notifications.State.{State}
use frigate_notifications.State.Adds.{Adds}
use frigate_notifications.State.Sends.{OfPush}
use frigate_notifications.Notifier.Calls.{Called}
use frigate_notifications.Notifier.Handlers.{
  Cause, message, object, timer, Looks, handle_review-Called, handle_tracked_object_update-Called,
  timer_fired-Called,
}
use frigate_notifications.Notifier.Sound.{IsSound}
use frigate_notifications.Notifier.Steps.{
  handle_review-IsSound, handle_tracked_object_update-IsSound, timer_fired-IsSound,
}
use frigate_notifications.Notifier.{handle_review, handle_tracked_object_update, timer_fired}

module _ {P : Type 0} (env : Env P) (cfg : Config) where
  -- One message is handled, or one timer fires: also one that a later decision has overtaken.
  abbrev after : Moment → Cause → State P → State P
  after at (message event) s = handle_review env cfg at event s
  after at (object upd) s = handle_tracked_object_update env cfg at upd s
  after at (timer review_id token) s = timer_fired env cfg at review_id token s

  pub data Run (s : State P) : State P → Type 0 where
    still : Run s s
    step :
        {t u : State P} → Run s t → (at : Moment) (cause : Cause) → u ≡ after at cause t → Run s u

  -- The effects that each step of a run adds are no calls, or calls by what its handler finds.
  pub CallsFound : {s t : State P} → Run s t → Type 0
  CallsFound still = Unit
  CallsFound (step {t} run at cause e) =
      Adds (OfPush (Called env cfg (Looks env cfg t at cause))) t (after at cause t)
      × CallsFound run

  after-Called :
      (at : Moment) (cause : Cause) (s : State P)
      → Adds (OfPush (Called env cfg (Looks env cfg s at cause))) s (after at cause s)
  after-Called at (message event) s = handle_review-Called env cfg at event s
  after-Called at (object upd) s = handle_tracked_object_update-Called env cfg at upd s
  after-Called at (timer review_id token) s = timer_fired-Called env cfg at review_id token s

  after-IsSound :
      (at : Moment) (cause : Cause) (s : State P) → IsSound s → IsSound (after at cause s)
  after-IsSound at (message event) s h = handle_review-IsSound env cfg at event s h
  after-IsSound at (object upd) s h = handle_tracked_object_update-IsSound env cfg at upd s h
  after-IsSound at (timer review_id token) s h = timer_fired-IsSound env cfg at review_id token s h

  -- In every run of messages and timers, each step calls a backend outside dry runs only, and in one of
  -- two ways. Either with no ref it sends, for a rule of the configuration, the notification or a digest
  -- to a target of a recipient that the rule names, where the step's handler finds nothing sent for the
  -- review it is about, or only what a quieter rule that comes later sent. Or it edits, at its recipient
  -- and target, with its ref and under its tag, one of the deliveries that the handler then finds in the
  -- store for that review.
  pub Run-Called : (s t : State P) (run : Run s t) → CallsFound run
  unfolding CallsFound
  Run-Called s _ still = tt
  Run-Called s u (step {t} run at cause e) = (after-Called at cause t, Run-Called s t run)

  -- Every run keeps the pending decisions sound: each stands under the id of its review, with a token
  -- that was given out, so that no decision to come has the token of one that is pending.
  pub Run-IsSound : (s t : State P) → Run s t → IsSound s → IsSound t
  Run-IsSound s _ still h = h
  Run-IsSound s u (step {t} run at cause e) h =
      rw e (after-IsSound at cause t (Run-IsSound s t run h))
