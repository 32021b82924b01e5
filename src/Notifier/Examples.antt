-- ===== src/Notifier/Examples.antt =====
-- internal/notifier/notifier.go: the handlers at work.
use frigate_notifications.Prelude.{
  ◌*◌, ◌≡◌, refl, true, false, some, [], ◌∷◌, lit, text_eq, lookup, delete, arith,
}
use frigate_notifications.Clock.{second}
use frigate_notifications.Unicode.{ascii}
use frigate_notifications.Config.{Config, effective_holdoff}
use frigate_notifications.Rules.{
  new, update, end, match_rules, match_from, match_one, evaluate, evaluate_home, contains, any_in,
  suppressed_by, suppressed_from, entities_match,
}
use frigate_notifications.Frigate.{ReviewEvent}
use frigate_notifications.Store.Memory.{Mem}
use frigate_notifications.State.{State, PendingDecision}
use frigate_notifications.State.Extends.{Extends}
use frigate_notifications.State.Adds.{Adds}
use frigate_notifications.State.Sends.{OfPush}
use frigate_notifications.Delivery.Edits.{Edits}
use frigate_notifications.Scene.{
  house, world, at_noon, start, car, car_gone, car_seen, told, sent_before, quiet_rule, slow_rule,
  codecs, empty_store,
}
use frigate_notifications.Notifier.Calls.{act-Edits}
use frigate_notifications.Notifier.Handlers.{Silent, message, timer}
use frigate_notifications.Notifier.Quiet.{dry_run-Silent}
use frigate_notifications.Notifier.Sound.{IsSound}
use frigate_notifications.Notifier.Runs.{Run, CallsFound, still, step, Run-Called, Run-IsSound}
use frigate_notifications.Notifier.Memory.{act-Continued}
use frigate_notifications.Delivery.Saved.{Continued}
use frigate_notifications.Store.{save_review, load_review}
use frigate_notifications.Store.Alone.{save_review-alone}
use frigate_notifications.Store.Reviews.{load-save-by_event}
use frigate_notifications.Store.Exact.{review_state-IsLossless}
use frigate_notifications.Notifier.Holdoff.{decide-over, decide-newest}
use frigate_notifications.Notifier.Late.{IsPutOff, decide-IsPutOff}
use frigate_notifications.Notifier.{
  act, decide, handle_review, handle_tracked_object_update, timer_fired, match_context,
}

abbrev dry_house : Config
dry_house = record house { dry_run = true }

abbrev unknown_seen : ReviewEvent
unknown_seen = record { type = new; after = record car { camera = lit "back" } }

abbrev held : PendingDecision
held = record { token = 0; deadline = 43210 * second; review = car; phase = new }

abbrev holding : State Mem
holding = record start { pending = (lit "r1", held) ∷ []; next_token = 1 }

-- Cars match the second rule.
car_matches : (match_rules ascii house.rules (match_context world house at_noon car new)).0 ≡ some 1
unfolding match_rules match_from match_one evaluate evaluate_home contains any_in suppressed_by
    suppressed_from entities_match text_eq match_context
car_matches = refl

car_gone_matches :
    (match_rules ascii house.rules (match_context world house at_noon car_gone update)).0 ≡ some 1
unfolding match_rules match_from match_one evaluate evaluate_home contains any_in suppressed_by
    suppressed_from entities_match text_eq match_context
car_gone_matches = refl

act-Edits_example :
    Extends
      (OfPush (Edits house sent_before))
      start
      (act world house at_noon car_gone end 2 quiet_rule (some sent_before) start)
act-Edits_example = act-Edits world house at_noon car_gone end 2 quiet_rule sent_before start refl

-- A message, and a timer that has nothing to do.
abbrev later : State Mem
later =
    timer_fired world house at_noon (lit "r1") 7 (handle_review world house at_noon car_seen start)

later-Run : Run world house start later
later-Run = step (step still at_noon (message car_seen) refl) at_noon (timer (lit "r1") 7) refl

start-IsSound : IsSound start
unfolding lookup
start-IsSound = record { keyed = λ id p at. cc; given_out = λ id p at. absurd cc }

Run-Called_example : CallsFound world house later-Run
Run-Called_example = Run-Called world house start later later-Run

Run-IsSound_example : IsSound later
Run-IsSound_example = Run-IsSound world house start later later-Run start-IsSound

dry_run-Silent_example :
    Adds Silent start (handle_review world dry_house at_noon car_seen start)
    × Adds Silent start (handle_tracked_object_update world dry_house at_noon told start)
    × Adds Silent start (timer_fired world dry_house at_noon (lit "r1") 0 start)
dry_run-Silent_example =
    dry_run-Silent world dry_house at_noon refl car_seen told (lit "r1") 0 start

decide-over_example :
    timer_fired world house at_noon (lit "r1") 0 (decide world house at_noon car end false holding)
    ≡ decide world house at_noon car end false holding
decide-over_example = decide-over world house at_noon at_noon car 0 holding

decide-IsPutOff_example : IsPutOff world house at_noon at_noon car 0 start
unfolding lookup effective_holdoff
decide-IsPutOff_example =
    decide-IsPutOff world house at_noon at_noon car 1 slow_rule (10 * second) 0 start refl
      car_matches refl refl refl

decide-newest_example :
    timer_fired world house at_noon
      (lit "r1")
      0
      (decide world house at_noon car_gone update false holding)
    ≡ decide world house at_noon car_gone update true
        (record holding { pending = delete (lit "r1") holding.pending })
unfolding lookup text_eq effective_holdoff
decide-newest_example =
    decide-newest world house at_noon at_noon held car_gone update 1 slow_rule holding refl refl
      refl car_gone_matches refl refl

-- The car's notification is remembered.
abbrev remembering : State Mem
remembering = record start {
  store = save_review world.backend codecs (lit "r1") sent_before at_noon.instant empty_store;
}

remembered :
    (load_review world.backend codecs (lit "r1") at_noon.instant remembering.store).0
    ≡ some sent_before
remembered =
    (load-save-by_event world.backend codecs review_state-IsLossless (lit "r1") sent_before
      at_noon.instant at_noon.instant empty_store refl (omega arith)).0

act-Continued_example :
    Continued world house at_noon sent_before
      (lit "r1")
      at_noon.instant
      (act world house at_noon car_gone end 2 quiet_rule (some sent_before) remembering)
act-Continued_example =
    act-Continued world house at_noon review_state-IsLossless car_gone end 2 quiet_rule sent_before
      at_noon.instant remembering (omega arith)
      (save_review-alone world.backend codecs (lit "r1") sent_before at_noon.instant empty_store
        refl)
      remembered refl
