-- ===== src/Notifier/Quiet.antt =====
-- internal/notifier/notifier.go: when nothing is sent.
use frigate_notifications.Prelude.{
  ℕ, ◌≡◌, refl, Bool, true, false, not, Option, none, Text, lookup, arith,
}
use frigate_notifications.Config.{Config, Rule, Target}
use frigate_notifications.Frigate.{ReviewPayload, ReviewEvent, TrackedObjectUpdate}
use frigate_notifications.Message.{Message}
use frigate_notifications.Store.{ReviewState, first_delivery}
use frigate_notifications.Environment.{Env, Moment, review_saved, review_received}
use frigate_notifications.State.{State, emit}
use frigate_notifications.State.Adds.{Adds, Adds-none, Adds-trans, Adds-emit, Adds-weaken, Adds-if}
use frigate_notifications.State.Sends.{OfPush}
use frigate_notifications.Delivery.First.{Starts, creates, sums_up}
use frigate_notifications.Notifier.Calls.{Called, edits, begins, OfPush-map}
use frigate_notifications.Notifier.Handlers.{
  Silent, ignore_camera-Silent, handle_review-Called, handle_tracked_object_update-Called,
  timer_fired-Called,
}
use frigate_notifications.Notifier.{
  handle_review, take_review, delivery_key, handle_tracked_object_update, timer_fired,
}

clash : {b : Bool} → b ≡ true → b ≡ false → ⊥
clash p q = ground arith

Starts-live :
    (cfg : Config) {rule : Rule} {tag : Text} {escalation : Bool} {t : Target} {m : Message}
    {prev : Text}
    → Starts cfg rule tag escalation t m prev
    → cfg.dry_run ≡ false
Starts-live cfg (creates c h) = c.live
Starts-live cfg (sums_up plain d) = d.live

module _ {P : Type 0} (env : Env P) (cfg : Config)
    (L : Moment → ReviewPayload → Option ReviewState → Type 0) where
  Called-live :
      (t : Target) (m : Message) (prev : Text) → Called env cfg L t m prev → cfg.dry_run ≡ false
  Called-live t m prev (begins at review prior idx rule l may e h) = Starts-live cfg h
  Called-live t m prev (edits at review prior l e) = e.live

  silence :
      {s s' : State P}
      → cfg.dry_run ≡ true
      → Adds (OfPush (Called env cfg L)) s s'
      → Adds Silent s s'
  silence dry =
      Adds-weaken (OfPush-map _ _ (λ t m prev c. absurd (clash dry (Called-live t m prev c))))

module _ {P : Type 0} (env : Env P) (cfg : Config) (at : Moment) where
  -- In a dry run no review message, no tracked-object update and no timer of a holdoff leads to a call
  -- of a backend.
  pub dry_run-Silent :
      cfg.dry_run ≡ true
      → (event : ReviewEvent) (upd : TrackedObjectUpdate) (review_id : Text) (token : ℕ)
        (s : State P)
      → Adds Silent s (handle_review env cfg at event s)
        × Adds Silent s (handle_tracked_object_update env cfg at upd s)
        × Adds Silent s (timer_fired env cfg at review_id token s)
  dry_run-Silent dry event upd review_id token s = (
    silence env cfg _ dry (handle_review-Called env cfg at event s),
    silence env cfg _ dry (handle_tracked_object_update-Called env cfg at upd s),
    silence env cfg _ dry (timer_fired-Called env cfg at review_id token s),
  )

  -- A review message of a camera that the configuration does not name leads to no call of a backend.
  pub handle_review-unconfigured :
      (event : ReviewEvent) (s : State P)
      → lookup event.after.camera cfg.cameras ≡ none
      → Adds Silent s (handle_review env cfg at event s)
  unfolding handle_review take_review
  handle_review-unconfigured event s unknown =
      let s1 = emit (review_received event.type event.after.camera) s in
      let received : Adds Silent s s1 = Adds-emit _ s tt in
      let (first, store') =
        first_delivery env.backend env.codecs event.after.id (delivery_key env cfg at event)
          at.instant s1.store in
      let s2 : State P = record s1 { store = store' } in
      let s3 = emit (review_saved event.after event.type) s2 in
      let saved : Adds Silent s2 s3 = Adds-emit _ s2 tt in
      Adds-trans {t = s1} received (
        Adds-trans {t = s2} (Adds-none refl) (
          Adds-if (not first) (Adds-none refl) (
            rw (unknown, take_review)
              (Adds-trans saved (ignore_camera-Silent env cfg at event.after.camera s3)))))
