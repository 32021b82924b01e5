-- ===== src/State/Sends.antt =====
-- internal/notifier/notifier.go: the sends at the bottom of every path, by the effects that they add.
use frigate_notifications.Prelude.{
  ◌≡◌, refl, false, Option, none, some, List, [], ◌∷◌, Text, get_elem?, All, Bool-cases, inl, inr,
  Result, ok, err,
}
use frigate_notifications.Config.{Config, Recipient, Rule, Target}
use frigate_notifications.Rules.{Phase}
use frigate_notifications.Message.{Message}
use frigate_notifications.Environment.{Env, Moment, Effect, pushed, dry_logged, send_failed}
use frigate_notifications.State.{
  State, Job, send_one, after_send, or_tag, deliver_job, deliver_jobs,
}
use frigate_notifications.State.Extends.{Extends, Extends-refl, Extends-trans, Extends-emit}

-- A property of effects that are calls of a backend; every other effect has it.
abbrev pub OfPush : (Target → Message → Text → Type 0) → Effect → Type 0
OfPush R (pushed t m prev) = R t m prev
OfPush R _ = Unit

module _ {P : Type 0} (env : Env P) (cfg : Config) (at : Moment) where
  -- With dry runs on there is no call of a backend; else there is at most this one.
  pub send_one-Extends :
      (R : Target → Message → Text → Type 0) (t : Target) (m : Message) (prev : Text) (s : State P)
      → (cfg.dry_run ≡ false → R t m prev)
      → Extends (OfPush R) s (send_one env cfg at t m prev s).1
  unfolding send_one
  send_one-Extends R t m prev s h = elim (Bool-cases (env.has_sender t.type)) [
    | inl has ↦ elim (Bool-cases cfg.dry_run) [
      | inl dry ↦ rw (has, dry) (Extends-emit (dry_logged t m) s tt)
      | inr wet ↦ rw (has, wet) (Extends-emit (pushed t m prev) s (h wet))
    ]
    | inr without ↦ rw without (Extends-refl s)
  ]

  after_send-Extends :
      (R : Target → Message → Text → Type 0) (rule : Rule) (name : Text) (phase : Phase)
      (review_id event_id : Text) (t : Target) (m : Message) (r : Result Text) (s : State P)
      → Extends (OfPush R) s (after_send env cfg at rule name phase review_id event_id t m r s).1
  after_send-Extends R rule name phase review_id event_id t m err s =
      Extends-trans (Extends-emit (send_failed name t.type) s tt) (Extends-emit _ _ tt)
  after_send-Extends R rule name phase review_id event_id t m (ok ref) s =
      elim (Bool-cases cfg.dry_run) [
        | inl dry ↦ rw dry (Extends-emit _ s tt)
        | inr wet ↦ rw wet (Extends-trans (Extends-emit _ s tt) (Extends-emit _ _ tt))
      ]

  module _ (R : Target → Message → Text → Type 0) (review_id event_id name : Text)
      (recipient : Recipient) (msg : Message) (rule : Rule) (phase : Phase) where
    -- The one call that a job can make.
    abbrev pub Allowed : Job → Type 0
    Allowed j =
        (t : Target)
        → get_elem? recipient.targets j.target ≡ some t
        → cfg.dry_run ≡ false
        → R t (record msg { tag = or_tag j.tag msg.tag }) j.prev

    pub deliver_job-Extends :
        (j : Job) (s : State P)
        → Allowed j
        → Extends
            (OfPush R)
            s
            (deliver_job env cfg at review_id event_id name recipient j msg rule phase s).1
    unfolding deliver_job
    deliver_job-Extends j s h = go (get_elem? recipient.targets j.target) refl
      where
        go :
            (o : Option Target)
            → get_elem? recipient.targets j.target ≡ o
            → Extends
                (OfPush R)
                s
                (deliver_job env cfg at review_id event_id name recipient j msg rule phase s).1
        go none e = rw (e, deliver_job) (Extends-refl s)
        go (some t) e =
            rw (e, deliver_job)
              (Extends-trans (send_one-Extends R t _ j.prev s (h t e))
                (after_send-Extends R rule name phase review_id event_id t _ _ _))

    pub deliver_jobs-Extends :
        (jobs : List Job) (s : State P)
        → All Allowed jobs
        → Extends
            (OfPush R)
            s
            (deliver_jobs env cfg at review_id event_id name recipient jobs msg rule phase s).1
    unfolding deliver_jobs
    deliver_jobs-Extends [] s h = Extends-refl s
    deliver_jobs-Extends (j ∷ rest) s h =
        Extends-trans (deliver_job-Extends j s h.0) (deliver_jobs-Extends rest _ h.1)
