-- ===== src/Delivery/Failed.antt =====
-- internal/notifier/notifier.go: a first send that reaches nobody.
use frigate_notifications.Prelude.{
  ℕ, suc, ◌≡◌, refl, Bool, true, false, none, List, [], ◌∷◌, Text, lookup, get_elem?, Bool-cases,
  Option-cases, inl, inr, err, arith,
}
use frigate_notifications.Prelude.Int.{ℤ, pos, ltb_ℤ}
use frigate_notifications.Config.{Config, Recipient, Rule, Target}
use frigate_notifications.Rules.{Phase}
use frigate_notifications.Frigate.{ReviewPayload, primary_event_id}
use frigate_notifications.Message.{Message}
use frigate_notifications.Content.{build_content}
use frigate_notifications.Store.{acquire_cooldown, release_cooldown}
use frigate_notifications.Store.Alone.{acquire_cooldown-alone}
use frigate_notifications.Store.Guards.{acquire-release}
use frigate_notifications.Environment.{Env, Moment, Effect}
use frigate_notifications.State.{
  State, Job, send_one, deliver_job, deliver_jobs, deliver_to, or_tag, emit_all,
}
use frigate_notifications.State.Extends.{Extends-trans, Extends-emit_all}
use frigate_notifications.Policy.{Verdict, send, held, apply_policy}
use frigate_notifications.Delivery.Reach.{cached_description-Extends, selected-quiet}
use frigate_notifications.Delivery.First.{Starts, fan_out-Extends}
use frigate_notifications.Delivery.{
  cached_description, jobs_from, delivered_from, after_policy, notify, skips, fan_out_to, fan_out,
  deliver_new, send_new, conclude, give_back, scope_key, tag_of,
}

-- No backend takes a message.
abbrev pub AllFail : {P : Type 0} → Env P → Type 0
AllFail env =
    (es : List Effect) (t : Target) (m : Message) (prev : Text) → env.send es t m prev ≡ err

module _ {P : Type 0} (env : Env P) (cfg : Config) (at : Moment) (fails : AllFail env)
    (wet : cfg.dry_run ≡ false) where
  send_one-err :
      (t : Target) (m : Message) (prev : Text) (s : State P)
      → (send_one env cfg at t m prev s).0 ≡ err
  unfolding send_one
  send_one-err t m prev s = ground (arith, fails s.effects t m prev)

  module _ (review_id event_id name : Text) (recipient : Recipient) (m : Message) (rule : Rule)
      (phase : Phase) where
    deliver_job-err :
        (j : Job) (s : State P)
        → (deliver_job env cfg at review_id event_id name recipient j m rule phase s).0.sent ≡ false
    unfolding deliver_job
    deliver_job-err j s = elim (Option-cases (get_elem? recipient.targets j.target)) [
      | inl gone ↦ rw (gone, deliver_job)
      | inr (t, e) ↦
          rw (e, deliver_job, send_one-err t (record m { tag = or_tag j.tag m.tag }) j.prev s)
    ]

    deliver_jobs-err :
        (jobs : List Job) (i : ℕ) (s : State P)
        → delivered_from name i
            (deliver_jobs env cfg at review_id event_id name recipient jobs m rule phase s).0
          ≡ []
    unfolding deliver_jobs delivered_from
    deliver_jobs-err [] i s = refl
    deliver_jobs-err (j ∷ rest) i s = rw (deliver_job-err j s) (deliver_jobs-err rest (suc i) _)

  module _ (review : ReviewPayload) (rule : Rule) (c : Message) (phase : Phase) (event_id : Text)
      (escalation : Bool) where
    after_policy-err :
        (name : Text) (recipient : Recipient) (v : Verdict) (s : State P)
        → (after_policy env cfg at review rule c phase event_id name recipient v s).0 ≡ []
    unfolding after_policy deliver_to
    after_policy-err name recipient (held reason) s = refl
    after_policy-err name recipient (send critical) s =
        deliver_jobs-err review.id event_id name recipient _ rule phase
          (jobs_from 0 recipient.targets) 0 s

    notify-err :
        (name : Text) (recipient : Recipient) (s : State P)
        → (notify env cfg at review rule c phase event_id escalation name recipient s).0 ≡ []
    unfolding notify
    notify-err name recipient s =
        let (v, s') = apply_policy env cfg at name recipient rule review s in
        elim (Bool-cases (skips env cfg at rule escalation recipient)) [
          | inl skipped ↦ rw skipped
          | inr told ↦ rw told (after_policy-err name recipient v s')
        ]

    fan_out_to-err :
        (names : List Text) (s : State P)
        → (fan_out_to env cfg at names review rule c phase event_id escalation s).0 ≡ []
    unfolding fan_out_to
    fan_out_to-err [] s = refl
    fan_out_to-err (name ∷ rest) s = elim (Option-cases (lookup name cfg.recipients)) [
      | inl gone ↦ rw gone (fan_out_to-err rest s)
      | inr (recipient, known) ↦ rw (known, notify-err name recipient s) (fan_out_to-err rest _)
    ]

    fan_out-err :
        (s : State P) → (fan_out env cfg at review rule c phase event_id escalation s).0 ≡ []
    unfolding fan_out
    fan_out-err s = fan_out_to-err rule.to s

  module _ (review : ReviewPayload) (phase : Phase) (idx : ℕ) (rule : Rule) (ttl : ℕ)
      (cools : rule.cooldown ≡ pos (suc ttl)) where
    positive : (d : ℤ) → d ≡ pos (suc ttl) → ltb_ℤ (pos 0) d ≡ true
    positive d e = rw e (ground arith)

    released :
        (d : ℤ)
        → d ≡ pos (suc ttl)
        → (scope : Text) (t : ℕ) (s : State P) → s.store.primary ≡ none
        → (acquire_cooldown env.backend env.codecs scope d t
            (release_cooldown env.backend env.codecs scope at.instant s.store)).0
          ≡ true
    released d e scope t s alone =
        rw e (acquire-release env.backend env.codecs scope ttl at.instant t s.store alone)

    conclude-free :
        (t : ℕ) (event_id tag : Text) (s : State P)
        → s.store.primary ≡ none
        → (acquire_cooldown env.backend env.codecs
            (scope_key rule review.camera)
            rule.cooldown
            t
            (conclude env cfg at review idx rule event_id none tag [] s).store).0
          ≡ true
    unfolding deliver_new give_back
    conclude-free t event_id tag s alone =
        rw (positive rule.cooldown cools)
          (released rule.cooldown cools (scope_key rule review.camera) t s alone)

    deliver_new-free :
        (t : ℕ) (s : State P)
        → s.store.primary ≡ none
        → (acquire_cooldown env.backend env.codecs
            (scope_key rule review.camera)
            rule.cooldown
            t
            (deliver_new env cfg at review phase idx rule none s).store).0
          ≡ true
    unfolding deliver_new
    deliver_new-free t s alone =
        let tag = tag_of env cfg at review none in
        let event_id = primary_event_id review in
        let (desc, s1) = cached_description env cfg at event_id s in
        let (content, selected) =
          build_content env cfg at.instant review rule phase tag event_id desc in
        let s2 = emit_all selected s1 in
        let out =
          fan_out-Extends env cfg at review rule content phase event_id false content.tag refl s2 in
        let kept = Extends-trans (cached_description-Extends env cfg at event_id s) (
          Extends-trans
            (Extends-emit_all selected s1 (
              selected-quiet env cfg at (Starts cfg rule content.tag false) at.instant review rule
                phase tag event_id desc))
            out) in
        rw (fan_out-err review rule content phase event_id false s2)
          (conclude-free t event_id tag _ (kept.in_memory alone))

    -- With no primary store, if no backend takes a message, a first send that was free to go leaves its
    -- cooldown as if it had not been tried: it can be acquired again at any time.
    pub send_new-free :
        (t : ℕ) (s : State P)
        → s.store.primary ≡ none
        → (acquire_cooldown env.backend env.codecs
            (scope_key rule review.camera)
            rule.cooldown
            at.instant
            s.store).0
          ≡ true
        → (acquire_cooldown env.backend env.codecs
            (scope_key rule review.camera)
            rule.cooldown
            t
            (send_new env cfg at review phase idx rule none s).store).0
          ≡ true
    unfolding send_new
    send_new-free t s alone free =
        let store' =
          (acquire_cooldown env.backend env.codecs (scope_key rule review.camera) rule.cooldown
            at.instant s.store).1 in
        rw free (
          deliver_new-free t (record s { store = store' })
            (acquire_cooldown-alone env.backend env.codecs s.store alone
              (scope_key rule review.camera) rule.cooldown at.instant))
