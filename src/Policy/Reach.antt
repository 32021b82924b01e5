-- ===== src/Policy/Reach.antt =====
-- internal/notifier/policy.go: what a policy does to the world besides its verdict.
use frigate_notifications.Prelude.{
  ◌≡◌, refl, false, none, List, [], ◌∷◌, Text, lit, not, ◌&&◌, is_empty, ◌++◌, Bool-cases, inl, inr,
  Result, ok, err, All, All-mem,
}
use mathlib.Core.List.{Memᴰ}
use frigate_notifications.Prelude.Int.{pos, ltb_ℤ}
use frigate_notifications.Config.{Config, Recipient, Rule, Target}
use frigate_notifications.Rules.{accounts_for_everyone}
use frigate_notifications.Frigate.{ReviewPayload}
use frigate_notifications.Message.{Message, digest}
use frigate_notifications.Store.{count_for_hour, add_to_digest, acquire_cooldown, clear_digest}
use frigate_notifications.Store.Alone.{
  count_for_hour-alone, add_to_digest-alone, acquire_cooldown-alone, clear_digest-alone,
}
use frigate_notifications.Environment.{Env, Moment, send_failed}
use frigate_notifications.State.{State, send_one}
use frigate_notifications.State.Extends.{
  Extends, Extends-refl, Extends-trans, Extends-emit, Extends-store, Extends-if,
}
use frigate_notifications.State.Sends.{OfPush, send_one-Extends}
use frigate_notifications.Policy.{
  apply_policy, apply_cap, send_digest, send_digests, after_digest, digest_message, local_now,
  digest_interval, is_inactive,
}

module _ {P : Type 0} (env : Env P) (cfg : Config) (at : Moment)
    (R : Target → Message → Text → Type 0) (recipient : Recipient)
    (digests : (t : Target) (m : Message)
      → Memᴰ t recipient.targets
      → cfg.dry_run ≡ false
      → m.stage ≡ digest
      → R t m []) where
  send_digests-Extends :
      (name : Text) (targets : List Target) (m : Message) (s : State P)
      → All (λ t. Memᴰ t recipient.targets) targets
      → m.stage ≡ digest
      → Extends (OfPush R) s (send_digests env cfg at name targets m s)
  unfolding send_digests
  send_digests-Extends name [] m s own h = Extends-refl s
  send_digests-Extends name (t ∷ rest) m s own h =
      let (r, s') = send_one env cfg at t m [] s in
      Extends-trans (send_one-Extends env cfg at R t m [] s (λ wet. digests t m own.0 wet h))
        (Extends-trans (noted r s') (send_digests-Extends name rest m _ own.1 h))
    where
      noted :
          (r : Result Text) (s' : State P)
          → Extends (OfPush R) s' (after_digest env cfg at name t r s')
      noted err s' = Extends-emit (send_failed name t.type) s' tt
      noted (ok ref) s' = Extends-refl s'

  send_digest-Extends :
      (name camera : Text) (s : State P)
      → Extends (OfPush R) s (send_digest env cfg at name recipient camera s)
  unfolding send_digest digest_message
  send_digest-Extends name camera s =
      let (entry, store1) =
        add_to_digest env.backend env.codecs name camera (local_now cfg at) s.store in
      let (fresh, store2) =
        acquire_cooldown env.backend env.codecs (lit "digest:" ++ (name ++ (lit ":" ++ camera)))
          (pos digest_interval) at.instant store1 in
      let alone2 = λ (h : s.store.primary ≡ none).
        acquire_cooldown-alone env.backend env.codecs store1
          (add_to_digest-alone env.backend env.codecs s.store h name camera (local_now cfg at)) _ _
          at.instant in
      Extends-if (not fresh) (λ _. Extends-store s store2 alone2)
        (λ _.
          Extends-trans
            (Extends-store s (clear_digest env.backend env.codecs name camera at.instant store2)
              (λ h.
                clear_digest-alone env.backend env.codecs store2 (alone2 h) name camera at.instant))
            (send_digests-Extends name recipient.targets (digest_message env cfg at camera entry) _
              (All-mem _ recipient.targets (λ t m. m)) refl))

  apply_cap-Extends :
      (name camera : Text) (s : State P)
      → Extends (OfPush R) s (apply_cap env cfg at name recipient camera s).1
  unfolding apply_cap
  apply_cap-Extends name camera s =
      let (count, store') = count_for_hour env.backend env.codecs name (local_now cfg at) s.store in
      let counted : Extends (OfPush R) s (record s { store = store' }) =
        Extends-store s store'
          (λ h. count_for_hour-alone env.backend env.codecs s.store h name (local_now cfg at)) in
      elim (Bool-cases (ltb_ℤ recipient.max_per_hour (pos count))) [
        | inl over ↦ rw over (Extends-trans counted (send_digest-Extends name camera _))
        | inr under ↦ rw under counted
      ]

  -- A policy sends nothing but digests, to the recipient's own targets.
  pub apply_policy-Extends :
      (name : Text) (rule : Rule) (review : ReviewPayload) (s : State P)
      → Extends (OfPush R) s (apply_policy env cfg at name recipient rule review s).1
  unfolding apply_policy
  apply_policy-Extends name rule review s =
      let faces = review.review_data.sub_labels in
      let known =
        accounts_for_everyone env.unicode recipient.skip_when_only faces
          review.review_data.objects in
      elim (Bool-cases (rule.critical && recipient.allow_critical)) [
        | inl critical ↦ rw critical (Extends-refl s)
        | inr plain ↦
            rw plain (elim (Bool-cases (not (is_empty recipient.skip_when_only) && known)) [
              | inl skipped ↦ rw skipped (Extends-refl s)
              | inr shown ↦
                  rw shown
                    (elim (Bool-cases (is_inactive at recipient.active_hours (local_now cfg at))) [
                      | inl asleep ↦ rw asleep (Extends-refl s)
                      | inr awake ↦
                          rw awake (elim (Bool-cases (ltb_ℤ (pos 0) recipient.max_per_hour)) [
                            | inl capped ↦ rw capped (apply_cap-Extends name review.camera s)
                            | inr free ↦ rw free (Extends-refl s)
                          ])
                    ])
            ])
      ]
