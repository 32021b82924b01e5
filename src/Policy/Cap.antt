-- ===== src/Policy/Cap.antt =====
-- internal/notifier/policy.go: the hourly cap, over the pushes of an hour.
use frigate_notifications.Prelude.{
  ℕ, suc, ◌+◌, ◌*◌, ◌≤◌, ◌≡◌, refl, sym, ◌∙◌, ap, false, List, [], ◌∷◌, Text, lit, ◌++◌, Bool-cases,
  inl, inr, arith, if◌then◌else◌, Result, ok, err,
}
use frigate_notifications.Prelude.Int.{ℤ, pos, ltb_ℤ}
use frigate_notifications.Clock.{hour, hour_stamp}
use frigate_notifications.Config.{Config, Recipient, Target}
use frigate_notifications.Message.{Message}
use frigate_notifications.Store.{count_for_hour, add_to_digest, acquire_cooldown, rate_key}
use frigate_notifications.Store.Interface.{IsLossless}
use frigate_notifications.Store.Memory.{stored_count}
use frigate_notifications.Store.Rates.{
  InMemory, SparesKey, SparesKey-trans, count_at, add_to_digest-SparesKey, clear_digest-SparesKey,
  acquire_cooldown-SparesKey, count_for_hour-counts, count_for_hour-InMemory, count_for_hour-later,
}
use frigate_notifications.Environment.{Env, Moment, rate_cap}
use frigate_notifications.State.{State, emit, send_one}
use frigate_notifications.Policy.{
  Verdict, send, held, local_now, digest_interval, digest_message, after_digest, send_digests,
  send_digest, apply_cap,
}

-- The first pushes, as many as are left of the cap, go out.
abbrev pub capped : ℤ → ℕ → List Moment → List Verdict
capped max n [] = []
capped max n (_ ∷ rest) =
    (if ltb_ℤ max (pos (suc n)) then held rate_cap else send false) ∷ capped max (suc n) rest

module _ {P : Type 0} (env : Env P) (cfg : Config) where
  abbrev Spares : Text → ℕ → State P → State P → Type 0
  Spares key now s s' = SparesKey env.backend env.codecs key now s.store s'.store

  module _ (at : Moment) where
    send_one-store :
        (t : Target) (m : Message) (prev : Text) (s : State P)
        → (send_one env cfg at t m prev s).1.store ≡ s.store
    unfolding send_one emit
    send_one-store t m prev s = ground arith

    send_digests-store :
        (name : Text) (ts : List Target) (m : Message) (s : State P)
        → (send_digests env cfg at name ts m s).store ≡ s.store
    unfolding send_digests emit
    send_digests-store name [] m s = refl
    send_digests-store name (t ∷ rest) m s =
        let (r, s') = send_one env cfg at t m [] s in
        send_digests-store name rest m (after_digest env cfg at name t r s')
        ∙ noted r s'
        ∙ send_one-store t m [] s
      where
        noted :
            (r : Result Text) (s' : State P)
            → (after_digest env cfg at name t r s').store ≡ s'.store
        noted err s' = refl
        noted (ok ref) s' = refl

    send_digest-Spares :
        (name stamp : Text) (recipient : Recipient) (camera : Text) (s : State P)
        → InMemory env.backend env.codecs s.store
        → Spares (rate_key name stamp) at.instant s (send_digest env cfg at name recipient camera s)
    unfolding send_digest
    send_digest-Spares name stamp recipient camera s h =
        let key = rate_key name stamp in
        let (entry, store1) =
          add_to_digest env.backend env.codecs name camera (local_now cfg at) s.store in
        let p1 =
          add_to_digest-SparesKey env.backend env.codecs name stamp camera (local_now cfg at)
            s.store h in
        let scope = lit "digest:" ++ (name ++ (lit ":" ++ camera)) in
        let (fresh, store2) =
          acquire_cooldown env.backend env.codecs scope (pos digest_interval) at.instant store1 in
        let p2 = SparesKey-trans env.backend env.codecs key at.instant s.store store1 store2 p1 (
          acquire_cooldown-SparesKey env.backend env.codecs name stamp scope 599_999_999_999
            at.instant store1 p1.in_memory) in
        let p3 = SparesKey-trans env.backend env.codecs key at.instant s.store store2 _ p2 (
          clear_digest-SparesKey env.backend env.codecs name stamp camera (local_now cfg at) store2
            p2.in_memory) in
        elim (Bool-cases fresh) [
          | inr again ↦ rw again p2
          | inl first ↦
              rw
                (
                  first,
                  send_digests-store name recipient.targets (digest_message env cfg at camera entry)
                      _,
                )
                p3
        ]

  -- What a capped push leaves: one more counted, whatever is decided.
  module _ (at : Moment) (name : Text) (recipient : Recipient) (camera : Text) (s : State P)
      (h : InMemory env.backend env.codecs s.store) where
    abbrev key : Text
    key = rate_key name (hour_stamp (local_now cfg at))

    abbrev so_far : ℕ
    so_far = count_at env.backend env.codecs at.instant key s.store

    pub apply_cap-verdict :
        (apply_cap env cfg at name recipient camera s).0
        ≡ (if ltb_ℤ recipient.max_per_hour (pos (suc so_far)) then held rate_cap else send false)
    unfolding apply_cap
    apply_cap-verdict =
        let e = count_for_hour-counts env.backend env.codecs name (local_now cfg at) s.store h in
        rw e (elim (Bool-cases (ltb_ℤ recipient.max_per_hour (pos (suc so_far)))) [
          | inl over ↦ rw over refl
          | inr under ↦ rw under refl
        ])

    pub apply_cap-counts :
        IsLossless env.codecs.int
        → (t : ℕ) → at.instant ≤ t
        → t ≤ at.instant + 2 * hour
        → InMemory env.backend env.codecs (apply_cap env cfg at name recipient camera s).1.store
          × (count_at env.backend env.codecs t key
                (apply_cap env cfg at name recipient camera s).1.store
              ≡ suc so_far)
    unfolding apply_cap
    apply_cap-counts exact t le soon =
        let now = local_now cfg at in
        let (count, store') = count_for_hour env.backend env.codecs name now s.store in
        let s' : State P = record s { store = store' } in
        let kept = count_for_hour-InMemory env.backend env.codecs name now s.store h in
        let later = count_for_hour-later env.backend env.codecs name now s.store h exact t soon in
        let digested = send_digest-Spares at name (hour_stamp now) recipient camera s' kept in
        elim (Bool-cases (ltb_ℤ recipient.max_per_hour (pos count))) [
          | inl over ↦
              rw over
                (digested.in_memory, ap (stored_count env.codecs.int) (digested.same t le) ∙ later)
          | inr under ↦ rw under (kept, later)
        ]

  module _ (name : Text) (recipient : Recipient) (camera : Text) where
    -- What the cap decides of pushes at these moments, one after another.
    abbrev pub verdicts : List Moment → State P → List Verdict
    verdicts [] s = []
    verdicts (at ∷ rest) s =
        let (v, s') = apply_cap env cfg at name recipient camera s in v ∷ verdicts rest s'

    -- The moments follow each other in the hour of the stamp, from `since` on.
    abbrev pub InHour : Text → ℕ → List Moment → Type 0
    InHour stamp since [] = Unit
    InHour stamp since (at ∷ rest) =
        (hour_stamp (local_now cfg at) ≡ stamp)
        × (since ≤ at.instant)
        × (at.instant ≤ since + 2 * hour)
        × InHour stamp at.instant rest

    -- With no primary store and a codec that loses nothing, if `n` pushes to a recipient were counted in an hour, then of the pushes that
    -- the cap sees next in that hour exactly those go out that keep the count within the cap; all others
    -- are held, and each of them counts.
    pub verdicts-capped :
        IsLossless env.codecs.int
        → (stamp : Text) (since n : ℕ) (ms : List Moment) (s : State P)
        → InMemory env.backend env.codecs s.store
        → ((t : ℕ)
            → since ≤ t
            → t ≤ since + 2 * hour
            → count_at env.backend env.codecs t (rate_key name stamp) s.store ≡ n)
        → InHour stamp since ms
        → verdicts ms s ≡ capped recipient.max_per_hour n ms
    verdicts-capped exact stamp since n [] s h counts _ = refl
    verdicts-capped exact stamp since n (at ∷ rest) s h counts (e, after, before, later) =
        let s' = (apply_cap env cfg at name recipient camera s).1 in
        let so_far : count_at env.backend env.codecs at.instant
              (rate_key name (hour_stamp (local_now cfg at))) s.store
            ≡ n =
          rw e (counts at.instant after before) in
        let next = apply_cap-counts at name recipient camera s h exact in
        let kept = (next at.instant (omega arith) (omega arith)).0 in
        let v = apply_cap-verdict at name recipient camera s h in
        let rest_of =
          verdicts-capped exact stamp at.instant (suc n) rest s' kept
            (λ t le soon.
              ap (λ x. count_at env.backend env.codecs t (rate_key name x) s'.store) (sym e)
              ∙ (next t le soon).1
              ∙ ap suc so_far)
            later in
        rw (v, so_far, rest_of) refl
