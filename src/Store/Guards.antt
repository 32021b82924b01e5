-- ===== src/Store/Guards.antt =====
-- internal/store/store.go: the redelivery guard and the cooldowns, which are keys set only once.
use frigate_notifications.Prelude.{
  ℕ, suc, ◌+◌, ◌*◌, ◌≤◌, ◌<◌, ◌≡◌, ◌⊎◌, inl, inr, true, false, none, some, Text, text_eq_refl,
  IsUnique, lookup-delete, lit, ltb, arith, ok, Option-cases, Result-cases,
}
use frigate_notifications.Prelude.Int.{pos}
use frigate_notifications.Clock.{minute}
use frigate_notifications.Store.Interface.{Backend}
use frigate_notifications.Store.Memory.{set_nx, del}
use frigate_notifications.Store.Memory.View.{view, is_none, set_nx-fresh, set_nx-view}
use frigate_notifications.Store.{
  Store, Codecs, run, store_set_nx, first_delivery, acquire_cooldown, release_cooldown, seen_key,
  cooldown_key,
}

module _ {P : Type 0} (pb : Backend P) (cs : Codecs) where
  module _ (key : Text) (ttl now : ℕ) (s : Store P) where
    -- A guard says no only if a backend that answered holds the key, never because of an error.
    store_set_nx-false :
        (store_set_nx pb cs key ttl now s).0 ≡ false
        → ((p : P) × (s.primary ≡ some p) × ((pb.set_nx key (lit "1") ttl now p).0 ≡ ok false))
          ⊎ (is_none (view now s.fallback key) ≡ false)
    unfolding store_set_nx run
    store_set_nx-false h =
        let fresh = set_nx-fresh s.fallback key (lit "1") ttl now in
        elim (Option-cases s.primary) [
          | inl alone ↦ inr (ground (arith, fresh))
          | inr (p, e) ↦ elim (Result-cases (pb.set_nx key (lit "1") ttl now p).0) [
            | inl failed ↦ inr (ground (arith, fresh))
            | inr (answer, a) ↦ inl (p, e, ground arith)
          ]
        ]

    store_set_nx-again :
        (t : ℕ)
        → s.primary ≡ none
        → IsUnique s.fallback
        → 0 < ttl
        → now ≤ t
        → (store_set_nx pb cs key ttl now s).0 ≡ true
        → (store_set_nx pb cs key ttl t (store_set_nx pb cs key ttl now s).1).0 ≡ ltb (now + ttl) t
    unfolding store_set_nx run
    store_set_nx-again t alone unique p le first = ground (
      arith,
      set_nx-fresh s.fallback key (lit "1") ttl now,
      set_nx-view s.fallback unique key (lit "1") ttl now t key p le,
      set_nx-fresh (set_nx key (lit "1") ttl now s.fallback).1 key (lit "1") ttl t,
      text_eq_refl key,
    )

  -- Where the redelivery guard says that a message was handled before, a primary that answered holds
  -- its key, or the memory does: an error of the primary never drops a message by itself.
  pub first_delivery-false :
      (review_id phase : Text) (now : ℕ) (s : Store P)
      → (first_delivery pb cs review_id phase now s).0 ≡ false
      → ((p : P) × (s.primary ≡ some p)
          × ((pb.set_nx (seen_key review_id phase) (lit "1") (10 * minute) now p).0 ≡ ok false))
        ⊎ (is_none (view now s.fallback (seen_key review_id phase)) ≡ false)
  unfolding first_delivery
  first_delivery-false review_id phase now s h =
      store_set_nx-false (seen_key review_id phase) (10 * minute) now s h

  -- With no primary, a message that the guard took is dropped when it comes again within ten minutes,
  -- the tenth included, and taken again after that.
  pub first_delivery-again :
      (review_id phase : Text) (now t : ℕ) (s : Store P)
      → s.primary ≡ none
      → IsUnique s.fallback
      → now ≤ t
      → (first_delivery pb cs review_id phase now s).0 ≡ true
      → (first_delivery pb cs review_id phase t (first_delivery pb cs review_id phase now s).1).0
        ≡ ltb (now + 10 * minute) t
  unfolding first_delivery
  first_delivery-again review_id phase now t s alone unique le first =
      store_set_nx-again (seen_key review_id phase) (10 * minute) now s t alone unique (omega arith)
        le first

  -- With no primary, a cooldown of positive length that was acquired is refused until its length has
  -- passed, and then acquired again.
  pub acquire_cooldown-again :
      (scope : Text) (ttl now t : ℕ) (s : Store P)
      → s.primary ≡ none
      → IsUnique s.fallback
      → now ≤ t
      → (acquire_cooldown pb cs scope (pos (suc ttl)) now s).0 ≡ true
      → (acquire_cooldown pb cs scope
          (pos (suc ttl))
          t
          (acquire_cooldown pb cs scope (pos (suc ttl)) now s).1).0
        ≡ ltb (now + suc ttl) t
  unfolding acquire_cooldown
  acquire_cooldown-again scope ttl now t s alone unique le first =
      store_set_nx-again (cooldown_key scope) (suc ttl) now s t alone unique (omega arith) le first

  -- With no primary, a cooldown that is released can be acquired at any time, whatever held it.
  pub acquire-release :
      (scope : Text) (ttl now t : ℕ) (s : Store P)
      → s.primary ≡ none
      → (acquire_cooldown pb cs scope (pos (suc ttl)) t (release_cooldown pb cs scope now s)).0
        ≡ true
  unfolding acquire_cooldown release_cooldown run view del
  acquire-release scope ttl now t s alone = ground (
    arith,
    set_nx-fresh (del (cooldown_key scope) now s.fallback).1 (cooldown_key scope) (lit "1")
        (suc ttl) t,
    lookup-delete (cooldown_key scope) (cooldown_key scope) s.fallback,
    text_eq_refl (cooldown_key scope),
  )

  -- A cooldown whose key nobody can see is free.
  pub acquire_cooldown-fresh :
      (scope : Text) (ttl now : ℕ) (s : Store P)
      → s.primary ≡ none
      → view now s.fallback (cooldown_key scope) ≡ none
      → (acquire_cooldown pb cs scope (pos (suc ttl)) now s).0 ≡ true
  unfolding acquire_cooldown store_set_nx run
  acquire_cooldown-fresh scope ttl now s alone free =
      ground (arith, set_nx-fresh s.fallback (cooldown_key scope) (lit "1") (suc ttl) now)
