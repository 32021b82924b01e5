-- ===== src/Store/Rates.antt =====
-- internal/store/store.go: the hourly counters in memory, beside digests and cooldowns.
use frigate_notifications.Prelude.{
  ℕ, suc, ◌+◌, ◌*◌, ◌≤◌, ◌≡◌, refl, ◌∙◌, Bool, false, ◌&&◌, none, Text, text_eq, text_eq_refl, ltb,
  lit, insert, lookup-delete, IsUnique, insert-IsUnique, delete-IsUnique, arith,
}
use frigate_notifications.Prelude.Int.{pos}
use frigate_notifications.Clock.{hour, Time, unix, hour_stamp}
use frigate_notifications.Store.Interface.{Backend, IsLossless}
use frigate_notifications.Store.Memory.{get_locked, set_nx, get, set, del, incr, stored_count}
use frigate_notifications.Store.Memory.View.{
  view, is_none, view-insert, set_nx-view, set_nx-IsUnique, get_locked-value, get_locked-view,
  get_locked-IsUnique,
}
use frigate_notifications.Store.Alone.{
  count_for_hour-alone, add_to_digest-alone, acquire_cooldown-alone, clear_digest-alone,
}
use frigate_notifications.Store.{
  Store, Codecs, run, store_set_nx, acquire_cooldown, count_for_hour, add_to_digest, clear_digest,
  rate_key, digest_key, cooldown_key, previous, bump,
}

module _ {P : Type 0} (pb : Backend P) (cs : Codecs) where
  -- The store is in memory, with one entry to a key.
  pub record InMemory (s : Store P) : Type 0 where
    pub alone : s.primary ≡ none
    pub unique : IsUnique s.fallback

  -- What a later reader finds under the key does not change.
  pub record SparesKey (key : Text) (now : ℕ) (s s' : Store P) : Type 0 where
    pub in_memory : InMemory s'
    pub same : (t : ℕ) → now ≤ t → view t s'.fallback key ≡ view t s.fallback key

  pub SparesKey-trans :
      (key : Text) (now : ℕ) (s t u : Store P)
      → SparesKey key now s t
      → SparesKey key now t u
      → SparesKey key now s u
  SparesKey-trans key now s t u p q = record {
    in_memory = q.in_memory;
    same = λ at le. q.same at le ∙ p.same at le;
  }

  module _ (name stamp camera : Text) (now : Time) (s : Store P) (h : InMemory s) where
    abbrev dk : Text
    dk = digest_key name camera

    digest_differs : text_eq dk (rate_key name stamp) ≡ false
    unfolding digest_key rate_key text_eq
    digest_differs = refl

    abbrev counted : Text
    counted = cs.digest.encode (
        bump (
          previous cs.digest (record { count = 0; since = unix now })
            (get_locked dk now.instant s.fallback).0))

    add_to_digest-fallback :
        (add_to_digest pb cs name camera now s).1.fallback
        ≡ insert dk
            (record { val = counted; expires = now.instant + 2 * hour })
            (get_locked dk now.instant s.fallback).1
    unfolding add_to_digest run get set
    add_to_digest-fallback = rw (h.alone, run) refl

    pub add_to_digest-SparesKey :
        SparesKey (rate_key name stamp) now.instant s (add_to_digest pb cs name camera now s).1
    add_to_digest-SparesKey =
        let m' = (get_locked dk now.instant s.fallback).1 in
        let e = add_to_digest-fallback in
        record {
          in_memory = record {
            alone = add_to_digest-alone pb cs s h.alone name camera now;
            unique =
                rw e (
                  insert-IsUnique dk _ m' (get_locked-IsUnique dk now.instant s.fallback h.unique));
          };
          same = λ t le. rw e (
              view-insert m' dk counted (now.instant + 2 * hour) t (rate_key name stamp)
                (omega arith)
              ∙ rw digest_differs
                  (get_locked-view now.instant s.fallback dk t (rate_key name stamp) le));
        }

    pub clear_digest-SparesKey :
        SparesKey (rate_key name stamp) now.instant s (clear_digest pb cs name camera now.instant s)
    unfolding clear_digest run del view
    clear_digest-SparesKey = record {
      in_memory = record {
        alone = clear_digest-alone pb cs s h.alone name camera now.instant;
        unique = rw (h.alone, run) (delete-IsUnique dk s.fallback h.unique);
      };
      same =
          λ t le. ground (arith, lookup-delete dk (rate_key name stamp) s.fallback, digest_differs);
    }

  module _ (name stamp scope : Text) (ttl now : ℕ) (s : Store P) (h : InMemory s) where
    cooldown_differs : text_eq (cooldown_key scope) (rate_key name stamp) ≡ false
    unfolding cooldown_key rate_key text_eq
    cooldown_differs = refl

    spares : (b : Bool) → (b && text_eq (cooldown_key scope) (rate_key name stamp)) ≡ false
    spares b = ground (arith, cooldown_differs)

    cooldown-fallback :
        (acquire_cooldown pb cs scope (pos (suc ttl)) now s).1.fallback
        ≡ (set_nx (cooldown_key scope) (lit "1") (suc ttl) now s.fallback).1
    unfolding acquire_cooldown store_set_nx run
    cooldown-fallback = ground arith

    pub acquire_cooldown-SparesKey :
        SparesKey (rate_key name stamp) now s (acquire_cooldown pb cs scope (pos (suc ttl)) now s).1
    acquire_cooldown-SparesKey =
        let key = cooldown_key scope in
        let e = cooldown-fallback in
        record {
          in_memory = record {
            alone = acquire_cooldown-alone pb cs s h.alone scope (pos (suc ttl)) now;
            unique = rw e (set_nx-IsUnique s.fallback h.unique key (lit "1") (suc ttl) now);
          };
          same = λ t le. rw e (
              set_nx-view s.fallback h.unique key (lit "1") (suc ttl) now t (rate_key name stamp)
                (omega arith) le
              ∙ rw (spares (is_none (view now s.fallback key))) refl);
        }

  -- The pushes counted for a recipient's hour, as a reader finds them.
  abbrev pub count_at : ℕ → Text → Store P → ℕ
  count_at t key s = stored_count cs.int (view t s.fallback key)

  module _ (name : Text) (now : Time) (s : Store P) (h : InMemory s) where
    abbrev rk : Text
    rk = rate_key name (hour_stamp now)

    abbrev next : ℕ
    next = suc (count_at now.instant rk s)

    pub count_for_hour-counts : (count_for_hour pb cs name now s).0 ≡ next
    unfolding count_for_hour run incr
    count_for_hour-counts = rw (h.alone, run, get_locked-value now.instant s.fallback rk) refl

    count_for_hour-fallback :
        (count_for_hour pb cs name now s).1.fallback
        ≡ insert rk
            (record { val = cs.int.encode next; expires = now.instant + 2 * hour })
            (get_locked rk now.instant s.fallback).1
    unfolding count_for_hour run incr
    count_for_hour-fallback = rw (h.alone, run, get_locked-value now.instant s.fallback rk) refl

    pub count_for_hour-InMemory : InMemory (count_for_hour pb cs name now s).1
    count_for_hour-InMemory = record {
      alone = count_for_hour-alone pb cs s h.alone name now;
      unique =
          let e = count_for_hour-fallback in
          rw e (insert-IsUnique rk _ _ (get_locked-IsUnique rk now.instant s.fallback h.unique));
    }

    -- For two hours the count is one more.
    pub count_for_hour-later :
        IsLossless cs.int
        → (t : ℕ) → t ≤ now.instant + 2 * hour
        → count_at t rk (count_for_hour pb cs name now s).1 ≡ next
    count_for_hour-later exact t le =
        let e = count_for_hour-fallback in
        let still : ltb (now.instant + 2 * hour) t ≡ false = ground arith in
        rw
          (
            e,
            view-insert (get_locked rk now.instant s.fallback).1 rk (cs.int.encode next)
                (now.instant + 2 * hour) t rk (omega arith),
            text_eq_refl rk,
            still,
            exact.decode-encode next,
          )
          refl
