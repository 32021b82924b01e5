-- ===== src/Store/Outage.antt =====
-- internal/store/store.go: a primary that is down, and one that fails half way.
use frigate_notifications.Prelude.{
  ℕ, ◌*◌, ◌≡◌, Bool, true, Option, none, some, Text, lit, arith, ok, err, Option-cases, inl, inr,
}
use frigate_notifications.Clock.{hour, Time, unix}
use frigate_notifications.Store.Interface.{Backend, Codec}
use frigate_notifications.Store.Memory.{get, set}
use frigate_notifications.Store.Memory.View.{view, get_locked-value}
use frigate_notifications.Store.{
  Store, Codecs, Op, run, set_nx_op, get_op, set_op, del_op, incr_op, load_op, digest_op,
  ReviewState, DigestEntry, digest_key, add_to_digest,
}

-- Every call fails.
pub record IsDown {P : Type 0} (pb : Backend P) : Type 0 where
  pub set_nx_fails : (k v : Text) (ttl now : ℕ) (p : P) → (pb.set_nx k v ttl now p).0 ≡ err
  pub get_fails : (k : Text) (now : ℕ) (p : P) → (pb.get k now p).0 ≡ err
  pub set_fails : (k v : Text) (ttl now : ℕ) (p : P) → (pb.set k v ttl now p).0 ≡ err
  pub del_fails : (k : Text) (now : ℕ) (p : P) → (pb.del k now p).0 ≡ err
  pub incr_fails : (k : Text) (ttl now : ℕ) (p : P) → (pb.incr k ttl now p).0 ≡ err

module _ {P : Type 0} (pb : Backend P) (cs : Codecs) where
  -- The operation gives what it gives with no primary, and leaves the same memory behind.
  abbrev pub AsInMemory : {C : Type 0} → Op C → C → Store P → Type 0
  AsInMemory op c s =
      ((run pb cs op c s).0 ≡ (run pb cs op c (record s { primary = none })).0)
      × ((run pb cs op c s).1.fallback ≡ (run pb cs op c (record s { primary = none })).1.fallback)

  module _ (down : IsDown pb) (s : Store P) (now : ℕ) where
    set_nx-AsInMemory : (k : Text) (ttl : ℕ) (b : Bool) → AsInMemory (set_nx_op k ttl now) b s
    unfolding run
    set_nx-AsInMemory k ttl b = elim (Option-cases s.primary) [
      | inl alone ↦ ground arith
      | inr (p, e) ↦ ground (arith, down.set_nx_fails k (lit "1") ttl now p)
    ]

    get-AsInMemory : (k : Text) (c : Option Text) → AsInMemory (get_op k now) c s
    unfolding run
    get-AsInMemory k c = elim (Option-cases s.primary) [
      | inl alone ↦ ground arith
      | inr (p, e) ↦ ground (arith, down.get_fails k now p)
    ]

    set-AsInMemory : (k v : Text) (ttl : ℕ) (c : Unit {0}) → AsInMemory (set_op k v ttl now) c s
    unfolding run
    set-AsInMemory k v ttl c = elim (Option-cases s.primary) [
      | inl alone ↦ ground arith
      | inr (p, e) ↦ ground (arith, down.set_fails k v ttl now p)
    ]

    del-AsInMemory : (k : Text) (c : Unit {0}) → AsInMemory (del_op k now) c s
    unfolding run
    del-AsInMemory k c = elim (Option-cases s.primary) [
      | inl alone ↦ ground arith
      | inr (p, e) ↦ ground (arith, down.del_fails k now p)
    ]

    incr-AsInMemory : (k : Text) (ttl c : ℕ) → AsInMemory (incr_op k ttl now) c s
    unfolding run
    incr-AsInMemory k ttl c = elim (Option-cases s.primary) [
      | inl alone ↦ ground arith
      | inr (p, e) ↦ ground (arith, down.incr_fails k ttl now p)
    ]

    load-AsInMemory :
        (codec : Codec ReviewState) (k : Text) (c : Option ReviewState)
        → AsInMemory (load_op codec k now) c s
    unfolding run
    load-AsInMemory codec k c = elim (Option-cases s.primary) [
      | inl alone ↦ ground arith
      | inr (p, e) ↦ ground (arith, down.get_fails k now p)
    ]

    digest-AsInMemory :
        (codec : Codec DigestEntry) (k : Text) (c : DigestEntry)
        → AsInMemory (digest_op codec k now) c s
    unfolding run
    digest-AsInMemory codec k c = elim (Option-cases s.primary) [
      | inl alone ↦ ground arith
      | inr (p, e) ↦ ground (arith, down.get_fails k now p)
    ]

    -- While every call of the primary fails, each of the seven operations of the store gives the same
    -- answer, and leaves the same memory, as with no primary at all.
    pub down-AsInMemory :
        (k v : Text) (ttl : ℕ) (found : Option Text) (st : Option ReviewState) (entry : DigestEntry)
        → AsInMemory (set_nx_op k ttl now) true s
          × AsInMemory (get_op k now) found s
          × AsInMemory (set_op k v ttl now) tt s
          × AsInMemory (del_op k now) tt s
          × AsInMemory (incr_op k ttl now) 0 s
          × AsInMemory (load_op cs.review_state k now) st s
          × AsInMemory (digest_op cs.digest k now) entry s
    down-AsInMemory k v ttl found st entry = (
      set_nx-AsInMemory k ttl true,
      get-AsInMemory k found,
      set-AsInMemory k v ttl tt,
      del-AsInMemory k tt,
      incr-AsInMemory k ttl 0,
      load-AsInMemory cs.review_state k st,
      digest-AsInMemory cs.digest k entry,
    )

  -- If the primary reads, holds no digest and fails to write, and the memory holds no digest, adding
  -- one event to a digest counts two: the operation runs again on the memory with the entry that its
  -- first run counted up.
  pub add_to_digest-twice :
      (recipient camera : Text) (now : Time) (s : Store P) (p : P)
      → s.primary ≡ some p
      → ((k : Text) (t : ℕ) (q : P) → (pb.get k t q).0 ≡ ok none)
      → ((k v : Text) (ttl t : ℕ) (q : P) → (pb.set k v ttl t q).0 ≡ err)
      → view now.instant s.fallback (digest_key recipient camera) ≡ none
      → (add_to_digest pb cs recipient camera now s).0 ≡ record { count = 2; since = unix now }
  unfolding add_to_digest run get set
  add_to_digest-twice recipient camera now s p e reads writes absent =
      let key = digest_key recipient camera in
      let one : DigestEntry = record { count = 1; since = unix now } in
      ground (
        arith,
        reads key now.instant p,
        writes key (cs.digest.encode one) (2 * hour) now.instant (pb.get key now.instant p).1,
        get_locked-value now.instant s.fallback key,
      )
