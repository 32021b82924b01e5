-- ===== src/Store/Memory/View.antt =====
-- internal/store/backend_mem.go against a map whose entries end at their time: `view` is what a reader
-- can see at a time.
use frigate_notifications.Prelude.{
  ℕ, ◌+◌, ◌≤◌, ◌<◌, ◌≡◌, ◌&&◌, insert, refl, Bool, true, false, Option, none, some, [], ◌∷◌, Text,
  text_eq, text_eq_iff, IsUnique, insert-IsUnique, delete-IsUnique, lookup, lookup-insert,
  lookup-delete, arith, ltb, if◌then◌else◌, ok,
}
use frigate_notifications.Store.Memory.{
  Entry, Mem, expired, get_locked, drop_expired, sweep_locked, set_nx,
}

abbrev seen : ℕ → Option Entry → Option Text
seen t none = none
seen t (some e) = if expired t e then none else some e.val

-- The value of a key that a reader finds at time `t`.
unfoldable pub view : ℕ → Mem → Text → Option Text
view t m k = seen t (lookup k m)

module _ (now : ℕ) (m : Mem) (k : Text) where
  pub get_locked-value : (get_locked k now m).0 ≡ view now m k
  unfolding get_locked view
  get_locked-value = ground arith

  pub get_locked-view : (t : ℕ) (j : Text) → now ≤ t → view t (get_locked k now m).1 j ≡ view t m j
  unfolding get_locked view
  get_locked-view t j h = ground (arith, lookup-delete k j m, text_eq_iff k j)

drop_expired-IsUnique_at :
    (now : ℕ) (m : Mem) (k : Text) → lookup k m ≡ none → lookup k (drop_expired now m) ≡ none
unfolding drop_expired lookup
drop_expired-IsUnique_at now [] k h = refl
drop_expired-IsUnique_at now ((j, e) ∷ m) k h = ground (arith, drop_expired-IsUnique_at now m k)

drop_expired-IsUnique : (now : ℕ) (m : Mem) → IsUnique m → IsUnique (drop_expired now m)
unfolding drop_expired
drop_expired-IsUnique now [] h = tt
drop_expired-IsUnique now ((j, e) ∷ m) h =
    ground (arith, drop_expired-IsUnique_at now m j, drop_expired-IsUnique now m h.1)

drop_expired-view :
    (now t : ℕ) (m : Mem) (k : Text)
    → IsUnique m
    → now ≤ t
    → view t (drop_expired now m) k ≡ view t m k
unfolding view drop_expired lookup
drop_expired-view now t [] k h le = refl
drop_expired-view now t ((j, e) ∷ m) k h le = ground (
  arith,
  drop_expired-view now t m k h.1 le,
  drop_expired-IsUnique_at now m j h.0,
  text_eq_iff j k,
)

pub sweep_locked-view :
    (now t : ℕ) (m : Mem) (k : Text)
    → IsUnique m
    → now ≤ t
    → view t (sweep_locked now m) k ≡ view t m k
unfolding sweep_locked
sweep_locked-view now t m k h le = ground (arith, drop_expired-view now t m k h le)

pub get_locked-IsUnique :
    (key : Text) (now : ℕ) (m : Mem) → IsUnique m → IsUnique (get_locked key now m).1
unfolding get_locked
get_locked-IsUnique key now m h = ground (arith, delete-IsUnique key m)

sweep_locked-IsUnique : (now : ℕ) (m : Mem) → IsUnique m → IsUnique (sweep_locked now m)
unfolding sweep_locked
sweep_locked-IsUnique now m h = ground (arith, drop_expired-IsUnique now m)

-- The value until its time, and from then on nothing.
abbrev pub until : ℕ → ℕ → Text → Option Text
until deadline t val = if ltb deadline t then none else some val

pub view-insert :
    (m : Mem) (key val : Text) (deadline t : ℕ) (j : Text)
    → 0 < deadline
    → view t (insert key (record { val = val; expires = deadline }) m) j
      ≡ (if text_eq key j then until deadline t val else view t m j)
unfolding view
view-insert m key val deadline t j h =
    ground (arith, lookup-insert key j (record { val = val; expires = deadline }) m)

abbrev pub is_none : Option Text → Bool
is_none none = true
is_none (some _) = false

-- A key is set exactly if no reader can see it now.
pub set_nx-fresh :
    (m : Mem) (key val : Text) (ttl now : ℕ)
    → (set_nx key val ttl now m).0 ≡ ok (is_none (view now m key))
unfolding set_nx
set_nx-fresh m key val ttl now = ground (arith, get_locked-value now m key)

module _ (m : Mem) (unique : IsUnique m) (key val : Text) (ttl now : ℕ) where
  pub set_nx-IsUnique : IsUnique (set_nx key val ttl now m).1
  unfolding set_nx
  set_nx-IsUnique =
      let m' = (get_locked key now m).1 in
      let e : Entry = record { val = val; expires = now + ttl } in
      let u = get_locked-IsUnique key now m unique in
      ground (arith, u, insert-IsUnique key e m' u, sweep_locked-IsUnique now (insert key e m'))

  -- In a memory with one entry to a key, setting a key if absent, with a positive ttl, changes for a
  -- reader at a later time only that key, and only if it was not to be seen when it was set: the
  -- reader sees the value until the ttl has passed. The sweep of expired keys is not to be seen.
  pub set_nx-view :
      (t : ℕ) (j : Text)
      → 0 < ttl
      → now ≤ t
      → view t (set_nx key val ttl now m).1 j ≡ (
          if is_none (view now m key) && text_eq key j then until (now + ttl) t val else view t m j)
  unfolding set_nx
  set_nx-view t j p le =
      let m' = (get_locked key now m).1 in
      let e : Entry = record { val = val; expires = now + ttl } in
      let u = get_locked-IsUnique key now m unique in
      ground (
        arith,
        get_locked-value now m key,
        get_locked-view now m key t j le,
        view-insert m' key val (now + ttl) t j,
        insert-IsUnique key e m' u,
        sweep_locked-view now t (insert key e m') j,
      )
