-- ===== src/Store/Memory.antt =====
-- internal/store/backend_mem.go: the fallback in memory, with keys that expire.
pub mod View
use frigate_notifications.Prelude.{
  ℕ, suc, ◌+◌, Bool, true, false, not, ◌&&◌, Option, none, some, [], ◌∷◌, Text, Map, lookup, insert,
  delete, length, ltb, ◌==◌, if◌then◌else◌, Result, ok,
}
use frigate_notifications.Store.Interface.{Backend, Codec}

-- The time 0 is Go's zero time.
pub record Entry : Type 0 where
  pub val : Text
  pub expires : ℕ

abbrev pub Mem : Type 0
Mem = Map Entry

-- !e.expires.IsZero() && now.After(e.expires)
abbrev pub expired : ℕ → Entry → Bool
expired now e = not (e.expires == 0) && ltb e.expires now

abbrev live : Text → ℕ → Mem → Option Entry → Option Text × Mem
live key now m none = (none, m)
live key now m (some e) = if expired now e then (none, delete key m) else (some e.val, m)

-- An expired entry is dropped when it is read.
unfoldable pub get_locked : Text → ℕ → Mem → Option Text × Mem
get_locked key now m = live key now m (lookup key m)

drop_expired : ℕ → Mem → Mem
drop_expired now [] = []
drop_expired now ((k, e) ∷ m) =
    let rest = drop_expired now m in if expired now e then rest else (k, e) ∷ rest

unfoldable pub sweep_locked : ℕ → Mem → Mem
unfolding drop_expired
sweep_locked now m = if ltb (length m) 512 then m else drop_expired now m

unfoldable pub set_nx : Text → Text → ℕ → ℕ → Mem → Result Bool × Mem
unfolding get_locked sweep_locked
set_nx key val ttl now m =
    let (found, m') = get_locked key now m in
    elim found [
      | some _ ↦ (ok false, m')
      | none ↦
          (ok true, sweep_locked now (insert key (record { val = val; expires = now + ttl }) m'))
    ]

unfoldable pub get : Text → ℕ → Mem → Result (Option Text) × Mem
unfolding get_locked
get key now m = let (found, m') = get_locked key now m in (ok found, m')

unfoldable pub set : Text → Text → ℕ → ℕ → Mem → Result (Unit {0}) × Mem
set key val ttl now m = (ok tt, insert key (record { val = val; expires = now + ttl }) m)

unfoldable pub del : Text → ℕ → Mem → Result (Unit {0}) × Mem
del key now m = (ok tt, delete key m)

module _ (int : Codec ℕ) where
  abbrev pub stored_count : Option Text → ℕ
  stored_count none = 0
  stored_count (some v) = elim (int.decode v) [ none ↦ 0 | some n ↦ n ]

  unfoldable pub incr : Text → ℕ → ℕ → Mem → Result ℕ × Mem
  unfolding get_locked
  incr key ttl now m =
      let (found, m') = get_locked key now m in
      let n = suc (stored_count found) in
      (ok n, insert key (record { val = int.encode n; expires = now + ttl }) m')

  abbrev pub mem_backend : Backend Mem
  mem_backend = record { set_nx = set_nx; get = get; set = set; del = del; incr = incr }
