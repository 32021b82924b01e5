-- ===== src/Store.antt =====
-- internal/store/store.go: the state that survives a restart, over a primary backend that may fail and
-- a fallback in memory. The backends are in `Interface` and `Memory`.
pub mod Interface
pub mod Memory
pub mod Guards
pub mod Alone
pub mod Reviews
pub mod Outage
pub mod Exact
pub mod Rates
mod Examples
use frigate_notifications.Prelude.{
  ℕ, zero, suc, ◌+◌, ◌*◌, Bool, true, false, ◌&&◌, Option, none, some, List, [], ◌∷◌, ◌++◌, Text,
  lit, text_eq, is_empty, any, ltb, if◌then◌else◌, Result, ok, err, not,
}
use frigate_notifications.Prelude.Int.{ℤ, pos, negsuc}
use frigate_notifications.Clock.{second, minute, hour, Time, unix, hour_stamp}
use Interface.{Backend, Codec}
use Memory.{Mem, mem_backend}

pub record Delivery : Type 0 where
  pub recipient : Text
  pub target : ℕ
  pub ref : Text
  pub tag : Text

pub record ReviewState : Type 0 where
  pub rule_index : ℕ
  pub rule_name : Text
  pub tag : Text
  pub deliveries : List Delivery
  pub critical : Bool
  pub event_id : Text
  pub payload : Text

-- The loop of `Recipients`: the first delivery to each recipient counts.
unfoldable pub recipients_from : List Text → List Delivery → List Text
recipients_from seen [] = []
recipients_from seen (d ∷ rest) =
    let later = recipients_from seen rest in
    let new = d.recipient ∷ recipients_from (d.recipient ∷ seen) rest in
    if any (text_eq d.recipient) seen then later else new

unfoldable pub recipients : ReviewState → List Text
unfolding recipients_from
recipients s = recipients_from [] s.deliveries

pub record DigestEntry : Type 0 where
  pub count : ℕ
  pub since : ℕ

pub record Codecs : Type 0 where
  pub int : Codec ℕ
  pub review_state : Codec ReviewState
  pub digest : Codec DigestEntry

-- The keys, one prefix to each kind.
unfoldable pub seen_key : Text → Text → Text
seen_key review_id phase = lit "fn:seen:" ++ (review_id ++ (lit ":" ++ phase))

unfoldable pub cooldown_key : Text → Text
cooldown_key scope = lit "fn:cooldown:" ++ scope

unfoldable pub review_key : Text → Text
review_key review_id = lit "fn:review:" ++ review_id

unfoldable pub event_key : Text → Text
event_key event_id = lit "fn:event:" ++ event_id

unfoldable pub rate_key : Text → Text → Text
rate_key recipient stamp = lit "fn:rate:" ++ (recipient ++ (lit ":" ++ stamp))

unfoldable pub digest_key : Text → Text → Text
digest_key recipient camera = lit "fn:digest:" ++ (recipient ++ (lit ":" ++ camera))

unfoldable pub desc_key : Text → Text
desc_key event_id = lit "fn:desc:" ++ event_id

abbrev pub review_ttl : ℕ
review_ttl = 6 * hour

-- The primary, if one is configured, with its state; the fallback; and how often the metric
-- StoreFallback was counted.
pub record Store (P : Type 0) : Type 0 where
  pub primary : Option P
  pub fallback : Mem
  pub fallbacks : ℕ

-- The function that `do` runs on a backend: its captured variables and the backend's state in and out,
-- and whether it returned no error.
abbrev pub Op : Type 0 → Type 1
Op C = (B : Type 0) → Backend B → C → B → Bool × C × B

module _ {P : Type 0} (pb : Backend P) (cs : Codecs) where
  on_fallback : {C : Type 0} → Op C → C → Store P → C × Store P
  on_fallback op c s =
      let (done, c', m) = op Mem (mem_backend cs.int) c s.fallback in
      (c', record s { fallback = m })

  -- What the primary's attempt wrote to the captured variables before it failed, the fallback finds.
  unfoldable pub run : {C : Type 0} → Op C → C → Store P → C × Store P
  unfolding on_fallback
  run op c s = elim s.primary [
    | none ↦ on_fallback op c s
    | some p ↦
        let (done, c', p') = op P pb c p in
        let failed : Store P = record s { primary = some p'; fallbacks = suc s.fallbacks } in
        if done then (c', record s { primary = some p' }) else on_fallback op c' failed
  ]

abbrev pub set_nx_op : Text → ℕ → ℕ → Op Bool
set_nx_op key ttl now B b first st =
    let (r, st') = b.set_nx key (lit "1") ttl now st in
    elim r [ ok fresh ↦ (true, fresh, st') | err ↦ (false, first, st') ]

abbrev pub get_op : Text → ℕ → Op (Option Text)
get_op key now B b v st =
    let (r, st') = b.get key now st in
    elim r [ ok found ↦ (true, found, st') | err ↦ (false, none, st') ]

abbrev pub set_op : Text → Text → ℕ → ℕ → Op (Unit {0})
set_op key val ttl now B b c st =
    let (r, st') = b.set key val ttl now st in
    elim r [ ok _ ↦ (true, tt, st') | err ↦ (false, tt, st') ]

abbrev pub del_op : Text → ℕ → Op (Unit {0})
del_op key now B b c st =
    let (r, st') = b.del key now st in elim r [ ok _ ↦ (true, tt, st') | err ↦ (false, tt, st') ]

abbrev pub incr_op : Text → ℕ → ℕ → Op ℕ
incr_op key ttl now B b n st =
    let (r, st') = b.incr key ttl now st in elim r [ ok v ↦ (true, v, st') | err ↦ (false, n, st') ]

-- A review that does not decode is an error of the backend that holds it.
abbrev pub load_op : Codec ReviewState → Text → ℕ → Op (Option ReviewState)
load_op codec key now B b st s =
    let (r, s') = b.get key now s in
    elim r [
      | err ↦ (false, st, s')
      | ok none ↦ (true, none, s')
      | ok (some raw) ↦ elim (codec.decode raw) [
        | none ↦ (false, st, s')
        | some v ↦ (true, some v, s')
      ]
    ]

abbrev merge : DigestEntry → Option DigestEntry → DigestEntry
merge entry none = entry
merge entry (some prev) =
    if ltb 0 prev.since then record { count = prev.count; since = prev.since } else entry

abbrev previous : Codec DigestEntry → DigestEntry → Option Text → DigestEntry
previous codec entry none = entry
previous codec entry (some raw) = merge entry (codec.decode raw)

abbrev bump : DigestEntry → DigestEntry
bump e = record e { count = suc e.count }

abbrev digest_put :
    Codec DigestEntry
    → Text
    → ℕ
    → (B : Type 0) → Backend B
    → DigestEntry
    → B
    → Bool × DigestEntry × B
digest_put codec key now B b entry st =
    let (r, st') = b.set key (codec.encode entry) (2 * hour) now st in
    elim r [ ok _ ↦ (true, entry, st') | err ↦ (false, entry, st') ]

abbrev pub digest_op : Codec DigestEntry → Text → ℕ → Op DigestEntry
digest_op codec key now B b entry st =
    let (r, st') = b.get key now st in
    elim r [
      | err ↦ (false, entry, st')
      | ok found ↦ digest_put codec key now B b (bump (previous codec entry found)) st'
    ]

module _ {P : Type 0} (pb : Backend P) (cs : Codecs) where
  unfoldable pub store_set_nx : Text → ℕ → ℕ → Store P → Bool × Store P
  store_set_nx key ttl now s = run pb cs (set_nx_op key ttl now) true s

  unfoldable pub store_get : Text → ℕ → Store P → Option Text × Store P
  store_get key now s = run pb cs (get_op key now) none s

  unfoldable pub store_set : Text → Text → ℕ → ℕ → Store P → Store P
  store_set key val ttl now s = (run pb cs (set_op key val ttl now) tt s).1

  unfoldable pub first_delivery : Text → Text → ℕ → Store P → Bool × Store P
  unfolding store_set_nx
  first_delivery review_id phase now s = store_set_nx (seen_key review_id phase) (10 * minute) now s

  unfoldable pub acquire_cooldown : Text → ℤ → ℕ → Store P → Bool × Store P
  unfolding store_set_nx
  acquire_cooldown scope (pos (suc ttl)) now s = store_set_nx (cooldown_key scope) (suc ttl) now s
  acquire_cooldown scope (pos zero) now s = (true, s)
  acquire_cooldown scope (negsuc ttl) now s = (true, s)

  unfoldable pub release_cooldown : Text → ℕ → Store P → Store P
  release_cooldown scope now s = (run pb cs (del_op (cooldown_key scope) now) tt s).1

  unfoldable pub save_event : Text → Text → ℕ → Store P → Store P
  save_event [] review_id now s = s
  save_event (c ∷ event_id) review_id now s =
      store_set (event_key (c ∷ event_id)) review_id review_ttl now s

  unfoldable pub save_review : Text → ReviewState → ℕ → Store P → Store P
  save_review review_id st now s =
      save_event st.event_id review_id now
        (store_set (review_key review_id) (cs.review_state.encode st) review_ttl now s)

  unfoldable pub load_review : Text → ℕ → Store P → Option ReviewState × Store P
  load_review review_id now s =
      run pb cs (load_op cs.review_state (review_key review_id) now) none s

  found_review : Option Text → ℕ → Store P → Option (Text × ReviewState) × Store P
  found_review none now s = (none, s)
  found_review (some review_id) now s =
      let (st, s') = load_review review_id now s in
      elim st [ none ↦ (none, s') | some v ↦ (some (review_id, v), s') ]

  unfoldable pub load_review_by_event : Text → ℕ → Store P → Option (Text × ReviewState) × Store P
  unfolding found_review
  load_review_by_event event_id now s =
      let (review_id, s') = store_get (event_key event_id) now s in found_review review_id now s'

  unfoldable pub count_for_hour : Text → Time → Store P → ℕ × Store P
  count_for_hour recipient now s =
      run pb cs (incr_op (rate_key recipient (hour_stamp now)) (2 * hour) now.instant) 0 s

  unfoldable pub add_to_digest : Text → Text → Time → Store P → DigestEntry × Store P
  add_to_digest recipient camera now s =
      run pb cs (digest_op cs.digest (digest_key recipient camera) now.instant)
        (record { count = 0; since = unix now }) s

  unfoldable pub clear_digest : Text → Text → ℕ → Store P → Store P
  clear_digest recipient camera now s =
      (run pb cs (del_op (digest_key recipient camera) now) tt s).1

  unfoldable pub set_description : Text → Text → ℕ → Store P → Store P
  unfolding store_set
  set_description event_id desc now s = store_set (desc_key event_id) desc hour now s

  or_empty : Option Text → Text
  or_empty none = []
  or_empty (some v) = v

  unfoldable pub description : Text → ℕ → Store P → Text × Store P
  unfolding store_get or_empty
  description event_id now s = let (v, s') = store_get (desc_key event_id) now s in (or_empty v, s')
