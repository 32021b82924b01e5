-- ===== src/HassCache/Entities.antt =====
-- internal/hasscache/hasscache.go: the entities' cache, against the log of the reads that it remembers.
use mathlib.Core.List.{Memᴰ}
use frigate_notifications.Prelude.{
  ℕ, ◌+◌, ◌≤◌, ◌<◌, ◌≡◌, ◌⊎◌, inl, inr, refl, ap, ◌∙◌, Bool, not, ◌||◌, Option, none, some, List,
  [], ◌∷◌, All, All-map, Text, text_eq, text_eq_iff, Bool-cases, Option-cases, if◌then◌else◌,
  lookup, lookup-insert, Result, arith,
}
use frigate_notifications.Clock.{Location}
use frigate_notifications.HassCache.{
  Cache, Entry, Call, Decoders, new, state, solar, refresh_state, refresh_solar, cached_state,
  fetch_state, is_ok, ttl_of, fail_ttl, recent,
}

-- A read that the cache remembered.
pub record Read : Type 0 where
  pub entity : Text
  pub answer : Result Text
  pub asked : ℕ
  pub over : ℕ

-- The newest read of an entity, in a log with the newest first.
unfoldable pub newest : Text → List Read → Option Entry
newest entity [] = none
newest entity (r ∷ log) =
    if text_eq r.entity entity
    then some (record { answer = r.answer; fetched = r.over })
    else newest entity log

-- Each read was over before those after it were made, and ended no sooner than it began.
abbrev Ordered : List Read → Type 0
Ordered [] = Unit
Ordered (r ∷ log) = (r.asked ≤ r.over) × All (λ q. q.over ≤ r.asked) log × Ordered log

-- Two reads of one entity are `fail_ttl` apart.
abbrev pub IsSpaced : List Read → Type 0
IsSpaced [] = Unit
IsSpaced (r ∷ log) = All (λ q. q.entity ≡ r.entity → q.over + fail_ttl ≤ r.asked) log × IsSpaced log

-- What is long after the newest read of an entity is long after all its reads.
newest-All :
    (entity : Text) (log : List Read) (at : ℕ)
    → Ordered log
    → ((e : Entry) → newest entity log ≡ some e → e.fetched + fail_ttl ≤ at)
    → All (λ q. q.entity ≡ entity → q.over + fail_ttl ≤ at) log
unfolding newest
newest-All entity [] at h k = tt
newest-All entity (r ∷ log) at h k = elim (Bool-cases (text_eq r.entity entity)) [
  | inl same ↦
      let late = k (record { answer = r.answer; fetched = r.over }) (rw same refl) in
      (
        λ e. late,
        All-map (λ q. q.over ≤ r.asked) (λ q. q.entity ≡ entity → q.over + fail_ttl ≤ at) log
            (λ q b e. omega (arith, b, late, h.0)) h.1,
      )
  | inr other ↦ (
    λ e. ground (arith, text_eq_iff r.entity entity),
    newest-All entity log at h.2 (λ e f. k e (rw other f)),
  )
]

-- Only a read that failed for a cancelled caller is forgotten.
abbrev remember : Bool → Read → List Read → List Read
remember cancelled r log = if is_ok r.answer || not cancelled then r ∷ log else log

remember-cases :
    (Q : List Read → Type 0) (cancelled : Bool) (r : Read) (log : List Read)
    → Q log
    → Q (r ∷ log)
    → Q (remember cancelled r log)
remember-cases Q cancelled r log q more = elim (Bool-cases (is_ok r.answer || not cancelled)) [
  | inl b ↦ rw b more
  | inr b ↦ rw b q
]

module _ (ds : Decoders) where
  abbrev read_of : Call → Text → Read
  read_of call entity = record {
    entity = entity;
    answer = fetch_state ds call entity;
    asked = call.asked;
    over = call.over;
  }

  -- The log after a call of `state`: longer by the read, if one is made and remembered.
  unfoldable pub note : Call → Text → Cache → List Read → List Read
  note call entity c log = elim (cached_state ds c call.asked entity) [
    | some found ↦ log
    | none ↦ remember call.cancelled (read_of call entity) log
  ]

  -- The caches that calls lead to, one after another, with the log of what they remembered.
  pub data Reached : Cache → List Read → Type 0 where
    created : (loc : Location) → Reached (new loc) []
    state_asked :
        {c : Cache} {log : List Read} (call : Call) (entity : Text)
        → Reached c log
        → All (λ r. r.over ≤ call.asked) log
        → call.asked ≤ call.over
        → Reached (state ds call entity c).1 (note call entity c log)
    solar_asked :
        {c : Cache} {log : List Read} (call : Call)
        → Reached c log
        → Reached (solar ds call c).1 log

  Recorded : Cache → List Read → Type 0
  Recorded c log = (entity : Text) → lookup entity c.entities ≡ newest entity log

  state-Recorded :
      (call : Call) (entity : Text) (c : Cache) (log : List Read)
      → Recorded c log
      → Recorded (state ds call entity c).1 (note call entity c log)
  unfolding Recorded state note refresh_state newest
  state-Recorded call entity c log h e = ground (
    arith,
    h e,
    lookup-insert {V = Entry} entity e
        (record { answer = fetch_state ds call entity; fetched = call.over }) c.entities,
  )

  solar-entities : (call : Call) (c : Cache) → (solar ds call c).1.entities ≡ c.entities
  unfolding solar refresh_solar
  solar-entities call c = ground arith

  Reached-Recorded : (c : Cache) (log : List Read) → Reached c log → Recorded c log
  unfolding Recorded new lookup newest
  Reached-Recorded _ _ (created loc) e = refl
  Reached-Recorded _ _ (state_asked {c} {log} call entity r before lasts) e =
      state-Recorded call entity c log (Reached-Recorded c log r) e
  Reached-Recorded _ _ (solar_asked {c} {log} call r) e =
      ap (lookup e) (solar-entities call c) ∙ Reached-Recorded c log r e

  newest-Mem :
      (entity : Text) (log : List Read) (e : Entry)
      → newest entity log ≡ some e
      → (r : Read) × Memᴰ r log × (r.entity ≡ entity) × (r.answer ≡ e.answer) × (r.over ≡ e.fetched)
  unfolding newest
  newest-Mem entity [] e h = cc
  newest-Mem entity (r ∷ log) e h = elim (Bool-cases (text_eq r.entity entity)) [
    | inl same ↦
        (r, Memᴰ.head refl, (text_eq_iff r.entity entity).0 same, ground arith, ground arith)
    | inr other ↦
        let (q, m, same, ans, at) = newest-Mem entity log e (ground arith) in
        (q, Memᴰ.tail m, same, ans, at)
  ]

  -- In every cache that calls lead to, the answer for an entity is either what Home Assistant says now,
  -- or what a remembered read of the same entity gave that was over less than ten seconds ago, five
  -- where that read failed.
  pub state-IsRecent :
      (c : Cache) (log : List Read) (call : Call) (entity : Text)
      → Reached c log
      → ((state ds call entity c).0 ≡ fetch_state ds call entity)
        ⊎ ((r : Read) × Memᴰ r log
            × (r.entity ≡ entity)
            × ((state ds call entity c).0 ≡ r.answer)
            × (call.asked < r.over + ttl_of r.answer))
  unfolding state refresh_state cached_state Recorded
  state-IsRecent c log call entity r = elim (Option-cases (newest entity log)) [
    | inl e ↦ let k = Reached-Recorded c log r entity in inl (ground arith)
    | inr (en, e) ↦
        let k = Reached-Recorded c log r entity in
        let (q, m, same, ans, at) = newest-Mem entity log en e in
        elim (Bool-cases (recent en.fetched (ttl_of en.answer) call.asked)) [
          | inl b ↦ inr (q, m, same, ground arith, ground arith)
          | inr b ↦ inl (ground arith)
        ]
  ]

  -- What holds of the log, and of the log with the read where the cache has no answer, holds after.
  note-cases :
      (Q : List Read → Type 0) (call : Call) (entity : Text) (c : Cache) (log : List Read)
      → Q log
      → (cached_state ds c call.asked entity ≡ none → Q (read_of call entity ∷ log))
      → Q (note call entity c log)
  unfolding note
  note-cases Q call entity c log q more =
      elim (Option-cases (cached_state ds c call.asked entity)) [
        | inr (a, e) ↦ rw (e, note) q
        | inl e ↦
            rw (e, note) (remember-cases Q call.cancelled (read_of call entity) log q (more e))
      ]

  Reached-Ordered : (c : Cache) (log : List Read) → Reached c log → Ordered log
  Reached-Ordered _ _ (created loc) = tt
  Reached-Ordered _ _ (state_asked {c} {log} call entity r before lasts) =
      let o = Reached-Ordered c log r in
      note-cases Ordered call entity c log o (λ e. (lasts, before, o))
  Reached-Ordered _ _ (solar_asked {c} {log} call r) = Reached-Ordered c log r

  cached_state-late :
      (c : Cache) (log : List Read) (now : ℕ) (entity : Text)
      → Recorded c log
      → cached_state ds c now entity ≡ none
      → (e : Entry) → newest entity log ≡ some e
      → e.fetched + fail_ttl ≤ now
  unfolding cached_state ttl_of Recorded
  cached_state-late c log now entity h k e f = let i = h entity in ground arith

  -- Where calls come one after another, the reads of one entity that the cache remembers are at least
  -- five seconds apart, from the end of one to the start of the next: also while every read fails.
  pub Reached-IsSpaced : (c : Cache) (log : List Read) → Reached c log → IsSpaced log
  Reached-IsSpaced _ _ (created loc) = tt
  Reached-IsSpaced _ _ (state_asked {c} {log} call entity r before lasts) =
      let spaced = Reached-IsSpaced c log r in
      note-cases IsSpaced call entity c log spaced (λ e. (
        newest-All entity log call.asked (Reached-Ordered c log r)
            (cached_state-late c log call.asked entity (Reached-Recorded c log r) e),
        spaced,
      ))
  Reached-IsSpaced _ _ (solar_asked {c} {log} call r) = Reached-IsSpaced c log r
