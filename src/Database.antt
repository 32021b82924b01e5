-- ===== src/Database.antt =====
-- internal/db/db.go: the kind of a database by its URL, and the retries of its setup.
pub mod Retries
mod Examples
use frigate_notifications.Prelude.{
  ℕ, zero, suc, ◌+◌, ◌*◌, ◌==◌, Bool, true, false, ◌&&◌, ◌||◌, Option, none, some, List, [], ◌∷◌,
  Text, lit, map, text_eq, leb, if◌then◌else◌, Result, ok, err,
}
use frigate_notifications.Clock.{second, minute}
use frigate_notifications.Unicode.{Unicode}

pub data Kind : Type 0 where
  mongo postgres : Kind

-- Begins with "//".
abbrev slashes : Text → Bool
slashes (a ∷ b ∷ s) = a == b'/' && b == b'/'
slashes _ = false

-- What is before the first "://".
unfoldable pub cut_scheme : Text → Option Text
cut_scheme [] = none
cut_scheme (c ∷ s) = elim (c == b':' && slashes s) [
  | true ↦ some []
  | false ↦ elim (cut_scheme s) [ none ↦ none | some before ↦ some (c ∷ before) ]
]

-- The `switch` of `KindOf`.
unfoldable pub kind_of_scheme : Text → Result Kind
kind_of_scheme s =
    if text_eq s (lit "mongodb") || text_eq s (lit "mongodb+srv")
    then ok mongo
    else if text_eq s (lit "postgres") || text_eq s (lit "postgresql")
    then ok postgres
    else err

unfoldable pub kind_of : Unicode → Text → Result Kind
unfolding cut_scheme kind_of_scheme
kind_of u url = elim (cut_scheme url) [
  | none ↦ err
  | some scheme ↦ kind_of_scheme (map u.to_lower scheme)
]

abbrev pub schema_retry_min : ℕ
schema_retry_min = 2 * second

abbrev pub schema_retry_max : ℕ
schema_retry_max = minute

abbrev pub min : ℕ → ℕ → ℕ
min a b = if leb a b then a else b

-- `ended k` tells if the context ends before the wait number `k` is over, and `works k` if the attempt
-- after it succeeds. The result is what the loop reports, none if the fuel runs out before it does, and
-- the waits that it sat out.
module _ (hi : ℕ) (ended works : ℕ → Bool) where
  retry_from : ℕ → ℕ → ℕ → Option Bool × List ℕ
  retry_from zero k wait = (none, [])
  retry_from (suc fuel) k wait =
      let (reports, waits) = retry_from fuel (suc k) (min (wait * 2) hi) in
      if ended k
      then (some false, [])
      else if works k
      then (some true, wait ∷ [])
      else (reports, wait ∷ waits)

  unfoldable pub retry_until : ℕ → ℕ → Option Bool × List ℕ
  unfolding retry_from
  retry_until fuel lo = retry_from fuel 0 lo
