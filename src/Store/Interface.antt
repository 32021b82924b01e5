-- ===== src/Store/Interface.antt =====
-- internal/store/store.go: the key/value surface that Valkey, the databases and the memory share, and
-- the codecs of what is stored. A call takes the time at which it is made, and returns the new state.
use frigate_notifications.Prelude.{ℕ, ◌≡◌, Bool, Option, some, Text, Result}

pub record Backend (B : Type 0) : Type 0 where
  -- key, value, ttl, now
  pub set_nx : Text → Text → ℕ → ℕ → B → Result Bool × B
  pub get : Text → ℕ → B → Result (Option Text) × B
  pub set : Text → Text → ℕ → ℕ → B → Result (Unit {0}) × B
  pub del : Text → ℕ → B → Result (Unit {0}) × B
  pub incr : Text → ℕ → ℕ → B → Result ℕ × B

-- encoding/json of one type, or strconv's decimals.
pub record Codec (A : Type 0) : Type 0 where
  pub encode : A → Text
  pub decode : Text → Option A

-- What is encoded decodes to itself.
pub record IsLossless {A : Type 0} (c : Codec A) : Type 0 where
  pub decode-encode : (a : A) → c.decode (c.encode a) ≡ some a
