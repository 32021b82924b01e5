-- ===== src/Sender.antt =====
-- internal/sender/sender.go and http.go: what the backends share.
pub mod Registered
pub mod Hass
pub mod Ntfy
pub mod Slack
pub mod Discord
mod Examples
use frigate_notifications.Prelude.{
  ℕ, zero, suc, ◌+◌, ◌-◌, ◌*◌, Bool, true, false, not, ◌&&◌, ◌||◌, Option, none, some, List, [],
  ◌∷◌, ◌++◌, map, Text, lit, is_empty, length, take, ltb, leb, ◌==◌, if◌then◌else◌, Result, ok, err,
}
use frigate_notifications.Prelude.Int.{ℤ, pos, negsuc}
use frigate_notifications.Clock.{second}
use frigate_notifications.Message.{Stage, digest}
use frigate_notifications.Unicode.{Unicode, trim_space}

abbrev pub is_digest : Stage → Bool
is_digest digest = true
is_digest _ = false

-- path.Ext: from the last dot of the last element on.
unfoldable pub ext_from : Text → Text → Text
ext_from found [] = found
ext_from found (c ∷ s) = ext_from (if c == b'/' then [] else if c == b'.' then c ∷ s else found) s

-- `url_path` is the path that url.Parse finds.
unfoldable pub link_ext : Unicode → (Text → Result Text) → Text → Text
unfolding ext_from
link_ext u url_path raw_url = elim (url_path raw_url) [
  | err ↦ []
  | ok path ↦ map u.to_lower (ext_from [] path)
]

-- cmp.Or of texts
abbrev pub or_else : Text → Text → Text
or_else [] t = t
or_else (c ∷ s) t = c ∷ s

-- A field that is set where there is a text for it.
abbrev pub if_any : Text → Option Text
if_any [] = none
if_any (c ∷ s) = some (c ∷ s)

unfoldable pub truncate : Unicode → Text → ℕ → Text
truncate u s max = if leb (length s) max then s else trim_space u (take (max - 1) s) ++ lit "…"

pub record Response : Type 0 where
  pub status : ℕ
  pub body : Text
  -- a duration, 0 where the header gives none
  pub retry_after : ℤ

unfoldable pub is_ok : Response → Bool
is_ok r = leb 200 r.status && ltb r.status 300

abbrev pub too_many_requests : ℕ
too_many_requests = 429

abbrev pub max_retry_after : ℕ
max_retry_after = 5 * second

-- `ended` tells if the context ends before the wait is over.
unfoldable pub wait_retry_after : Bool → ℤ → Bool
wait_retry_after ended (negsuc d) = not ended
wait_retry_after ended (pos d) = if ltb max_retry_after d then false else not ended
