-- ===== src/Sender/Ntfy.antt =====
-- internal/sender/ntfy.go: what is published to an ntfy server, and the tries of it.
pub mod Published
use frigate_notifications.Prelude.{
  ℕ, zero, suc, ◌+◌, Bool, true, false, not, ◌&&◌, ◌||◌, Option, none, some, List, [], ◌∷◌, ◌++◌,
  map, Text, lit, text_eq, is_empty, take, ltb, leb, ◌==◌, if◌then◌else◌, Map, lookup, Result, ok,
  err,
}
use frigate_notifications.Prelude.Int.{ℤ, pos, ltb_ℤ}
use frigate_notifications.Unicode.{Unicode}
use frigate_notifications.Message.{Message, Stage, started, updated, ended, digest, push_title}
use frigate_notifications.Sender.{is_digest, link_ext, or_else, Response, is_ok, too_many_requests}

-- The label and the dismissal of an action are always the same.
pub record NtfyMessage : Type 0 where
  pub topic : Text
  pub title : Text
  pub message : Text
  pub priority : ℕ
  pub tags : List Text
  pub click : Text
  pub attach : Text
  pub filename : Text
  -- the URL of "View Clip"
  pub actions : List Text
  pub sequence_id : Text

abbrev pub quiet : ℕ
quiet = 2

abbrev pub usual : ℕ
usual = 3

abbrev pub high : ℕ
high = 4

abbrev pub loudest : ℕ
loudest = 5

unfoldable pub emoji : Map Text
emoji =
    (lit "person", lit "walking")
    ∷ (lit "dog", lit "dog")
    ∷ (lit "cat", lit "cat")
    ∷ (lit "car", lit "car")
    ∷ (lit "package", lit "package")
    ∷ []

unfoldable pub object_tag : List Text → Text
unfolding emoji
object_tag [] = lit "eyes"
object_tag (o ∷ objects) = elim (lookup o emoji) [ none ↦ lit "eyes" | some tag ↦ tag ]

abbrev pub id_rune : ℕ → Bool
id_rune r =
    (leb b'a' r && leb r b'z')
    || (leb b'A' r && leb r b'Z')
    || (leb b'0' r && leb r b'9')
    || r == b'-'
    || r == b'_'

unfoldable pub sequence_id : Text → Text
sequence_id tag = take 64 (map (λ r. if id_rune r then r else b'_') tag)

unfoldable pub priority_of : Message → ℕ
priority_of m =
    if is_digest m.stage
    then quiet
    else if m.update
    then quiet
    else if m.critical
    then loudest
    else if text_eq m.severity (lit "alert")
    then high
    else usual

abbrev tag_if : Bool → Text → List Text
tag_if true t = t ∷ []
tag_if false t = []

unfoldable pub tags_of : Message → List Text
unfolding object_tag
tags_of m =
    if is_digest m.stage
    then lit "bar_chart" ∷ []
    else tag_if m.critical (lit "rotating_light")
      ++ (tag_if (not (ltb_ℤ m.threat (pos 2))) (lit "warning") ++ (object_tag m.objects ∷ []))

unfoldable pub render : Unicode → (Text → Result Text) → Text → Message → NtfyMessage
unfolding sequence_id priority_of tags_of
render u url_path topic m =
    let attach = or_else m.snapshot m.image in
    record {
      topic = topic;
      title = push_title m;
      message = m.body;
      priority = priority_of m;
      tags = tags_of m;
      click = m.click_url;
      attach = attach;
      filename =
          if is_empty attach
          then []
          else or_else m.camera (lit "frigate") ++ link_ext u url_path attach;
      actions = if is_empty m.clip_url then [] else m.clip_url ∷ [];
      sequence_id = sequence_id m.tag;
    }

-- The outcome of one try: over with the answer, or to be tried again.
pub data Try : Type 0 where
  over : Bool → Try
  again : Try

unfoldable pub judge : Result Response → Try
judge err = again
judge (ok r) =
    if is_ok r
    then over true
    else if leb 500 r.status || r.status == too_many_requests
    then again
    else over false

abbrev pub attempts : ℕ
attempts = 3

-- `reply k` answers the try number `k`, and `ended k` tells if the context ends in the wait after it. The
-- result is whether it was published, and how often it was tried.
module _ (reply : ℕ → Result Response) (ended : ℕ → Bool) where
  send_from : ℕ → ℕ → Bool × ℕ
  unfolding judge
  send_from zero k = (false, k)
  send_from (suc left) k =
      let rest = send_from left (suc k) in
      elim (judge (reply k)) [
        | over published ↦ (published, suc k)
        | again ↦ if not (is_last left) && ended k then (false, suc k) else rest
      ]
    where
      is_last : ℕ → Bool
      is_last zero = true
      is_last (suc n) = false

  unfoldable pub send : Bool × ℕ
  unfolding send_from
  send = send_from attempts 0
