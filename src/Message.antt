-- ===== src/Message.antt =====
-- internal/sender/sender.go: a notification before a backend lays it out.
use frigate_notifications.Prelude.{
  ℕ, ◌+◌, ◌-◌, ◌/◌, ◌%◌, Bool, false, ◌||◌, List, [], ◌∷◌, ◌++◌, Text, lit, is_empty, ltb, ◌==◌,
  if◌then◌else◌,
}
use frigate_notifications.Prelude.Numerals.{decimal}
use frigate_notifications.Prelude.Int.{ℤ, pos}
use frigate_notifications.Clock.{second}
use frigate_notifications.Unicode.{Unicode}

pub data Stage : Type 0 where
  started updated ended digest : Stage

pub record Message : Type 0 where
  pub camera : Text
  pub title : Text
  pub who : Text
  pub headline : Text
  pub detail : Text
  pub body : Text
  pub objects : List Text
  pub zones : List Text
  pub severity : Text
  pub threat : ℤ
  pub stage : Stage
  -- nanoseconds since the epoch, 0 for the zero time
  pub start : ℕ
  pub end : ℕ
  pub tag : Text
  pub image : Text
  pub snapshot : Text
  pub video : Text
  pub clip_url : Text
  pub click_url : Text
  pub live_entity : Text
  pub critical : Bool
  pub update : Bool

abbrev pub blank : Message
blank = record {
  camera = [];
  title = [];
  who = [];
  headline = [];
  detail = [];
  body = [];
  objects = [];
  zones = [];
  severity = [];
  threat = pos 0;
  stage = started;
  start = 0;
  end = 0;
  tag = [];
  image = [];
  snapshot = [];
  video = [];
  clip_url = [];
  click_url = [];
  live_entity = [];
  critical = false;
  update = false;
}

unfoldable pub push_title : Message → Text
push_title m = if is_empty m.who then m.title else m.title ++ (lit " · " ++ m.who)

-- d.Round(time.Second): halves go away from zero.
abbrev pub round_seconds : ℕ → ℕ
round_seconds d = (d + second / 2) / second

-- The span from `start` to `end`; one that runs backwards is below a minute, whatever its length.
unfoldable pub format_span : ℕ → ℕ → Text
format_span start end =
    let s = round_seconds (end - start) in
    let back = round_seconds (start - end) in
    if ltb 0 back
    then lit "-" ++ (decimal back ++ lit "s")
    else if ltb s 60
    then decimal s ++ lit "s"
    else if ltb s 3600
    then decimal (s / 60) ++ (lit "m " ++ (decimal (s % 60) ++ lit "s"))
    else decimal (s / 3600) ++ (lit "h " ++ (decimal (s / 60 % 60) ++ lit "m"))

unfoldable pub duration : Message → Text
unfolding format_span
duration m = if m.start == 0 || m.end == 0 then [] else format_span m.start m.end

unfoldable pub capitalize : Unicode → Text → Text
capitalize u [] = []
capitalize u (c ∷ s) = u.to_upper c ∷ s
