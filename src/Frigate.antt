-- ===== src/Frigate.antt =====
-- internal/frigate/events.go: Frigate's messages. A time is in nanoseconds since the epoch, 0 for none;
-- a review's raw metadata is a text, with the decoder of its JSON a parameter.
use frigate_notifications.Prelude.{
  ℕ, ◌&&◌, ◌||◌, Option, none, some, List, [], ◌∷◌, Text, lit, text_eq, is_empty, if◌then◌else◌,
}
use frigate_notifications.Prelude.Int.{ℤ}
use frigate_notifications.Rules.{Phase}

pub record ReviewData : Type 0 where
  pub detections : List Text
  pub objects : List Text
  pub sub_labels : List Text
  pub zones : List Text
  pub audio : List Text
  pub metadata : Text

pub record ReviewPayload : Type 0 where
  pub id : Text
  pub camera : Text
  pub start_time : ℕ
  pub end_time : Option ℕ
  pub severity : Text
  pub thumb_path : Text
  pub review_data : ReviewData

-- The lifecycle types are the phases of `Rules`, without that of a late description.
pub record ReviewEvent : Type 0 where
  pub type : Phase
  pub after : ReviewPayload

pub record ReviewMetadata : Type 0 where
  pub title : Text
  pub short_summary : Text
  pub potential_threat_level : ℤ

abbrev first_or_empty : List Text → Text
first_or_empty [] = []
first_or_empty (d ∷ rest) = d

unfoldable pub primary_event_id : ReviewPayload → Text
primary_event_id p = first_or_empty p.review_data.detections

abbrev usable : ReviewMetadata → Option ReviewMetadata
usable m = if is_empty m.title && is_empty m.short_summary then none else some m

unfoldable pub gen_ai : (Text → Option ReviewMetadata) → ReviewData → Option ReviewMetadata
gen_ai decode d =
    if is_empty d.metadata || text_eq d.metadata (lit "null")
    then none
    else elim (decode d.metadata) [ none ↦ none | some m ↦ usable m ]

pub data UpdateType : Type 0 where
  description face : UpdateType

pub record TrackedObjectUpdate : Type 0 where
  pub type : UpdateType
  pub id : Text
  pub description_text : Text
