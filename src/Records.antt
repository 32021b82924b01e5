-- ===== src/Records.antt =====
-- internal/eventstore/eventstore.go: the records of reviews and of descriptions; `received_at` is the
-- time of the call. The record of a notification is in `Environment`.
use frigate_notifications.Prelude.{ℕ, Option, List, Text}
use frigate_notifications.Rules.{Phase}
use frigate_notifications.Frigate.{ReviewPayload, TrackedObjectUpdate, primary_event_id}

pub data Kind : Type 0 where
  review description_update : Kind

pub record ReviewEventRecord : Type 0 where
  pub kind : Kind
  pub received_at : ℕ
  pub review_id : Text
  pub event_id : Text
  pub lifecycle_type : Phase
  pub camera : Text
  pub severity : Text
  pub start_time : ℕ
  pub end_time : Option ℕ
  pub objects : List Text
  pub sub_labels : List Text
  pub zones : List Text
  pub detections : List Text
  pub thumb_path : Text

pub record DescriptionUpdateRecord : Type 0 where
  pub kind : Kind
  pub received_at : ℕ
  pub event_id : Text
  pub description : Text

unfoldable pub new_review_event_record : ℕ → ReviewPayload → Phase → ReviewEventRecord
unfolding primary_event_id
new_review_event_record now r lifecycle = record {
  kind = review;
  received_at = now;
  review_id = r.id;
  event_id = primary_event_id r;
  lifecycle_type = lifecycle;
  camera = r.camera;
  severity = r.severity;
  start_time = r.start_time;
  end_time = r.end_time;
  objects = r.review_data.objects;
  sub_labels = r.review_data.sub_labels;
  zones = r.review_data.zones;
  detections = r.review_data.detections;
  thumb_path = r.thumb_path;
}

unfoldable pub new_description_update_record : ℕ → TrackedObjectUpdate → DescriptionUpdateRecord
new_description_update_record now upd = record {
  kind = description_update;
  received_at = now;
  event_id = upd.id;
  description = upd.description_text;
}
