-- ===== src/Environment.antt =====
-- What the notifier is given and what it does to the world: the parameters that stand for code outside
-- the repository, the answers of one moment, and the effects, in the order of the calls.
use frigate_notifications.Prelude.{ℕ, Bool, Option, List, Text, Result}
use frigate_notifications.Unicode.{Unicode}
use frigate_notifications.Window.{SolarTimes}
use frigate_notifications.Config.{TargetType, Target, Preset}
use frigate_notifications.Rules.{Phase}
use frigate_notifications.Frigate.{ReviewPayload, ReviewMetadata}
use frigate_notifications.Message.{Message}
use frigate_notifications.Media.{Kind, Signer}
use frigate_notifications.Store.{Codecs}
use frigate_notifications.Store.Interface.{Backend, Codec}

-- internal/eventstore: one delivery attempt.
pub record NotificationRecord : Type 0 where
  pub sent_at : ℕ
  pub review_id : Text
  pub event_id : Text
  pub rule : Text
  pub recipient : Text
  pub backend : TargetType
  pub target : Target
  pub phase : Phase
  pub preset : Preset
  pub critical : Bool
  pub dry_run : Bool
  -- the notification's texts and links, under the tag it was sent with
  pub message : Message
  pub success : Bool

pub data SuppressReason : Type 0 where
  only_skipped_people outside_active_hours rate_cap cooldown : SuppressReason

-- The kind of the attachment that was chosen.
pub data Selected : Type 0 where
  off no_media : Selected
  kind : Kind → Selected

pub data Effect : Type 0 where
  -- a call of a backend's `Send`, with the ref of the message that it is to edit
  pushed : Target → Message → Text → Effect
  dry_logged : Target → Message → Effect
  review_saved : ReviewPayload → Phase → Effect
  description_saved : Text → Text → Effect
  notification_saved : NotificationRecord → Effect
  review_received : Phase → Text → Effect
  unmatched : Text → Phase → Effect
  suppressed : SuppressReason → Text → Text → Effect
  sent_counted : Text → Text → TargetType → Preset → Phase → Effect
  send_failed : Text → TargetType → Effect
  media_selected : Phase → Selected → Effect
  camera_warned : Text → Effect

-- What Frigate says of a candidate: it fits, it is too large to attach, or it cannot be had.
pub data Probe : Type 0 where
  fits too_large unavailable : Probe

pub record Env (P : Type 0) : Type 0 where
  pub unicode : Unicode
  -- url.QueryEscape
  pub query_escape : Text → Text
  pub backend : Backend P
  pub codecs : Codecs
  pub review_codec : Codec ReviewPayload
  pub decode_metadata : Text → Option ReviewMetadata
  -- the first eight bytes of a SHA-256, in hex
  pub hash : Text → Text
  pub signer : Option Signer
  pub probe : Kind → Text → Probe
  pub has_sender : TargetType → Bool
  -- what a backend answers may depend on all that was done before
  pub send : List Effect → Target → Message → Text → Result Text

-- The clock, what Home Assistant answers, and whether the process is stopping.
pub record Moment : Type 0 where
  pub instant : ℕ
  pub entity_state : Text → Result Text
  pub solar : Result SolarTimes
  pub cancelled : Bool
