-- ===== src/Sender/Hass.antt =====
-- internal/sender/hass.go: what Home Assistant is told. An optional key of the payload is an Option.
use frigate_notifications.Prelude.{
  ℕ, ◌/◌, Bool, not, ◌&&◌, Option, none, some, [], ◌∷◌, ◌++◌, Text, lit, text_eq, is_empty, ◌==◌,
  if◌then◌else◌, Map, lookup, Result,
}
use frigate_notifications.Clock.{second}
use frigate_notifications.Unicode.{Unicode}
use frigate_notifications.Phrase.{join}
use frigate_notifications.Message.{Message, push_title, capitalize}
use frigate_notifications.Sender.{is_digest, link_ext, or_else, if_any}

pub data Level : Type 0 where
  passive time_sensitive critical : Level

-- "sound": left out, "none", or the critical one.
pub data Sound : Type 0 where
  usual silent alarm : Sound

pub record Push : Type 0 where
  pub level : Level
  pub sound : Sound

pub record Attachment : Type 0 where
  pub url : Text
  pub content_type : Option Text

-- How loud it is.
pub record Style : Type 0 where
  pub channel : Text
  pub importance : Option Text
  pub priority : Option Text
  pub push : Option Push
  pub ttl : Option ℕ
  pub color : Option Text

-- `click` is "clickAction" and "url", `view_clip` the one of "actions". "alert_once" is always true and
-- "notification_icon" always "mdi:cctv".
pub record Payload : Type 0 where
  pub title : Text
  pub message : Text
  pub tag : Text
  pub group : Option Text
  pub subtitle : Option Text
  pub when : Option ℕ
  pub click : Option Text
  pub attachment : Option Attachment
  pub image : Option Text
  pub video : Option Text
  pub entity_id : Option Text
  pub view_clip : Option Text
  pub style : Style

abbrev digest_style : Style
digest_style = record {
  channel = lit "Frigate Digest";
  importance = some (lit "low");
  priority = none;
  push = some (record { level = passive; sound = usual });
  ttl = none;
  color = none;
}

abbrev update_style : Style
update_style = record {
  channel = lit "Frigate";
  importance = none;
  priority = none;
  push = some (record { level = passive; sound = silent });
  ttl = none;
  color = none;
}

abbrev critical_style : Style
critical_style = record {
  channel = lit "alarm_stream";
  importance = some (lit "high");
  priority = some (lit "high");
  push = some (record { level = critical; sound = alarm });
  ttl = some 0;
  color = some (lit "#D32F2F");
}

abbrev plain_style : Bool → Style
plain_style is_alert = record {
  channel = lit "Frigate";
  importance = some (lit "high");
  priority = some (lit "high");
  push = if is_alert then some (record { level = time_sensitive; sound = usual }) else none;
  ttl = none;
  color = none;
}

-- The last `switch` of `payload`.
unfoldable pub style_of : Message → Style
style_of m =
    if is_digest m.stage
    then digest_style
    else if m.update
    then update_style
    else if m.critical
    then critical_style
    else plain_style (text_eq m.severity (lit "alert"))

unfoldable pub hass_types : Map Text
hass_types =
    (lit ".jpg", lit "jpeg")
    ∷ (lit ".jpeg", lit "jpeg")
    ∷ (lit ".gif", lit "gif")
    ∷ (lit ".png", lit "png")
    ∷ (lit ".mp4", lit "mpeg4")
    ∷ []

module _ (u : Unicode) (url_path : Text → Result Text) where
  unfoldable pub hass_subtitle : Message → Text
  hass_subtitle m =
      join (lit " · ") (if is_empty m.severity then m.zones else capitalize u m.severity ∷ m.zones)

  unfoldable pub attachment_of : Text → Option Attachment
  unfolding hass_types
  attachment_of [] = none
  attachment_of (c ∷ att) =
      some
        (record { url = c ∷ att; content_type = lookup (link_ext u url_path (c ∷ att)) hass_types })

  unfoldable pub payload : Message → Payload
  unfolding hass_subtitle attachment_of style_of
  payload m = record {
    title = push_title m;
    message = m.body;
    tag = m.tag;
    group = if is_empty m.camera then none else some (lit "frigate-" ++ m.camera);
    subtitle = if_any (hass_subtitle m);
    when = if m.start == 0 then none else some (m.start / second);
    click = if_any m.click_url;
    attachment = attachment_of (or_else m.video m.image);
    image = if_any m.image;
    video = if is_empty m.image then if_any m.video else none;
    entity_id =
        if not (is_empty m.live_entity) && is_empty m.video then some m.live_entity else none;
    view_clip = if_any m.clip_url;
    style = style_of m;
  }
