-- ===== src/Config/File.antt =====
-- internal/config/config.go: the configuration as it is written, and how `Read` loads it. Its target
-- types, presets and scopes are texts here, as in the source.
use frigate_notifications.Prelude.{
  zero, ◌*◌, Bool, not, ◌&&◌, Option, some, List, [], ◌∷◌, Text, lit, is_empty, if◌then◌else◌, Map,
  Result, ok, err,
}
use frigate_notifications.Prelude.Int.{ℤ, pos}
use frigate_notifications.Clock.{hour, Location}
use frigate_notifications.Window.{Window}
use frigate_notifications.Config.{Camera, RuleConditions}

pub record HassConfig : Type 0 where
  pub url : Text
  pub token : Text

pub record SlackConfig : Type 0 where
  pub bot_token : Text

pub record NtfyConfig : Type 0 where
  pub url : Text
  pub token : Text

pub record MqttConfig : Type 0 where
  pub broker : Text
  pub client_id : Text
  pub username : Text
  pub password : Text
  pub topic_prefix : Text

pub record MediaConfig : Type 0 where
  pub frigate_url : Text
  pub public_base_url : Text
  pub signing_key : Text
  pub link_ttl : ℤ

unfoldable pub enabled : MediaConfig → Bool
enabled m =
    not (is_empty m.frigate_url) && not (is_empty m.public_base_url) && not (is_empty m.signing_key)

pub record FileTarget : Type 0 where
  pub type : Text
  pub service : Text
  pub channel : Text
  pub topic : Text
  pub webhook_url : Text

pub record FileRecipient : Type 0 where
  pub targets : List FileTarget
  pub allow_critical : Bool
  pub active_hours : Option Window
  pub max_per_hour : ℤ
  pub skip_when_only : List Text

pub record FileRule : Type 0 where
  pub name : Text
  pub when : RuleConditions
  pub unless : List RuleConditions
  pub holdoff : Option ℤ
  pub cooldown : ℤ
  pub cooldown_scope : Text
  pub to : List Text
  pub preset : Text
  pub critical : Bool
  pub timezone : Text
  pub location : Option Location

-- `redis_url` and `db_url` are the one field of RedisConfig and of DBConfig.
pub record FileConfig : Type 0 where
  pub hass : HassConfig
  pub slack : SlackConfig
  pub ntfy : NtfyConfig
  pub mqtt : MqttConfig
  pub redis_url : Text
  pub db_url : Text
  pub media : MediaConfig
  pub timezone : Text
  pub frigate_ui_url : Text
  pub dry_run : Bool
  pub recipients : Map FileRecipient
  pub cameras : Map Camera
  pub rules : List FileRule
  pub log_level : Text
  pub location : Option Location

-- The values that the file gives to the variables.
unfoldable pub file_vars : FileConfig → Map Text
file_vars c =
    (lit "HASS_URL", c.hass.url)
    ∷ (lit "HASS_TOKEN", c.hass.token)
    ∷ (lit "SLACK_BOT_TOKEN", c.slack.bot_token)
    ∷ (lit "NTFY_URL", c.ntfy.url)
    ∷ (lit "NTFY_TOKEN", c.ntfy.token)
    ∷ (lit "MQTT_BROKER", c.mqtt.broker)
    ∷ (lit "MQTT_CLIENT_ID", c.mqtt.client_id)
    ∷ (lit "MQTT_USERNAME", c.mqtt.username)
    ∷ (lit "MQTT_PASSWORD", c.mqtt.password)
    ∷ (lit "MQTT_TOPIC_PREFIX", c.mqtt.topic_prefix)
    ∷ (lit "REDIS_URL", c.redis_url)
    ∷ (lit "DB_URL", c.db_url)
    ∷ (lit "MEDIA_FRIGATE_URL", c.media.frigate_url)
    ∷ (lit "MEDIA_PUBLIC_BASE_URL", c.media.public_base_url)
    ∷ (lit "MEDIA_SIGNING_KEY", c.media.signing_key)
    ∷ (lit "TIMEZONE", c.timezone)
    ∷ []

-- The loop of `envFor`; `getenv` is os.Getenv.
unfoldable pub override : (Text → Text) → Map Text → Map Text
override getenv [] = []
override getenv ((name, v) ∷ vars) =
    (name, (if is_empty (getenv name) then v else getenv name)) ∷ override getenv vars

unfoldable pub env_for : (Text → Text) → FileConfig → Map Text
unfolding file_vars override
env_for getenv c = override getenv (file_vars c)

abbrev pub default_link_ttl : ℤ
default_link_ttl = pos (24 * hour)

abbrev pub zero_to : ℤ → ℤ → ℤ
zero_to d (pos zero) = d
zero_to d n = n

abbrev pub or_text : Text → Text → Text
or_text d [] = d
or_text d (c ∷ s) = c ∷ s

-- `load` is time.LoadLocation.
module _ (load : Text → Result Location) where
  abbrev pub rule_location : Location → Text → Result Location
  rule_location loc [] = ok loc
  rule_location loc (c ∷ s) = load (c ∷ s)

  unfoldable pub rule_defaults : Location → FileRule → Result FileRule
  rule_defaults loc r = elim (rule_location loc r.timezone) [
    | err ↦ err
    | ok l ↦ ok (record r {
      preset = or_text (lit "auto") r.preset;
      cooldown_scope = or_text (lit "camera") r.cooldown_scope;
      location = some l;
    })
  ]

  unfoldable pub rules_defaults : Location → List FileRule → Result (List FileRule)
  unfolding rule_defaults
  rules_defaults loc [] = ok []
  rules_defaults loc (r ∷ rules) =
      let rest = rules_defaults loc rules in
      elim (rule_defaults loc r) [
        | err ↦ err
        | ok r' ↦ elim rest [ err ↦ err | ok rules' ↦ ok (r' ∷ rules') ]
      ]

  unfoldable pub apply_defaults : FileConfig → Result FileConfig
  unfolding rules_defaults
  apply_defaults c = elim (load c.timezone) [
    | err ↦ err
    | ok loc ↦ elim (rules_defaults loc c.rules) [
      | err ↦ err
      | ok rules ↦ ok (record c {
        location = some loc;
        media = record c.media { link_ttl = zero_to default_link_ttl c.media.link_ttl };
        rules = rules;
      })
    ]
  ]
