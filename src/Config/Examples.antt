-- ===== src/Config/Examples.antt =====
-- internal/config/config.go: a configuration that is loaded, and some that are refused.
use frigate_notifications.Prelude.{
  ◌≡◌, ◌↔◌, refl, true, false, none, some, List, [], ◌∷◌, Text, lit, text_eq, if◌then◌else◌, Result,
  ok, err, lookup,
}
use frigate_notifications.Prelude.Numerals.{decimal}
use frigate_notifications.Prelude.Int.{pos}
use frigate_notifications.Clock.{minute, utc, Location}
use frigate_notifications.Unicode.{ascii}
use frigate_notifications.Config.{Config, RuleConditions}
use frigate_notifications.Config.File.{
  FileConfig, FileRecipient, FileRule, FileTarget, apply_defaults,
}
use frigate_notifications.Config.Problems.{
  unknown_recipient, listed_twice, unknown_preset, unknown_scope, bad_db_url,
}
use frigate_notifications.Config.Validate.{Url, validate}
use frigate_notifications.Config.Valid.{IsValid}
use frigate_notifications.Config.Accepted.{validate-iff-IsValid}
use frigate_notifications.Config.Read.{◌>>=◌, Loader, read}
use frigate_notifications.Config.Typed.{typed}
use frigate_notifications.Config.Workable.{IsWorkable, read-IsWorkable}

abbrev anything : RuleConditions
anything = record {
  cameras = [];
  labels = [];
  zones = [];
  sub_labels = [];
  exclude_sub_labels = [];
  severity = [];
  hours = none;
  min_dwell = pos 0;
  entity_state = [];
}

abbrev phone : FileTarget
phone = record {
  type = lit "hass";
  service = lit "mobile_app_ana";
  channel = [];
  topic = [];
  webhook_url = [];
}

abbrev ana : FileRecipient
ana = record {
  targets = phone ∷ [];
  allow_critical = true;
  active_hours = none;
  max_per_hour = pos 10;
  skip_when_only = [];
}

abbrev rule_to : List Text → FileRule
rule_to names = record {
  name = lit "yard";
  when = anything;
  unless = [];
  holdoff = none;
  cooldown = pos minute;
  cooldown_scope = [];
  to = names;
  preset = [];
  critical = false;
  timezone = [];
  location = none;
}

abbrev written_with : List Text → Text → FileConfig
written_with names db_url = record {
  hass = record { url = lit "http://hass"; token = lit "t" };
  slack = record { bot_token = [] };
  ntfy = record { url = []; token = [] };
  mqtt = record {
    broker = lit "tcp://host:1883";
    client_id = lit "frigate-notify";
    username = lit "u";
    password = lit "p";
    topic_prefix = lit "frigate";
  };
  redis_url = [];
  db_url = db_url;
  media = record { frigate_url = []; public_base_url = []; signing_key = []; link_ttl = pos 0 };
  timezone = lit "Local";
  frigate_ui_url = [];
  dry_run = false;
  recipients = (lit "ana", ana) ∷ [];
  cameras = (lit "yard", record { friendly_name = lit "Yard"; live_view_entity = [] }) ∷ [];
  rules = rule_to names ∷ [];
  log_level = [];
  location = none;
}

abbrev written : FileConfig
written = written_with (lit "ana" ∷ []) (lit "Postgres://db")

abbrev no_urls : Text → Result Url
no_urls t = err

abbrev everywhere : Text → Result Location
everywhere t = ok utc

abbrev loader : Loader
loader = record {
  read_file = λ path. if text_eq path (lit "config.yaml") then ok (lit "the file") else err;
  getenv = λ name. [];
  yaml = λ text. ok written;
  parse_env = λ vars c. ok c;
  load_location = everywhere;
  parse_url = no_urls;
  unicode = ascii;
}

abbrev or_written : Result FileConfig → FileConfig
or_written err = written
or_written (ok c) = c

-- The file with its defaults.
abbrev complete : FileConfig
complete = or_written (apply_defaults everywhere written)

loaded : read loader [] ≡ ok complete
unfolding read apply_defaults validate ◌>>=◌ text_eq lookup
loaded = refl

abbrev place : Text
place = lit "rules[0] (yard)"

-- Before the defaults are in place, with a wrong database, and a name twice that is nobody's.
refused :
    validate no_urls ascii (written_with (lit "ben" ∷ lit "ben" ∷ []) (lit "mysql://db"))
    ≡ bad_db_url
      ∷ unknown_recipient place (lit "ben")
      ∷ unknown_recipient place (lit "ben")
      ∷ listed_twice place (lit "ben")
      ∷ unknown_preset place []
      ∷ unknown_scope place []
      ∷ []
unfolding validate text_eq lookup decimal
refused = refl

validate-iff-IsValid_example :
    (validate no_urls ascii complete ≡ []) ↔ IsValid no_urls ascii complete
validate-iff-IsValid_example = validate-iff-IsValid no_urls ascii complete

read-IsWorkable_example : (t : Config) × (typed complete ≡ some t) × IsWorkable t
read-IsWorkable_example = read-IsWorkable loader [] complete loaded
