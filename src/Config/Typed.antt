-- ===== src/Config/Typed.antt =====
-- internal/config/config.go: a configuration of the source, as the types that the notifier's model works
-- with, where target types, presets and scopes are no texts.
use frigate_notifications.Prelude.{Option, none, some, List, [], ◌∷◌, Text, Map}
use frigate_notifications.Clock.{Location}
use frigate_notifications.Config.{
  Config, Recipient, Rule, Target, TargetType, Preset, CooldownScope,
}
use frigate_notifications.Config.File.{FileConfig, FileRecipient, FileRule, FileTarget}
use frigate_notifications.Config.Problems.{target_type, preset, cooldown_scope}

infixl 5 ◌>>=◌
abbrev pub ◌>>=◌ : {A B : Type 0} → Option A → (A → Option B) → Option B
◌>>=◌ none f = none
◌>>=◌ (some a) f = f a

-- The results for all, if there is one for each.
abbrev pub each_some : {A B : Type 0} → (A → Option B) → List A → Option (List B)
each_some f [] = some []
each_some f (a ∷ xs) = do b ← f a; bs ← each_some f xs; some (b ∷ bs)

abbrev pub target_as : FileTarget → TargetType → Target
target_as t k = record {
  type = k;
  service = t.service;
  channel = t.channel;
  topic = t.topic;
  webhook_url = t.webhook_url;
}

abbrev pub recipient_as : FileRecipient → List Target → Recipient
recipient_as r targets = record {
  targets = targets;
  allow_critical = r.allow_critical;
  active_hours = r.active_hours;
  max_per_hour = r.max_per_hour;
  skip_when_only = r.skip_when_only;
}

abbrev pub rule_as : FileRule → Preset → CooldownScope → Rule
rule_as r p s = record {
  name = r.name;
  when = r.when;
  unless = r.unless;
  holdoff = r.holdoff;
  cooldown = r.cooldown;
  cooldown_scope = s;
  to = r.to;
  preset = p;
  critical = r.critical;
  location = r.location;
}

abbrev pub config_as : FileConfig → Location → Map Recipient → List Rule → Config
config_as c location recipients rules = record {
  frigate_ui_url = c.frigate_ui_url;
  dry_run = c.dry_run;
  recipients = recipients;
  cameras = c.cameras;
  rules = rules;
  location = location;
}

unfoldable pub typed_target : FileTarget → Option Target
typed_target t = do k ← target_type t.type; some (target_as t k)

unfoldable pub typed_recipient : Text × FileRecipient → Option (Text × Recipient)
unfolding typed_target
typed_recipient (name, r) = do
  targets ← each_some typed_target r.targets
  some (name, recipient_as r targets)

unfoldable pub typed_rule : FileRule → Option Rule
typed_rule r = do p ← preset r.preset; s ← cooldown_scope r.cooldown_scope; some (rule_as r p s)

unfoldable pub typed : FileConfig → Option Config
unfolding typed_recipient typed_rule
typed c = do
  location ← c.location
  recipients ← each_some typed_recipient c.recipients
  rules ← each_some typed_rule c.rules
  some (config_as c location recipients rules)
