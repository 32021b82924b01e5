-- ===== src/Config/Valid.antt =====
-- internal/config/config.go: what a valid configuration is.
use frigate_notifications.Prelude.{
  ◌≡◌, ◌≢◌, ◌⊎◌, false, Option, none, some, List, [], ◌∷◌, map, All, Text, lit, Map, lookup, Result,
  ok,
}
use frigate_notifications.Prelude.Int.{ℤ, pos, ◌≤ℤ◌}
use frigate_notifications.Unicode.{Unicode}
use frigate_notifications.Window.{Window}
use frigate_notifications.Database.{Kind, kind_of}
use frigate_notifications.Config.{
  Camera, RuleConditions, TargetType, hass, slack, ntfy, discord, Preset, CooldownScope,
}
use frigate_notifications.Config.File.{FileTarget, FileRecipient, FileRule, FileConfig}
use frigate_notifications.Config.Problems.{is_zero, target_type, preset, cooldown_scope, has_prefix}
use frigate_notifications.Config.RuleProblems.{live_cameras}
use frigate_notifications.Config.Validate.{Url}

abbrev pub NonEmpty {ℓ} : {A : Type ℓ} → List A → Type ℓ
NonEmpty l = l ≢ []

-- A window with both ends, or none.
abbrev pub IsComplete : Option Window → Type 0
IsComplete none = Unit
IsComplete (some w) = NonEmpty w.from.raw × NonEmpty w.to.raw

abbrev pub IsKnown : {V : Type 0} → Map V → Text → Type 0
IsKnown {V} m k = (v : V) × (lookup k m ≡ some v)

abbrev pub IsDistinct : List Text → Type 0
IsDistinct [] = Unit
IsDistinct (t ∷ ts) = All (λ s. t ≢ s) ts × IsDistinct ts

abbrev pub IsSeverity : Text → Type 0
IsSeverity s = (s ≡ lit "alert") ⊎ (s ≡ lit "detection")

pub record IsValidConditions (cameras : Map Camera) (c : RuleConditions) : Type 0 where
  pub known_cameras : All (IsKnown cameras) c.cameras
  pub severities : All IsSeverity c.severity
  pub complete_hours : IsComplete c.hours
  pub dwell : pos 0 ≤ℤ c.min_dwell

-- It says something, and not who is missing.
pub record IsValidUnless (cameras : Map Camera) (c : RuleConditions) : Type 0 where
  pub some_condition : is_zero c ≡ false
  pub excludes_none : c.exclude_sub_labels ≡ []
  pub conditions : IsValidConditions cameras c

abbrev pub NotNegative : Option ℤ → Type 0
NotNegative none = Unit
NotNegative (some d) = pos 0 ≤ℤ d

abbrev pub HasLiveView : Map Camera → Text → Type 0
HasLiveView cameras cam = (c : Camera) × (lookup cam cameras ≡ some c) × NonEmpty c.live_view_entity

pub record IsValidRule (recipients : Map FileRecipient) (cameras : Map Camera) (r : FileRule)
    : Type 0 where
  pub has_to : NonEmpty r.to
  pub known_to : All (IsKnown recipients) r.to
  pub distinct_to : IsDistinct r.to
  pub cooldown : pos 0 ≤ℤ r.cooldown
  pub holdoff : NotNegative r.holdoff
  pub has_preset : (p : Preset) × (preset r.preset ≡ some p)
  pub has_scope : (s : CooldownScope) × (cooldown_scope r.cooldown_scope ≡ some s)
  pub when : IsValidConditions cameras r.when
  pub unless : All (IsValidUnless cameras) r.unless
  pub live :
      r.preset ≡ lit "liveview" → All (HasLiveView cameras) (live_cameras cameras r.when.cameras)

-- What the target needs for its backend.
abbrev pub IsReachable : (Text → Result Url) → FileConfig → FileTarget → TargetType → Type 0
IsReachable parse c t hass = NonEmpty t.service × (has_prefix t.service (lit "notify.") ≡ false)
IsReachable parse c t slack = NonEmpty t.channel × NonEmpty c.slack.bot_token
IsReachable parse c t ntfy = NonEmpty t.topic × NonEmpty c.ntfy.url
IsReachable parse c t discord =
    (u : Url) × (parse t.webhook_url ≡ ok u) × (u.scheme ≡ lit "https") × NonEmpty u.host

abbrev pub IsValidTarget : (Text → Result Url) → FileConfig → FileTarget → Type 0
IsValidTarget parse c t = (k : TargetType) × (target_type t.type ≡ some k) × IsReachable parse c t k

pub record IsValidRecipient (parse : Text → Result Url) (c : FileConfig) (r : FileRecipient)
    : Type 0 where
  pub has_targets : NonEmpty r.targets
  pub targets : All (IsValidTarget parse c) r.targets
  pub cap : pos 0 ≤ℤ r.max_per_hour
  pub complete_hours : IsComplete r.active_hours

-- No URL, or the base of one.
pub record IsBase (parse : Text → Result Url) (url : Text) : Type 0 where
  pub parsed : Url
  pub whole : parse url ≡ ok parsed
  pub scheme : (parsed.scheme ≡ lit "http") ⊎ (parsed.scheme ≡ lit "https")
  pub host : NonEmpty parsed.host
  pub query : parsed.raw_query ≡ []
  pub fragment : parsed.fragment ≡ []

pub record IsValid (parse : Text → Result Url) (u : Unicode) (c : FileConfig) : Type 0 where
  pub database : (c.db_url ≡ []) ⊎ ((k : Kind) × (kind_of u c.db_url ≡ ok k))
  pub has_recipients : NonEmpty c.recipients
  pub has_cameras : NonEmpty c.cameras
  pub link_ttl : pos 0 ≤ℤ c.media.link_ttl
  pub recipients : All (λ e. IsValidRecipient parse c e.1) c.recipients
  pub ui_url : (c.frigate_ui_url ≡ []) ⊎ IsBase parse c.frigate_ui_url
  pub has_rules : NonEmpty c.rules
  pub named : All (λ r. NonEmpty r.name) c.rules
  pub distinct_names : IsDistinct (map (λ r. r.name) c.rules)
  pub rules : All (IsValidRule c.recipients c.cameras) c.rules
