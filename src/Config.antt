-- ===== src/Config.antt =====
-- internal/config/config.go and duration.go: the configuration's types, and what is computed of them.
pub mod File
pub mod Problems
pub mod RuleProblems
pub mod Validate
pub mod Quiet
pub mod Valid
pub mod Accepts
pub mod Accepted
pub mod Read
pub mod Typed
pub mod Workable
mod Examples
use frigate_notifications.Prelude.{
  ◌*◌, Bool, not, ◌||◌, Option, none, some, List, [], ◌∷◌, Text, lit, trim_suffix, ◌++◌, Map,
  lookup, is_empty, any, if◌then◌else◌,
}
use frigate_notifications.Prelude.Int.{ℤ, pos}
use frigate_notifications.Clock.{second, Location}
use frigate_notifications.Unicode.{Unicode, equal_fold}
use frigate_notifications.Window.{Window}

pub data TargetType : Type 0 where
  hass slack ntfy discord : TargetType

pub record Target : Type 0 where
  pub type : TargetType
  pub service : Text
  pub channel : Text
  pub topic : Text
  pub webhook_url : Text

pub record Recipient : Type 0 where
  pub targets : List Target
  pub allow_critical : Bool
  pub active_hours : Option Window
  pub max_per_hour : ℤ
  pub skip_when_only : List Text

pub record Camera : Type 0 where
  pub friendly_name : Text
  pub live_view_entity : Text

pub record RuleConditions : Type 0 where
  pub cameras : List Text
  pub labels : List Text
  pub zones : List Text
  pub sub_labels : List Text
  pub exclude_sub_labels : List Text
  pub severity : List Text
  pub hours : Option Window
  pub min_dwell : ℤ
  pub entity_state : Map Text

pub data Preset : Type 0 where
  auto text liveview : Preset

pub data CooldownScope : Type 0 where
  camera_scope rule_scope global_scope : CooldownScope

pub record Rule : Type 0 where
  pub name : Text
  pub when : RuleConditions
  pub unless : List RuleConditions
  pub holdoff : Option ℤ
  pub cooldown : ℤ
  pub cooldown_scope : CooldownScope
  pub to : List Text
  pub preset : Preset
  pub critical : Bool
  pub location : Option Location

-- The part of `Config` that decisions and messages read, once loaded and validated.
pub record Config : Type 0 where
  pub frigate_ui_url : Text
  pub dry_run : Bool
  pub recipients : Map Recipient
  pub cameras : Map Camera
  pub rules : List Rule
  pub location : Location

abbrev pub default_holdoff : ℤ
default_holdoff = pos (5 * second)

unfoldable pub uses_faces : RuleConditions → Bool
uses_faces c = not (is_empty c.sub_labels) || not (is_empty c.exclude_sub_labels)

unfoldable pub effective_holdoff : Unicode → Rule → ℤ
effective_holdoff u r =
    let waits = uses_faces r.when || any (λ l. equal_fold u l (lit "person")) r.when.labels in
    elim r.holdoff [
      | some d ↦ d
      | none ↦ if waits || any uses_faces r.unless then default_holdoff else pos 0
    ]

abbrev or_key : Text → Text → Text
or_key key [] = key
or_key key (c ∷ s) = c ∷ s

unfoldable pub camera_name : Config → Text → Text
camera_name c camera = elim (lookup camera c.cameras) [
  | some cam ↦ or_key camera cam.friendly_name
  | none ↦ camera
]

unfoldable pub review_list_url : Config → Text
review_list_url c =
    if is_empty c.frigate_ui_url
    then []
    else trim_suffix c.frigate_ui_url (lit "/") ++ lit "/review"

-- `escape` is url.QueryEscape.
unfoldable pub review_url : (Text → Text) → Config → Text → Text
unfolding review_list_url
review_url escape c review_id =
    let base = review_list_url c in
    if is_empty base || is_empty review_id then base else base ++ (lit "?id=" ++ escape review_id)
