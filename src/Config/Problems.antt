-- ===== src/Config/Problems.antt =====
-- internal/config/config.go: the problems that `validate` finds, and the checks of single values. A
-- problem is a value: what is wrong, and the place and the name that its message gives where it does.
use frigate_notifications.Prelude.{
  ℕ, zero, suc, Bool, true, false, ◌&&◌, ◌||◌, Option, none, some, List, [], ◌∷◌, ◌++◌, Text, lit,
  text_eq, is_empty, ◌==◌, if◌then◌else◌, Map, lookup,
}
use frigate_notifications.Prelude.Int.{ℤ, pos, ltb_ℤ}
use frigate_notifications.Prelude.Numerals.{decimal}
use frigate_notifications.Window.{Window}
use frigate_notifications.Config.{
  RuleConditions, TargetType, hass, slack, ntfy, discord, Preset, auto, text, liveview,
  CooldownScope, camera_scope, rule_scope, global_scope,
}

-- The first text of most is where the problem is.
pub data Problem : Type 0 where
  bad_db_url no_recipients no_cameras negative_link_ttl bad_ui_url ui_url_query no_rules : Problem
  no_targets negative_max_per_hour half_window : Text → Problem
  no_service service_prefixed no_channel no_bot_token no_topic no_ntfy_url bad_webhook :
      Text → Problem
  unknown_type : Text → Text → Problem
  unnamed duplicate_name no_to negative_cooldown negative_holdoff negative_dwell : Text → Problem
  unknown_recipient listed_twice unknown_preset unknown_scope : Text → Text → Problem
  empty_unless unless_excludes : Text → Problem
  unknown_camera unknown_severity no_live_view : Text → Text → Problem

-- `if b { add(...) }`
abbrev pub add_if : Bool → Problem → List Problem
add_if true p = p ∷ []
add_if false p = []

abbrev pub negative : ℤ → Bool
negative n = ltb_ℤ n (pos 0)

-- A loop over a list that adds problems.
abbrev pub each {ℓ} : {A : Type ℓ} → (A → List Problem) → List A → List Problem
each f [] = []
each f (x ∷ xs) = f x ++ each f xs

-- The same with the index.
abbrev pub each_from {ℓ} : {A : Type ℓ} → (ℕ → A → List Problem) → ℕ → List A → List Problem
each_from f i [] = []
each_from f i (x ∷ xs) = f i x ++ each_from f (suc i) xs

abbrev pub missing {ℓ} : {V : Type ℓ} → Map V → Text → Bool
missing m k = elim (lookup k m) [ none ↦ true | some v ↦ false ]

abbrev pub indexed : Text → ℕ → Text
indexed where_ i = where_ ++ (lit "[" ++ (decimal i ++ lit "]"))

unfoldable pub is_zero : RuleConditions → Bool
is_zero c =
    is_empty c.cameras
    && is_empty c.labels
    && is_empty c.zones
    && is_empty c.sub_labels
    && is_empty c.exclude_sub_labels
    && is_empty c.severity
    && elim c.hours [ none ↦ true | some w ↦ false ]
    && elim c.min_dwell [ pos zero ↦ true | _ ↦ false ]
    && is_empty c.entity_state

unfoldable pub validate_window : Text → Option Window → List Problem
validate_window where_ none = []
validate_window where_ (some w) =
    add_if (is_empty w.from.raw || is_empty w.to.raw) (half_window where_)

-- The constant that a text is, if it is one of the four.
unfoldable pub target_type : Text → Option TargetType
target_type t =
    if text_eq t (lit "hass")
    then some hass
    else if text_eq t (lit "slack")
    then some slack
    else if text_eq t (lit "ntfy")
    then some ntfy
    else if text_eq t (lit "discord")
    then some discord
    else none

unfoldable pub preset : Text → Option Preset
preset t =
    if text_eq t (lit "auto")
    then some auto
    else if text_eq t (lit "text")
    then some text
    else if text_eq t (lit "liveview")
    then some liveview
    else none

unfoldable pub cooldown_scope : Text → Option CooldownScope
cooldown_scope t =
    if text_eq t (lit "camera")
    then some camera_scope
    else if text_eq t (lit "rule")
    then some rule_scope
    else if text_eq t (lit "global")
    then some global_scope
    else none

abbrev pub is_none {ℓ} : {A : Type ℓ} → Option A → Bool
is_none none = true
is_none (some a) = false

-- strings.HasPrefix
unfoldable pub has_prefix : Text → Text → Bool
has_prefix s [] = true
has_prefix [] (p ∷ prefix) = false
has_prefix (c ∷ s) (p ∷ prefix) = c == p && has_prefix s prefix
