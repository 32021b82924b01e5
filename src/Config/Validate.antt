-- ===== src/Config/Validate.antt =====
-- internal/config/config.go: `validate`, the whole configuration.
use frigate_notifications.Prelude.{
  Bool, not, ◌&&◌, ◌||◌, Option, none, some, List, [], ◌∷◌, ◌++◌, Text, lit, text_eq, is_empty,
  if◌then◌else◌, Result, ok, err,
}
use frigate_notifications.Unicode.{Unicode}
use frigate_notifications.Config.{TargetType, hass, slack, ntfy, discord}
use frigate_notifications.Config.File.{FileTarget, FileRecipient, FileConfig}
use frigate_notifications.Database.{kind_of}
use frigate_notifications.Config.Problems.{
  Problem, add_if, negative, each, each_from, indexed, validate_window, target_type, has_prefix,
  bad_db_url, no_recipients, no_cameras, negative_link_ttl, bad_ui_url, ui_url_query, no_rules,
  no_targets, negative_max_per_hour, no_service, service_prefixed, no_channel, no_bot_token,
  no_topic, no_ntfy_url, bad_webhook, unknown_type,
}
use frigate_notifications.Config.RuleProblems.{validate_rules}

-- What url.Parse gives.
pub record Url : Type 0 where
  pub scheme : Text
  pub host : Text
  pub raw_query : Text
  pub fragment : Text

unfoldable pub validate_db_url : Unicode → Text → List Problem
unfolding kind_of
validate_db_url u [] = []
validate_db_url u (c ∷ s) = elim (kind_of u (c ∷ s)) [ err ↦ bad_db_url ∷ [] | ok k ↦ [] ]

-- A scheme that is one of these, and a host.
abbrev pub absolute : (Text → Bool) → Url → Bool
absolute schemes u = schemes u.scheme && not (is_empty u.host)

abbrev pub is_http : Text → Bool
is_http t = text_eq t (lit "http") || text_eq t (lit "https")

-- The `switch` on the UI's URL.
unfoldable pub check_ui_url : Result Url → List Problem
check_ui_url err = bad_ui_url ∷ []
check_ui_url (ok u) =
    if not (absolute is_http u)
    then bad_ui_url ∷ []
    else add_if (not (is_empty u.raw_query) || not (is_empty u.fragment)) ui_url_query

-- `parse` is url.Parse.
module _ (parse : Text → Result Url) where
  unfoldable pub validate_webhook : Text → Text → List Problem
  validate_webhook where_ webhook_url = elim (parse webhook_url) [
    | err ↦ bad_webhook where_ ∷ []
    | ok u ↦ add_if (not (absolute (text_eq (lit "https")) u)) (bad_webhook where_)
  ]

  -- The `switch` of `validateTarget`.
  unfoldable pub check_target : FileConfig → Text → FileTarget → Option TargetType → List Problem
  unfolding validate_webhook has_prefix
  check_target c where_ t (some hass) =
      add_if (is_empty t.service) (no_service where_)
      ++ add_if (has_prefix t.service (lit "notify.")) (service_prefixed where_)
  check_target c where_ t (some slack) =
      add_if (is_empty t.channel) (no_channel where_)
      ++ add_if (is_empty c.slack.bot_token) (no_bot_token where_)
  check_target c where_ t (some ntfy) =
      add_if (is_empty t.topic) (no_topic where_)
      ++ add_if (is_empty c.ntfy.url) (no_ntfy_url where_)
  check_target c where_ t (some discord) = validate_webhook where_ t.webhook_url
  check_target c where_ t none = unknown_type where_ t.type ∷ []

  unfoldable pub validate_target : FileConfig → Text → FileTarget → List Problem
  unfolding target_type check_target
  validate_target c where_ t = check_target c where_ t (target_type t.type)

  unfoldable pub validate_recipient : FileConfig → Text × FileRecipient → List Problem
  unfolding validate_target validate_window
  validate_recipient c (name, r) =
      let at = lit "recipients." ++ name in
      add_if (is_empty r.targets) (no_targets name)
      ++ (each_from (λ i t. validate_target c (indexed (at ++ lit ".targets") i) t) 0 r.targets
          ++ (add_if (negative r.max_per_hour) (negative_max_per_hour name)
              ++ validate_window (at ++ lit ".activeHours") r.active_hours))

  unfoldable pub validate_ui_url : Text → List Problem
  unfolding check_ui_url
  validate_ui_url [] = []
  validate_ui_url (c ∷ s) = check_ui_url (parse (c ∷ s))

  unfoldable pub validate : Unicode → FileConfig → List Problem
  unfolding validate_db_url validate_recipient validate_ui_url validate_rules
  validate u c =
      validate_db_url u c.db_url
      ++ (add_if (is_empty c.recipients) no_recipients
          ++ (add_if (is_empty c.cameras) no_cameras
              ++ (add_if (negative c.media.link_ttl) negative_link_ttl
                  ++ (each (validate_recipient c) c.recipients
                      ++ (validate_ui_url c.frigate_ui_url
                          ++ (add_if (is_empty c.rules) no_rules
                              ++ validate_rules c.recipients c.cameras 0 [] c.rules))))))
