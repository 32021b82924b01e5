-- ===== src/Config/RuleProblems.antt =====
-- internal/config/config.go: what `validate` finds wrong with conditions and rules.
use frigate_notifications.Prelude.{
  ℕ, suc, Bool, false, not, ◌&&◌, Option, none, some, List, [], ◌∷◌, ◌++◌, map, Text, lit, text_eq,
  is_empty, any, if◌then◌else◌, Map, lookup,
}
use frigate_notifications.Prelude.Int.{ℤ}
use frigate_notifications.Prelude.Sorting.{sort_texts}
use frigate_notifications.Config.{Camera, RuleConditions}
use frigate_notifications.Config.File.{FileRecipient, FileRule}
use frigate_notifications.Config.Problems.{
  Problem, add_if, negative, each, each_from, missing, indexed, is_zero, validate_window, preset,
  cooldown_scope, is_none, unnamed, duplicate_name, no_to, negative_cooldown, negative_holdoff,
  negative_dwell, unknown_recipient, listed_twice, unknown_preset, unknown_scope, empty_unless,
  unless_excludes, unknown_camera, unknown_severity, no_live_view,
}

unfoldable pub validate_severity : Text → Text → List Problem
validate_severity where_ s =
    add_if (not (text_eq s (lit "alert")) && not (text_eq s (lit "detection")))
      (unknown_severity where_ s)

unfoldable pub validate_conditions : Map Camera → Text → RuleConditions → List Problem
unfolding validate_window validate_severity
validate_conditions cameras where_ cond =
    each (λ cam. add_if (missing cameras cam) (unknown_camera where_ cam)) cond.cameras
    ++ (each (validate_severity where_) cond.severity
        ++ (validate_window (where_ ++ lit ".hours") cond.hours
            ++ add_if (negative cond.min_dwell) (negative_dwell where_)))

-- The loop over `unless`.
unfoldable pub validate_unless : Map Camera → Text → ℕ → RuleConditions → List Problem
unfolding is_zero validate_conditions
validate_unless cameras where_ j u =
    let at = indexed (where_ ++ lit ".unless") j in
    add_if (is_zero u) (empty_unless at)
    ++ (add_if (not (is_empty u.exclude_sub_labels)) (unless_excludes at)
        ++ validate_conditions cameras at u)

-- The loop over `to`, with the names that it has seen.
unfoldable pub validate_to : Map FileRecipient → Text → List Text → List Text → List Problem
validate_to recipients where_ seen [] = []
validate_to recipients where_ seen (to ∷ tos) =
    add_if (missing recipients to) (unknown_recipient where_ to)
    ++ (add_if (any (text_eq to) seen) (listed_twice where_ to)
        ++ validate_to recipients where_ (to ∷ seen) tos)

-- Every camera of the configuration where a rule names none, sorted.
unfoldable pub live_cameras : Map Camera → List Text → List Text
live_cameras cameras [] = sort_texts (map (λ e. e.0) cameras)
live_cameras cameras (c ∷ cams) = c ∷ cams

abbrev pub live_view_of : Map Camera → Text → Text
live_view_of cameras cam = elim (lookup cam cameras) [ none ↦ [] | some c ↦ c.live_view_entity ]

unfoldable pub validate_live : Map Camera → Text → FileRule → List Problem
unfolding live_cameras
validate_live cameras where_ rule =
    if text_eq rule.preset (lit "liveview")
    then each (λ cam. add_if (is_empty (live_view_of cameras cam)) (no_live_view where_ cam))
        (live_cameras cameras rule.when.cameras)
    else []

abbrev pub negative_option : Option ℤ → Bool
negative_option none = false
negative_option (some d) = negative d

unfoldable pub validate_rule : Map FileRecipient → Map Camera → Text → FileRule → List Problem
unfolding validate_to validate_conditions validate_unless validate_live preset cooldown_scope
validate_rule recipients cameras where_ rule =
    add_if (is_empty rule.to) (no_to where_)
    ++ (validate_to recipients where_ [] rule.to
        ++ (add_if (negative rule.cooldown) (negative_cooldown where_)
            ++ (add_if (negative_option rule.holdoff) (negative_holdoff where_)
                ++ (add_if (is_none (preset rule.preset)) (unknown_preset where_ rule.preset)
                    ++ (add_if (is_none (cooldown_scope rule.cooldown_scope))
                          (unknown_scope where_ rule.cooldown_scope)
                        ++ (validate_conditions cameras (where_ ++ lit ".when") rule.when
                            ++ (each_from (validate_unless cameras where_) 0 rule.unless
                                ++ validate_live cameras where_ rule)))))))

abbrev pub rule_place : ℕ → Text → Text
rule_place i [] = indexed (lit "rules") i
rule_place i (c ∷ name) = indexed (lit "rules") i ++ (lit " (" ++ ((c ∷ name) ++ lit ")"))

-- The loop over the rules, with the names that it has seen.
unfoldable pub validate_rules :
    Map FileRecipient → Map Camera → ℕ → List Text → List FileRule → List Problem
unfolding validate_rule
validate_rules recipients cameras i seen [] = []
validate_rules recipients cameras i seen (rule ∷ rules) =
    let where_ = rule_place i rule.name in
    (if is_empty rule.name
      then unnamed where_ ∷ []
      else add_if (any (text_eq rule.name) seen) (duplicate_name where_))
    ++ (validate_rule recipients cameras where_ rule
        ++ validate_rules recipients cameras (suc i)
            (if is_empty rule.name then seen else rule.name ∷ seen) rules)
