-- ===== src/Replay/Sunless.antt =====
-- cmd/replay/main.go: where no configured window needs the sun, it does not matter what the sun does.
use frigate_notifications.Prelude.{
  ℕ, suc, ◌≡◌, refl, Bool, true, false, Option, none, some, List, [], ◌∷◌, Text, Map, any, All,
  Result, arith,
}
use frigate_notifications.Clock.{Location, Time}
use frigate_notifications.Unicode.{Unicode}
use frigate_notifications.Window.{SolarTimes, Window}
use frigate_notifications.Config.{Config, Recipient, Rule, RuleConditions}
use frigate_notifications.Rules.{
  MatchContext, excludes_everyone, in_window, entity_matches, entities_match, hours_hold,
  evaluate_home, evaluate, suppressed_from, suppressed_by, match_one, match_from, match_rules,
}
use frigate_notifications.Environment.{Moment}
use frigate_notifications.Policy.{is_inactive, in_active_hours}
use frigate_notifications.Replay.{solar_hours, rule_uses_solar, uses_solar}

module _ (u : Unicode) (mc : MatchContext) (s' : Option (Result SolarTimes)) where
  abbrev pub other : MatchContext
  other = record mc { solar = s' }

  hours_hold-other :
      (hours : Option Window) (on_error : Bool) (loc : Option Location)
      → solar_hours hours ≡ false
      → hours_hold u hours mc on_error loc ≡ hours_hold u hours other on_error loc
  unfolding in_window
  hours_hold-other none on_error loc h = refl
  hours_hold-other (some w) on_error loc h = rw (in_window, h) refl

  entities_match-other :
      (wants : Map Text) (on_error : Bool)
      → entities_match u mc wants on_error ≡ entities_match u other wants on_error
  unfolding entities_match entity_matches
  entities_match-other [] on_error = refl
  entities_match-other ((id, want) ∷ rest) on_error =
      rw (entities_match, entities_match-other rest on_error) refl

  evaluate-other :
      (c : RuleConditions) (on_error : Bool) (loc : Option Location)
      → solar_hours c.hours ≡ false
      → evaluate u c mc on_error loc ≡ evaluate u c other on_error loc
  unfolding evaluate evaluate_home excludes_everyone
  evaluate-other c on_error loc h =
      rw
        (
          evaluate,
          evaluate_home,
          hours_hold-other c.hours on_error loc h,
          entities_match-other c.entity_state on_error,
        )
        refl

  suppressed_from-other :
      (i : ℕ) (cs : List RuleConditions) (loc : Option Location)
      → any (λ c. solar_hours c.hours) cs ≡ false
      → suppressed_from u i cs mc loc ≡ suppressed_from u i cs other loc
  unfolding suppressed_from
  suppressed_from-other i [] loc h = refl
  suppressed_from-other i (c ∷ cs) loc h =
      rw
        (
          suppressed_from,
          evaluate-other c false loc (ground arith),
          suppressed_from-other (suc i) cs loc (ground arith),
        )
        refl

  match_one-other :
      (i : ℕ) (r : Rule) → rule_uses_solar r ≡ false → match_one u i r mc ≡ match_one u i r other
  unfolding match_one suppressed_by
  match_one-other i r h =
      rw
        (
          match_one,
          suppressed_by,
          evaluate-other r.when true r.location (ground arith),
          suppressed_from-other 0 r.unless r.location (ground arith),
        )
        refl

  match_from-other :
      (i : ℕ) (rules : List Rule)
      → any rule_uses_solar rules ≡ false
      → match_from u i rules mc ≡ match_from u i rules other
  unfolding match_from
  match_from-other i [] h = refl
  match_from-other i (r ∷ rules) h =
      rw
        (
          match_from,
          match_one-other i r (ground arith),
          match_from-other (suc i) rules (ground arith),
        )
        refl

abbrev solar_recipient : Text × Recipient → Bool
solar_recipient e = solar_hours e.1.active_hours

-- A recipient is as awake by one sun as by another.
abbrev pub IsSteady : Moment → Result SolarTimes → Recipient → Type 0
IsSteady at sun r =
    (now : Time)
    → is_inactive at r.active_hours now ≡ is_inactive (record at { solar = sun }) r.active_hours now

is_inactive-other :
    (at : Moment) (sun : Result SolarTimes) (hours : Option Window) (now : Time)
    → solar_hours hours ≡ false
    → is_inactive at hours now ≡ is_inactive (record at { solar = sun }) hours now
unfolding in_active_hours
is_inactive-other at sun none now h = refl
is_inactive-other at sun (some w) now h = rw (in_active_hours, h) refl

recipients-Steady :
    (at : Moment) (sun : Result SolarTimes) (rs : Map Recipient)
    → any solar_recipient rs ≡ false
    → All (λ e. IsSteady at sun e.1) rs
recipients-Steady at sun [] h = tt
recipients-Steady at sun (e ∷ rs) h = (
  λ now. is_inactive-other at sun e.1.active_hours now (ground arith),
  recipients-Steady at sun rs (ground arith),
)

-- What rules decide, with their reasons, and who is awake, by one sun and by another.
pub record IsSunless (u : Unicode) (c : Config) (mc : MatchContext) (at : Moment)
    (s : Option (Result SolarTimes)) (sun : Result SolarTimes) : Type 0 where
  pub decides_alike : match_rules u c.rules mc ≡ match_rules u c.rules (record mc { solar = s })
  pub awake_alike : All (λ e. IsSteady at sun e.1) c.recipients

-- If no window of a configuration needs the sun, then whatever times of the sun are given, or none at
-- all, the rules decide the same, for the same reasons, and each recipient is awake at the same times.
pub uses_solar-Sunless :
    (u : Unicode) (c : Config) (mc : MatchContext) (at : Moment) (s : Option (Result SolarTimes))
    (sun : Result SolarTimes)
    → uses_solar c ≡ false
    → IsSunless u c mc at s sun
unfolding uses_solar match_rules
uses_solar-Sunless u c mc at s sun h = record {
  decides_alike = match_from-other u mc s 0 c.rules (ground arith);
  awake_alike = recipients-Steady at sun c.recipients (ground arith);
}
