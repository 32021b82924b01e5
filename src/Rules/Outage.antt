-- ===== src/Rules/Outage.antt =====
-- internal/rules/rules.go: lookups in Home Assistant that fail.
use frigate_notifications.Prelude.{
  ℕ, suc, ◌≡◌, ◌⊎◌, true, false, Option, none, some, List, [], ◌∷◌, Text, Map, Result, err, arith,
}
use frigate_notifications.Clock.{Location}
use frigate_notifications.Unicode.{Unicode}
use frigate_notifications.Window.{SolarTimes, Window}
use frigate_notifications.Config.{RuleConditions, Rule}
use frigate_notifications.Rules.{
  MatchContext, excludes_everyone, in_window, entity_matches, entities_match, hours_hold,
  evaluate_home, evaluate, suppressed_from, suppressed_by, match_one,
}

-- What a lookup answers; with no client it cannot be read.
abbrev pub state_answer : Option (Text → Result Text) → Text → Result Text
state_answer none id = err
state_answer (some f) id = f id

abbrev pub solar_answer : Option (Result SolarTimes) → Result SolarTimes
solar_answer none = err
solar_answer (some r) = r

-- Each of the second lookups fails, or answers as the first does.
pub record Degrades (e e' : Option (Text → Result Text)) (s s' : Option (Result SolarTimes))
    : Type 0 where
  pub states : (id : Text) → (state_answer e' id ≡ err) ⊎ (state_answer e' id ≡ state_answer e id)
  pub solar : (solar_answer s' ≡ err) ⊎ (solar_answer s' ≡ solar_answer s)

module _ (u : Unicode) (mc : MatchContext) (e' : Option (Text → Result Text))
    (s' : Option (Result SolarTimes)) (d : Degrades mc.entity_state e' mc.solar s') where
  abbrev worse : MatchContext
  worse = record mc { entity_state = e'; solar = s' }

  entity_matches-worse-true :
      (id want : Text)
      → (entity_matches u mc id want true).0 ≡ true
      → (entity_matches u worse id want true).0 ≡ true
  unfolding entity_matches
  entity_matches-worse-true id want h = ground (arith, d.states id)

  entity_matches-worse-false :
      (id want : Text)
      → (entity_matches u worse id want false).0 ≡ true
      → (entity_matches u mc id want false).0 ≡ true
  unfolding entity_matches
  entity_matches-worse-false id want h = ground (arith, d.states id)

  in_window-worse-true :
      (w : Window) (loc : Option Location)
      → (in_window u w mc true loc).0 ≡ true
      → (in_window u w worse true loc).0 ≡ true
  unfolding in_window
  in_window-worse-true w loc h = ground (arith, d.solar)

  in_window-worse-false :
      (w : Window) (loc : Option Location)
      → (in_window u w worse false loc).0 ≡ true
      → (in_window u w mc false loc).0 ≡ true
  unfolding in_window
  in_window-worse-false w loc h = ground (arith, d.solar)

  entities_match-worse-true :
      (wants : Map Text)
      → (entities_match u mc wants true).0 ≡ true
      → (entities_match u worse wants true).0 ≡ true
  unfolding entities_match
  entities_match-worse-true [] h = h
  entities_match-worse-true ((id, want) ∷ rest) h =
      ground (arith, entity_matches-worse-true id want, entities_match-worse-true rest)

  entities_match-worse-false :
      (wants : Map Text)
      → (entities_match u worse wants false).0 ≡ true
      → (entities_match u mc wants false).0 ≡ true
  unfolding entities_match
  entities_match-worse-false [] h = h
  entities_match-worse-false ((id, want) ∷ rest) h =
      ground (arith, entity_matches-worse-false id want, entities_match-worse-false rest)

  hours_hold-worse-true :
      (o : Option Window) (loc : Option Location)
      → (hours_hold u o mc true loc).0 ≡ true
      → (hours_hold u o worse true loc).0 ≡ true
  hours_hold-worse-true none loc h = h
  hours_hold-worse-true (some w) loc h = in_window-worse-true w loc h

  hours_hold-worse-false :
      (o : Option Window) (loc : Option Location)
      → (hours_hold u o worse false loc).0 ≡ true
      → (hours_hold u o mc false loc).0 ≡ true
  hours_hold-worse-false none loc h = h
  hours_hold-worse-false (some w) loc h = in_window-worse-false w loc h

  module _ (c : RuleConditions) (loc : Option Location) where
    evaluate_home-worse-true :
        (evaluate_home u c mc true loc).0 ≡ true → (evaluate_home u c worse true loc).0 ≡ true
    unfolding evaluate_home
    evaluate_home-worse-true h =
        ground (arith, hours_hold-worse-true c.hours loc, entities_match-worse-true c.entity_state)

    evaluate_home-worse-false :
        (evaluate_home u c worse false loc).0 ≡ true → (evaluate_home u c mc false loc).0 ≡ true
    unfolding evaluate_home
    evaluate_home-worse-false h =
        ground
          (arith, hours_hold-worse-false c.hours loc, entities_match-worse-false c.entity_state)

    evaluate-worse-true :
        (evaluate u c mc true loc).0 ≡ true → (evaluate u c worse true loc).0 ≡ true
    unfolding evaluate excludes_everyone
    evaluate-worse-true h = ground (arith, evaluate_home-worse-true)

    evaluate-worse-false :
        (evaluate u c worse false loc).0 ≡ true → (evaluate u c mc false loc).0 ≡ true
    unfolding evaluate excludes_everyone
    evaluate-worse-false h = ground (arith, evaluate_home-worse-false)

  suppressed_from-worse :
      (i : ℕ) (unless : List RuleConditions) (loc : Option Location)
      → suppressed_from u i unless mc loc ≡ none
      → suppressed_from u i unless worse loc ≡ none
  unfolding suppressed_from
  suppressed_from-worse i [] loc h = h
  suppressed_from-worse i (c ∷ rest) loc h =
      ground (arith, evaluate-worse-false c loc, suppressed_from-worse (suc i) rest loc)

  -- A rule that matches with some answers of Home Assistant still matches when any of the lookups fail
  -- and the others answer the same: in `when` and in `unless` alike, an outage never costs a
  -- notification.
  pub outage_never_silences :
      (i : ℕ) (rule : Rule)
      → (match_one u i rule mc).matched ≡ true
      → (match_one u i rule worse).matched ≡ true
  unfolding match_one suppressed_by
  outage_never_silences i rule h = ground (
    arith,
    evaluate-worse-true rule.when rule.location,
    suppressed_from-worse 0 rule.unless rule.location,
  )
