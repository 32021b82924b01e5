-- ===== src/Rules/Examples.antt =====
-- internal/rules/rules.go: matching at work.
use frigate_notifications.Prelude.{
  ◌*◌, ◌≡◌, refl, true, none, some, [], ◌∷◌, lit, text_eq, length, ok, inl,
}
use frigate_notifications.Prelude.Int.{pos}
use frigate_notifications.Clock.{second}
use frigate_notifications.Unicode.{ascii}
use frigate_notifications.Config.{Rule}
use frigate_notifications.Scene.{house, quiet_rule, loud_rule, anything}
use frigate_notifications.Rules.Order.{First, match_rules-First}
use frigate_notifications.Rules.Outage.{outage_never_silences}
use frigate_notifications.Rules.{
  new, MatchContext, match_one, match_rules, match_from, evaluate, evaluate_home, entities_match,
  entity_matches, compare_state, suppressed_by, suppressed_from, contains, any_in,
}

abbrev seen : MatchContext
seen = record {
  camera = lit "front";
  labels = lit "car" ∷ [];
  sub_labels = [];
  zones = [];
  severity = lit "detection";
  phase = new;
  now = record { instant = 43200 * second; location = λ t. pos 0 };
  dwell = pos 0;
  entity_state = some (λ id. ok (lit "on"));
  solar = none;
}

-- While the light is on, unless the alarm is off.
abbrev light_rule : Rule
light_rule = record quiet_rule {
  when = record anything { entity_state = (lit "light", lit "on") ∷ [] };
  unless = record anything { entity_state = (lit "alarm", lit "off") ∷ [] } ∷ [];
}

light_holds : (match_one ascii 0 light_rule seen).matched ≡ true
unfolding match_one evaluate evaluate_home entities_match entity_matches compare_state suppressed_by
    suppressed_from contains any_in text_eq
light_holds = refl

outage_never_silences_example :
    (match_one ascii 0 light_rule (record seen { entity_state = none; solar = none })).matched
    ≡ true
outage_never_silences_example =
    outage_never_silences ascii seen none none
      (record { states = λ id. inl refl; solar = inl refl }) 0 light_rule light_holds

cars_second : (match_rules ascii house.rules seen).0 ≡ some 1
unfolding match_rules match_from match_one evaluate evaluate_home entities_match contains any_in
    suppressed_by suppressed_from text_eq
cars_second = refl

alerts_not : (match_rules ascii (loud_rule ∷ []) seen).0 ≡ none
unfolding match_rules match_from match_one evaluate evaluate_home entities_match contains any_in
    suppressed_by suppressed_from text_eq
alerts_not = refl

match_rules-First_example :
    First ascii seen 0 house.rules 1 × (length (match_rules ascii house.rules seen).1 ≡ 2)
match_rules-First_example = match_rules-First ascii seen house.rules 1 cars_second
