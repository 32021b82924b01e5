-- ===== src/Rules.antt =====
-- internal/rules/rules.go: which rule, if any, a review matches. The texts of reasons are the
-- constructors of `Reason`, with the values that the source formats.
pub mod People
pub mod Order
pub mod Outage
mod Examples
use frigate_notifications.Prelude.{
  ℕ, suc, Bool, true, false, not, ◌&&◌, Option, none, some, List, [], ◌∷◌, Text, lit, text_eq, Map,
  is_empty, any, leb, ◌==◌, if◌then◌else◌, Result, ok, err,
}
use frigate_notifications.Prelude.Int.{ℤ, pos, ltb_ℤ}
use frigate_notifications.Clock.{Location, Time, at_location}
use frigate_notifications.Unicode.{Unicode, equal_fold}
use frigate_notifications.Window.{SolarTimes, Window, needs_solar, within}
use frigate_notifications.Config.{RuleConditions, Rule}

pub data Phase : Type 0 where
  new update end genai description : Phase

abbrev pub is_new : Phase → Bool
is_new new = true
is_new _ = false

abbrev pub is_end : Phase → Bool
is_end end = true
is_end _ = false

-- The functions are what Home Assistant answers while one review is matched.
pub record MatchContext : Type 0 where
  pub camera : Text
  pub labels : List Text
  pub sub_labels : List Text
  pub zones : List Text
  pub severity : Text
  pub phase : Phase
  pub now : Time
  pub dwell : ℤ
  pub entity_state : Option (Text → Result Text)
  pub solar : Option (Result SolarTimes)

pub data Reason : Type 0 where
  no_reason : Reason
  min_dwell_deferred : Reason
  camera_not_in : Text → Reason
  no_label_in no_zone_in no_sub_label_in : List Text → Reason
  everyone_excluded : Reason
  severity_not_in : Text → List Text → Reason
  dwell_too_short : ℤ → ℤ → Reason
  solar_unavailable : Reason
  outside_hours : Time → Window → Reason
  no_home_assistant : Reason
  entity_unreadable : Text → Reason
  entity_is : Text → Text → Text → Reason

pub record Decision : Type 0 where
  pub index : ℕ
  pub name : Text
  pub matched : Bool
  pub reason : Reason
  -- the index of the `unless` clause that suppressed the rule
  pub suppress : Option ℕ

abbrev pub when_on_error : Bool
when_on_error = true

abbrev pub unless_on_error : Bool
unless_on_error = false

module _ (u : Unicode) where
  unfoldable pub contains : List Text → Text → Bool
  contains haystack needle = any (λ h. equal_fold u h needle) haystack

  -- whether any of `want` appears in `got`
  unfoldable pub any_in : List Text → List Text → Bool
  any_in want got = any (λ w. contains got w) want

  -- The loop over the faces: none as soon as one is not in `names`, else their number.
  unfoldable pub count_known : List Text → List Text → Option ℕ
  count_known names [] = some 0
  count_known names (sl ∷ rest) = elim (contains names sl) [
    | true ↦ elim (count_known names rest) [ none ↦ none | some n ↦ some (suc n) ]
    | false ↦ none
  ]

  unfoldable pub count_people : List Text → ℕ
  count_people [] = 0
  count_people (l ∷ rest) =
      let people = count_people rest in if text_eq l (lit "person") then suc people else people

  unfoldable pub accounts_for_everyone : List Text → List Text → List Text → Bool
  accounts_for_everyone names sub_labels labels = elim (count_known names sub_labels) [
    | none ↦ false
    | some known ↦ if known == 0 then false else leb (count_people labels) known
  ]

  unfoldable pub excludes_everyone : List Text → MatchContext → Bool
  excludes_everyone exclude mc = accounts_for_everyone exclude mc.sub_labels mc.labels

  localize : Time → Option Location → Time
  localize now none = now
  localize now (some loc) = at_location now loc

  compare_window : Window → Time → SolarTimes → Bool × Reason
  compare_window w now st =
      if not (within w now st) then (false, outside_hours now w) else (true, no_reason)

  abbrev no_times : SolarTimes
  no_times = record { sunrise_at = pos 0; sunset_at = pos 0; dawn_at = pos 0; dusk_at = pos 0 }

  window_by_solar : Window → Time → Bool → Option (Result SolarTimes) → Bool × Reason
  window_by_solar w now on_error none = (on_error, solar_unavailable)
  window_by_solar w now on_error (some err) = (on_error, solar_unavailable)
  window_by_solar w now on_error (some (ok st)) = compare_window w now st

  unfoldable pub in_window : Window → MatchContext → Bool → Option Location → Bool × Reason
  unfolding localize compare_window window_by_solar
  in_window w mc on_error loc =
      let now = localize mc.now loc in
      if needs_solar w
      then window_by_solar w now on_error mc.solar
      else compare_window w now no_times

  compare_state : Text → Text → Text → Bool × Reason
  compare_state id got want =
      if not (equal_fold u got want) then (false, entity_is id got want) else (true, no_reason)

  abbrev judge_state : Text → Text → Bool → Result Text → Bool × Reason
  judge_state id want on_error err = (on_error, entity_unreadable id)
  judge_state id want on_error (ok got) = compare_state id got want

  unfoldable pub entity_matches : MatchContext → Text → Text → Bool → Bool × Reason
  unfolding compare_state
  entity_matches mc id want on_error = elim mc.entity_state [
    | none ↦ (on_error, no_home_assistant)
    | some state ↦ judge_state id want on_error (state id)
  ]

  -- The loop over `c.EntityState`, in the order of the range.
  unfoldable pub entities_match : MatchContext → Map Text → Bool → Bool × Reason
  entities_match mc [] on_error = (true, no_reason)
  entities_match mc ((id, want) ∷ rest) on_error =
      let (matches, reason) = entity_matches mc id want on_error in
      let later = entities_match mc rest on_error in if not matches then (false, reason) else later

  abbrev pub hours_hold : Option Window → MatchContext → Bool → Option Location → Bool × Reason
  hours_hold none mc on_error loc = (true, no_reason)
  hours_hold (some w) mc on_error loc = in_window w mc on_error loc

  -- The two conditions that ask Home Assistant come last.
  unfoldable pub evaluate_home :
      RuleConditions → MatchContext → Bool → Option Location → Bool × Reason
  evaluate_home c mc on_error loc =
      let (inside, reason) = hours_hold c.hours mc on_error loc in
      if not inside then (false, reason) else entities_match mc c.entity_state on_error

  unfoldable pub evaluate : RuleConditions → MatchContext → Bool → Option Location → Bool × Reason
  evaluate c mc on_error loc =
      if not (is_empty c.cameras) && not (contains c.cameras mc.camera)
      then (false, camera_not_in mc.camera)
      else if not (is_empty c.labels) && not (any_in c.labels mc.labels)
      then (false, no_label_in c.labels)
      else if not (is_empty c.zones) && not (any_in c.zones mc.zones)
      then (false, no_zone_in c.zones)
      else if not (is_empty c.sub_labels) && not (any_in c.sub_labels mc.sub_labels)
      then (false, no_sub_label_in c.sub_labels)
      else if not (is_empty c.exclude_sub_labels) && excludes_everyone c.exclude_sub_labels mc
      then (false, everyone_excluded)
      else if not (is_empty c.severity) && not (contains c.severity mc.severity)
      then (false, severity_not_in mc.severity c.severity)
      else if ltb_ℤ (pos 0) c.min_dwell && ltb_ℤ mc.dwell c.min_dwell
      then (false, dwell_too_short mc.dwell c.min_dwell)
      else evaluate_home c mc on_error loc

  -- The loop of `suppressedBy`; `i` is the index of the first of the clauses left.
  unfoldable pub suppressed_from :
      ℕ → List RuleConditions → MatchContext → Option Location → Option ℕ
  suppressed_from i [] mc loc = none
  suppressed_from i (c ∷ rest) mc loc =
      let later = suppressed_from (suc i) rest mc loc in
      if (evaluate c mc unless_on_error loc).0 then some i else later

  unfoldable pub suppressed_by : List RuleConditions → MatchContext → Option Location → Option ℕ
  suppressed_by unless mc loc = suppressed_from 0 unless mc loc

  abbrev judge : Decision → Option ℕ → Decision
  judge d (some clause) = record d { suppress = some clause }
  judge d none = record d { matched = true }

  unfoldable pub match_one : ℕ → Rule → MatchContext → Decision
  match_one i rule mc =
      let d : Decision = record {
        index = i;
        name = rule.name;
        matched = false;
        reason = no_reason;
        suppress = none;
      } in
      let (holds, reason) = evaluate rule.when mc when_on_error rule.location in
      if is_new mc.phase && ltb_ℤ (pos 0) rule.when.min_dwell
      then record d { reason = min_dwell_deferred }
      else if not holds
      then record d { reason = reason }
      else judge d (suppressed_by rule.unless mc rule.location)

  -- The loop of `Match`; `i` is the index of the first of the rules left.
  unfoldable pub match_from : ℕ → List Rule → MatchContext → Option ℕ × List Decision
  match_from i [] mc = (none, [])
  match_from i (rule ∷ rest) mc =
      let d = match_one i rule mc in
      let (found, trace) = match_from (suc i) rest mc in
      if d.matched then (some i, d ∷ []) else (found, d ∷ trace)

  -- `none` is the source's -1.
  unfoldable pub match_rules : List Rule → MatchContext → Option ℕ × List Decision
  match_rules rules mc = match_from 0 rules mc
