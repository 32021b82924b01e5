-- ===== src/Config/Accepts/Values.antt =====
-- internal/config/config.go: the checks of `validate` on single values and on conditions.
use frigate_notifications.Prelude.{
  ℕ, ◌≡◌, ◌↔◌, refl, true, false, not, ◌||◌, Option, none, some, List, [], ◌∷◌, Text, lit,
  text_eq_iff, is_empty, Map, lookup, arith,
}
use frigate_notifications.Prelude.Int.{ℤ, pos, ◌≤ℤ◌}
use frigate_notifications.Window.{Window}
use frigate_notifications.Config.{Camera, RuleConditions}
use frigate_notifications.Config.Problems.{
  Problem, add_if, negative, missing, is_zero, validate_window, is_none,
}
use frigate_notifications.Config.RuleProblems.{
  validate_severity, validate_conditions, validate_unless, negative_option,
}
use frigate_notifications.Config.Quiet.{Quiet, Quiet-both, Quiet-add, Quiet-weaken, Quiet-each}
use frigate_notifications.Config.Valid.{
  NonEmpty, IsComplete, IsKnown, IsSeverity, IsValidConditions, IsValidUnless, NotNegative,
}

pub is_empty-iff-NonEmpty {ℓ} : {A : Type ℓ} (l : List A) → (is_empty l ≡ false) ↔ NonEmpty l
is_empty-iff-NonEmpty [] = (λ h. absurd cc, λ h. absurd (h refl))
is_empty-iff-NonEmpty (x ∷ l) = (λ h e. cc, λ h. refl)

pub Quiet-NonEmpty {ℓ} :
    {A : Type ℓ} (l : List A) (p : Problem) → Quiet (add_if (is_empty l) p) (NonEmpty l)
Quiet-NonEmpty l p =
    let f = Quiet-add (is_empty l) p in
    let g = is_empty-iff-NonEmpty l in (λ h. g.0 (f.0 h), λ h. f.1 (g.1 h))

pub Quiet-IsKnown :
    {V : Type 0} (m : Map V) (k : Text) (p : Problem) → Quiet (add_if (missing m k) p) (IsKnown m k)
Quiet-IsKnown m k p = Quiet-weaken (Quiet-add (missing m k) p) (found (lookup k m))
  where
    found :
        {V : Type 0} (o : Option V)
        → ((elim o [ none ↦ true | some v ↦ false ]) ≡ false) ↔ ((v : V) × (o ≡ some v))
    found none = (λ h. absurd cc, λ h. absurd cc)
    found (some v) = (λ h. (v, refl), λ h. refl)

not_negative_iff : (n : ℤ) → (negative n ≡ false) ↔ (pos 0 ≤ℤ n)
not_negative_iff n = (λ h. ground arith, λ h. ground arith)

pub Quiet-not_negative : (n : ℤ) (p : Problem) → Quiet (add_if (negative n) p) (pos 0 ≤ℤ n)
Quiet-not_negative n p = Quiet-weaken (Quiet-add (negative n) p) (not_negative_iff n)

pub Quiet-NotNegative :
    (o : Option ℤ) (p : Problem) → Quiet (add_if (negative_option o) p) (NotNegative o)
Quiet-NotNegative none p = (λ h. tt, λ h. refl)
Quiet-NotNegative (some d) p = Quiet-not_negative d p

pub Quiet-some :
    {A : Type 0} (o : Option A) (p : Problem)
    → Quiet (add_if (is_none o) p) ((a : A) × (o ≡ some a))
Quiet-some none p = (λ h. absurd cc, λ h. absurd cc)
Quiet-some (some a) p = (λ h. (a, refl), λ h. refl)

both_empty_iff :
    {A : Type 0} (k l : List A) → ((is_empty k || is_empty l) ≡ false) ↔ (NonEmpty k × NonEmpty l)
both_empty_iff k l = ground (arith, is_empty-iff-NonEmpty k, is_empty-iff-NonEmpty l)

pub validate_window_iff :
    (where_ : Text) (w : Option Window) → Quiet (validate_window where_ w) (IsComplete w)
unfolding validate_window
validate_window_iff where_ none = (λ h. tt, λ h. refl)
validate_window_iff where_ (some w) =
    Quiet-weaken (Quiet-add _ _) (both_empty_iff w.from.raw w.to.raw)

validate_severity_iff : (where_ s : Text) → Quiet (validate_severity where_ s) (IsSeverity s)
unfolding validate_severity
validate_severity_iff where_ s =
    Quiet-weaken (Quiet-add _ _)
      (ground (arith, text_eq_iff s (lit "alert"), text_eq_iff s (lit "detection")))

pub validate_conditions_iff :
    (cameras : Map Camera) (where_ : Text) (c : RuleConditions)
    → Quiet (validate_conditions cameras where_ c) (IsValidConditions cameras c)
unfolding validate_conditions
validate_conditions_iff cameras where_ c =
    Quiet-weaken
      (Quiet-both (Quiet-each _ (IsKnown cameras) c.cameras (λ cam. Quiet-IsKnown cameras cam _)) (
        Quiet-both (Quiet-each _ IsSeverity c.severity (validate_severity_iff where_))
          (Quiet-both (validate_window_iff _ c.hours) (Quiet-not_negative c.min_dwell _))))
      (
        λ (a, (b, (d, e))). record {
          known_cameras = a;
          severities = b;
          complete_hours = d;
          dwell = e;
        },
        λ v. (v.known_cameras, (v.severities, (v.complete_hours, v.dwell))),
      )

nonempty_not_iff {ℓ} : {A : Type ℓ} (l : List A) → (not (is_empty l) ≡ false) ↔ (l ≡ [])
nonempty_not_iff [] = (λ h. refl, λ h. refl)
nonempty_not_iff (x ∷ l) = (λ h. absurd cc, λ h. absurd cc)

pub validate_unless_iff :
    (cameras : Map Camera) (where_ : Text) (j : ℕ) (c : RuleConditions)
    → Quiet (validate_unless cameras where_ j c) (IsValidUnless cameras c)
unfolding validate_unless
validate_unless_iff cameras where_ j c =
    Quiet-weaken
      (Quiet-both (Quiet-add (is_zero c) _) (
        Quiet-both (Quiet-weaken (Quiet-add _ _) (nonempty_not_iff c.exclude_sub_labels))
          (validate_conditions_iff cameras _ c)))
      (
        λ (a, (b, d)). record { some_condition = a; excludes_none = b; conditions = d },
        λ v. (v.some_condition, (v.excludes_none, v.conditions)),
      )
