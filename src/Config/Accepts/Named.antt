-- ===== src/Config/Accepts/Named.antt =====
-- internal/config/config.go: the loop of `validate` over the rules, which tells their names apart.
use frigate_notifications.Prelude.{
  ℕ, suc, ◌≡◌, refl, sym, false, List, [], ◌∷◌, map, All, Text, text_eq, is_empty, any, Map,
  if◌then◌else◌,
}
use mathlib.Core.Path.{subst}
use frigate_notifications.Config.{Camera}
use frigate_notifications.Config.File.{FileRecipient, FileRule}
use frigate_notifications.Config.Problems.{add_if, unnamed, duplicate_name}
use frigate_notifications.Config.RuleProblems.{validate_rules}
use frigate_notifications.Config.Quiet.{Quiet, Quiet-both, Quiet-add, Quiet-weaken}
use frigate_notifications.Config.Valid.{NonEmpty, IsDistinct, IsValidRule}
use frigate_notifications.Config.Accepts.Rules.{Unseen, Unseen-more, validate_rule_iff}

name_iff :
    (name where_ : Text) (seen : List Text)
    → Quiet
        (if is_empty name
          then unnamed where_ ∷ []
          else add_if (any (text_eq name) seen) (duplicate_name where_))
        (NonEmpty name × (any (text_eq name) seen ≡ false))
name_iff [] where_ seen = (λ h. absurd cc, λ h. absurd (h.0 refl))
name_iff (c ∷ name) where_ seen = Quiet-weaken (Quiet-add _ _) (λ h. ((λ e. cc), h), λ h. h.1)

-- Once a rule is named, its name is one of those that are seen.
seen_name :
    (name : Text) (seen : List Text)
    → NonEmpty name
    → (if is_empty name then seen else name ∷ seen) ≡ name ∷ seen
seen_name [] seen h = absurd (h refl)
seen_name (c ∷ name) seen h = refl

module _ (recipients : Map FileRecipient) (cameras : Map Camera) where
  abbrev pub AreValid : List Text → List FileRule → Type 0
  AreValid seen rules =
      All (λ r. NonEmpty r.name) rules
      × (IsDistinct (map (λ r. r.name) rules)
          × (Unseen seen (map (λ r. r.name) rules) × All (IsValidRule recipients cameras) rules))

  pub validate_rules_iff :
      (i : ℕ) (seen : List Text) (rules : List FileRule)
      → Quiet (validate_rules recipients cameras i seen rules) (AreValid seen rules)
  unfolding validate_rules
  validate_rules_iff i seen [] = (λ h. (tt, (tt, (tt, tt))), λ h. refl)
  validate_rules_iff i seen (r ∷ rules) =
      let names = map (λ r. r.name) rules in
      let more = Unseen-more r.name seen names in
      Quiet-weaken
        (Quiet-both (name_iff r.name _ seen) (
          Quiet-both (validate_rule_iff recipients cameras _ r)
            (validate_rules_iff (suc i) (if is_empty r.name then seen else r.name ∷ seen) rules)))
        (
          λ ((n, new), (v, (ns, (d, (us, vs))))).
              let apart = more.0 (subst (λ x. Unseen x names) (seen_name r.name seen n) us) in
              ((n, ns), ((apart.0, d), ((new, apart.1), (v, vs)))),
          λ ((n, ns), ((other, d), ((new, us), (v, vs)))). (
            (n, new),
            (
              v,
              (
                ns,
                (
                  d,
                  (
                    subst (λ x. Unseen x names) (sym (seen_name r.name seen n))
                        (more.1 (other, us)),
                    vs,
                  ),
                ),
              ),
            ),
          ),
        )
