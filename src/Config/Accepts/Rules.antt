-- ===== src/Config/Accepts/Rules.antt =====
-- internal/config/config.go: the checks of `validate` on rules.
use frigate_notifications.Prelude.{
  ◌≡◌, ◌≢◌, ◌↔◌, inl, inr, refl, false, Option, none, some, List, [], ◌∷◌, All, Text, lit, text_eq,
  text_eq_iff, is_empty, any, Map, lookup, Bool-cases, arith,
}
use frigate_notifications.Config.{Camera}
use frigate_notifications.Config.File.{FileRecipient, FileRule}
use frigate_notifications.Config.Problems.{preset, cooldown_scope}
use frigate_notifications.Config.RuleProblems.{
  validate_to, validate_live, validate_rule, live_cameras,
}
use frigate_notifications.Config.Quiet.{
  Quiet, Quiet-both, Quiet-add, Quiet-weaken, Quiet-each, Quiet-each_from,
}
use frigate_notifications.Config.Valid.{
  NonEmpty, IsKnown, IsDistinct, HasLiveView, IsValidUnless, IsValidRule,
}
use frigate_notifications.Config.Accepts.Values.{
  Quiet-NonEmpty, Quiet-IsKnown, Quiet-not_negative, Quiet-NotNegative, Quiet-some,
  validate_conditions_iff, validate_unless_iff, is_empty-iff-NonEmpty,
}

-- None of these names has been seen.
abbrev pub Unseen : List Text → List Text → Type 0
Unseen seen ts = All (λ t. any (text_eq t) seen ≡ false) ts

-- The names after `t` are new when `t` has been seen too: they are new, and not `t`.
pub Unseen-more :
    (t : Text) (seen ts : List Text) → Unseen (t ∷ seen) ts ↔ (All (λ s. t ≢ s) ts × Unseen seen ts)
Unseen-more t seen [] = (λ h. (tt, tt), λ h. tt)
Unseen-more t seen (s ∷ ts) =
    let rest = Unseen-more t seen ts in
    let same = text_eq_iff s t in
    (
      λ h. let (a, b) = rest.0 h.1 in (((λ e. ground (arith, same, e)), a), (ground arith, b)),
      λ h. (ground (arith, same), rest.1 (h.0.1, h.1.1)),
    )

pub Unseen-none : (ts : List Text) → Unseen [] ts
Unseen-none [] = tt
Unseen-none (t ∷ ts) = (refl, Unseen-none ts)

validate_to_iff :
    (recipients : Map FileRecipient) (where_ : Text) (seen ts : List Text)
    → Quiet
        (validate_to recipients where_ seen ts)
        (All (IsKnown recipients) ts × (IsDistinct ts × Unseen seen ts))
unfolding validate_to
validate_to_iff recipients where_ seen [] = (λ h. (tt, (tt, tt)), λ h. refl)
validate_to_iff recipients where_ seen (t ∷ ts) =
    let more = Unseen-more t seen ts in
    Quiet-weaken
      (Quiet-both (Quiet-IsKnown recipients t _) (
        Quiet-both (Quiet-add (any (text_eq t) seen) _)
          (validate_to_iff recipients where_ (t ∷ seen) ts)))
      (
        λ (k, (new, (ks, (d, us)))). ((k, ks), ((((more.0 us).0), d), (new, (more.0 us).1))),
        λ ((k, ks), ((other, d), (new, us))). (k, (new, (ks, (d, more.1 (other, us))))),
      )

live_view_iff :
    (o : Option Camera)
    → (is_empty (elim o [ none ↦ [] | some c ↦ c.live_view_entity ]) ≡ false)
      ↔ ((c : Camera) × (o ≡ some c) × NonEmpty c.live_view_entity)
live_view_iff none = (λ h. absurd cc, λ h. absurd cc)
live_view_iff (some c) = (
  λ h. (c, refl, (is_empty-iff-NonEmpty c.live_view_entity).0 h),
  λ (d, e, n). (is_empty-iff-NonEmpty c.live_view_entity).1 (λ z. n (cc (e, z))),
)

validate_live_iff :
    (cameras : Map Camera) (where_ : Text) (r : FileRule)
    → Quiet (validate_live cameras where_ r) (
        r.preset ≡ lit "liveview" → All (HasLiveView cameras) (live_cameras cameras r.when.cameras))
unfolding validate_live
validate_live_iff cameras where_ r =
    let same = text_eq_iff r.preset (lit "liveview") in
    let each_cam =
      Quiet-each _ (HasLiveView cameras) (live_cameras cameras r.when.cameras)
        (λ cam. Quiet-weaken (Quiet-add _ _) (live_view_iff (lookup cam cameras))) in
    elim (Bool-cases (text_eq r.preset (lit "liveview"))) [
      | inl b ↦ rw b (λ h e. each_cam.0 h, λ h. each_cam.1 (h (same.0 b)))
      | inr b ↦ rw b (λ h e. ground (arith, same), λ h. refl)
    ]

pub validate_rule_iff :
    (recipients : Map FileRecipient) (cameras : Map Camera) (where_ : Text) (r : FileRule)
    → Quiet (validate_rule recipients cameras where_ r) (IsValidRule recipients cameras r)
unfolding validate_rule
validate_rule_iff recipients cameras where_ r =
    Quiet-weaken
      (Quiet-both (Quiet-NonEmpty r.to _) (
        Quiet-both (validate_to_iff recipients where_ [] r.to) (
          Quiet-both (Quiet-not_negative r.cooldown _) (
            Quiet-both (Quiet-NotNegative r.holdoff _) (
              Quiet-both (Quiet-some (preset r.preset) _) (
                Quiet-both (Quiet-some (cooldown_scope r.cooldown_scope) _) (
                  Quiet-both (validate_conditions_iff cameras _ r.when) (
                    Quiet-both
                      (Quiet-each_from _ (IsValidUnless cameras) 0 r.unless
                        (validate_unless_iff cameras where_))
                      (validate_live_iff cameras where_ r)))))))))
      (
        λ (a, ((k, (d, u)), (b, (h, (p, (s, (w, (x, l)))))))). record {
          has_to = a;
          known_to = k;
          distinct_to = d;
          cooldown = b;
          holdoff = h;
          has_preset = p;
          has_scope = s;
          when = w;
          unless = x;
          live = l;
        },
        λ v. (
          v.has_to,
          (
            (v.known_to, (v.distinct_to, Unseen-none r.to)),
            (v.cooldown, (v.holdoff, (v.has_preset, (v.has_scope, (v.when, (v.unless, v.live)))))),
          ),
        ),
      )
