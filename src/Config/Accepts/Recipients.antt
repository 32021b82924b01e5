-- ===== src/Config/Accepts/Recipients.antt =====
-- internal/config/config.go: the checks of `validate` on recipients, their targets and URLs.
use frigate_notifications.Prelude.{
  ◌≡◌, ◌⊎◌, ◌↔◌, inl, inr, refl, sym, Bool, true, false, not, ◌||◌, Option, none, some, List, [],
  ◌∷◌, Text, lit, text_eq, text_eq_iff, is_empty, Result, ok, err, arith, if◌then◌else◌,
}
use mathlib.Core.Path.{subst}
use frigate_notifications.Unicode.{Unicode}
use frigate_notifications.Database.{Kind, kind_of}
use frigate_notifications.Config.{TargetType, hass, slack, ntfy, discord}
use frigate_notifications.Config.File.{FileTarget, FileRecipient, FileConfig}
use frigate_notifications.Config.Problems.{Problem, add_if, target_type}
use frigate_notifications.Config.Validate.{
  Url, absolute, is_http, check_ui_url, validate_webhook, check_target, validate_target,
  validate_recipient, validate_ui_url, validate_db_url,
}
use frigate_notifications.Config.Quiet.{Quiet, Quiet-both, Quiet-add, Quiet-weaken, Quiet-each_from}
use frigate_notifications.Config.Valid.{
  NonEmpty, IsReachable, IsValidTarget, IsValidRecipient, IsBase,
}
use frigate_notifications.Config.Accepts.Values.{
  Quiet-NonEmpty, Quiet-not_negative, is_empty-iff-NonEmpty, validate_window_iff,
}

result_iff :
    {A : Type 0} (r : Result A) (p : Problem)
    → Quiet (elim r [ err ↦ p ∷ [] | ok a ↦ [] ]) ((a : A) × (r ≡ ok a))
result_iff err p = (λ h. absurd cc, λ h. absurd cc)
result_iff (ok a) p = (λ h. (a, refl), λ h. refl)

pub validate_db_url_iff :
    (u : Unicode) (url : Text)
    → Quiet (validate_db_url u url) ((url ≡ []) ⊎ ((k : Kind) × (kind_of u url ≡ ok k)))
unfolding validate_db_url
validate_db_url_iff u [] = (λ h. inl refl, λ h. refl)
validate_db_url_iff u (c ∷ s) =
    Quiet-weaken (result_iff (kind_of u (c ∷ s)) _)
      (λ h. inr h, λ h. elim h [ inl e ↦ absurd cc | inr k ↦ k ])

lacks_scheme_iff :
    (schemes : Text → Bool) (u : Url)
    → (not (absolute schemes u) ≡ false) ↔ ((schemes u.scheme ≡ true) × NonEmpty u.host)
lacks_scheme_iff schemes u = ground (arith, is_empty-iff-NonEmpty u.host)

hook_iff :
    (r : Result Url) (p : Problem)
    → Quiet
        (elim r [ err ↦ p ∷ [] | ok u ↦ add_if (not (absolute (text_eq (lit "https")) u)) p ])
        ((u : Url) × (r ≡ ok u) × (u.scheme ≡ lit "https") × NonEmpty u.host)
hook_iff err p = (λ h. absurd cc, λ h. absurd cc)
hook_iff (ok u) p =
    let same = text_eq_iff (lit "https") u.scheme in
    Quiet-weaken (Quiet-weaken (Quiet-add _ _) (lacks_scheme_iff (text_eq (lit "https")) u)) (
      λ (s, n). (u, refl, sym (same.0 s), n),
      λ (v, e, s, n). (same.1 (cc (e, s)), λ z. n (cc (e, z))),
    )

only : {A : Type 0} (P : A → Type 0) (a : A) → ((k : A) × (some a ≡ some k) × P k) → P a
only P a (k, e, p) = let same : k ≡ a = cc e in subst P same p

module _ (parse : Text → Result Url) where
  target_iff :
      (c : FileConfig) (where_ : Text) (t : FileTarget) (o : Option TargetType)
      → Quiet
          (check_target parse c where_ t o)
          ((k : TargetType) × (o ≡ some k) × IsReachable parse c t k)
  unfolding check_target validate_webhook
  target_iff c where_ t none = (λ h. absurd cc, λ h. absurd cc)
  target_iff c where_ t (some hass) =
      Quiet-weaken (Quiet-both (Quiet-NonEmpty t.service _) (Quiet-add _ _))
        (λ h. (hass, refl, h), only (IsReachable parse c t) hass)
  target_iff c where_ t (some slack) =
      Quiet-weaken (Quiet-both (Quiet-NonEmpty t.channel _) (Quiet-NonEmpty c.slack.bot_token _))
        (λ h. (slack, refl, h), only (IsReachable parse c t) slack)
  target_iff c where_ t (some ntfy) =
      Quiet-weaken (Quiet-both (Quiet-NonEmpty t.topic _) (Quiet-NonEmpty c.ntfy.url _))
        (λ h. (ntfy, refl, h), only (IsReachable parse c t) ntfy)
  target_iff c where_ t (some discord) =
      Quiet-weaken (hook_iff (parse t.webhook_url) _)
        (λ h. (discord, refl, h), only (IsReachable parse c t) discord)

  pub validate_recipient_iff :
      (c : FileConfig) (e : Text × FileRecipient)
      → Quiet (validate_recipient parse c e) (IsValidRecipient parse c e.1)
  unfolding validate_recipient validate_target
  validate_recipient_iff c (name, r) =
      Quiet-weaken
        (Quiet-both (Quiet-NonEmpty r.targets _) (
          Quiet-both
            (Quiet-each_from _ (IsValidTarget parse c) 0 r.targets
              (λ i t. target_iff c _ t (target_type t.type)))
            (Quiet-both (Quiet-not_negative r.max_per_hour _)
              (validate_window_iff _ r.active_hours))))
        (
          λ (a, (b, (d, w))). record { has_targets = a; targets = b; cap = d; complete_hours = w },
          λ v. (v.has_targets, (v.targets, (v.cap, v.complete_hours))),
        )

abbrev IsBaseOf : Result Url → Type 0
IsBaseOf r =
    (u : Url) × (r ≡ ok u)
    × ((u.scheme ≡ lit "http") ⊎ (u.scheme ≡ lit "https"))
    × NonEmpty u.host
    × (u.raw_query ≡ [])
    × (u.fragment ≡ [])

neither_iff :
    {A : Type 0} (k l : List A)
    → ((not (is_empty k) || not (is_empty l)) ≡ false) ↔ ((k ≡ []) × (l ≡ []))
neither_iff [] [] = (λ h. (refl, refl), λ h. refl)
neither_iff [] (x ∷ l) = (λ h. absurd cc, λ h. absurd cc)
neither_iff (x ∷ k) l = (λ h. absurd cc, λ h. absurd cc)

is_http_iff : (s : Text) → (is_http s ≡ true) ↔ ((s ≡ lit "http") ⊎ (s ≡ lit "https"))
is_http_iff s = ground (arith, text_eq_iff s (lit "http"), text_eq_iff s (lit "https"))

first_check_iff :
    (b : Bool) (p : Problem) (ps : List Problem) (Q : Type 0)
    → Quiet ps Q
    → Quiet (if b then p ∷ [] else ps) ((b ≡ false) × Q)
first_check_iff true p ps Q f = (λ h. absurd cc, λ h. absurd cc)
first_check_iff false p ps Q f = (λ h. (refl, f.0 h), λ h. f.1 h.1)

check_ui_url_iff : (r : Result Url) → Quiet (check_ui_url r) (IsBaseOf r)
unfolding check_ui_url
check_ui_url_iff err = (λ h. absurd cc, λ h. absurd cc)
check_ui_url_iff (ok u) =
    let http = is_http_iff u.scheme in
    let place = lacks_scheme_iff is_http u in
    let plain = neither_iff u.raw_query u.fragment in
    Quiet-weaken (first_check_iff _ _ _ _ (Quiet-weaken (Quiet-add _ _) plain)) (
      λ (a, (q, f)). let (s, n) = place.0 a in (u, refl, http.0 s, n, q, f),
      λ (v, e, s, n, q, f).
          (place.1 (http.1 (same_scheme u v (cc e) s), λ z. n (cc (e, z))), (cc (e, q), cc (e, f))),
    )
  where
    same_scheme :
        (u v : Url)
        → u ≡ v
        → (v.scheme ≡ lit "http") ⊎ (v.scheme ≡ lit "https")
        → (u.scheme ≡ lit "http") ⊎ (u.scheme ≡ lit "https")
    same_scheme u v e s = ground (arith, e, s)

pub validate_ui_url_iff :
    (parse : Text → Result Url) (url : Text)
    → Quiet (validate_ui_url parse url) ((url ≡ []) ⊎ IsBase parse url)
unfolding validate_ui_url
validate_ui_url_iff parse [] = (λ h. inl refl, λ h. refl)
validate_ui_url_iff parse (c ∷ s) = Quiet-weaken (check_ui_url_iff (parse (c ∷ s))) (
  λ (u, e, sch, n, q, f).
      inr (record { parsed = u; whole = e; scheme = sch; host = n; query = q; fragment = f }),
  λ h. elim h [
    | inl e ↦ absurd cc
    | inr b ↦ (b.parsed, b.whole, b.scheme, b.host, b.query, b.fragment)
  ],
)
