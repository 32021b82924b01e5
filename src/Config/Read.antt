-- ===== src/Config/Read.antt =====
-- internal/config/config.go: `Read`, and what is so of a configuration that it returns.
use frigate_notifications.Prelude.{
  zero, suc, ◌≡◌, ◌≢◌, refl, sym, ap, ◌∙◌, inl, inr, some, List, [], ◌∷◌, All, Text, lit, Map,
  Result, ok, err, Result-cases, arith,
}
use frigate_notifications.Prelude.Int.{ℤ, pos, negsuc}
use mathlib.Core.Path.{subst}
use frigate_notifications.Clock.{Location}
use frigate_notifications.Unicode.{Unicode}
use frigate_notifications.Config.File.{
  FileConfig, FileRule, env_for, apply_defaults, rules_defaults, rule_defaults, zero_to,
  default_link_ttl, or_text, rule_location,
}
use frigate_notifications.Config.Problems.{Problem}
use frigate_notifications.Config.Validate.{Url, validate}
use frigate_notifications.Config.Valid.{IsValid}
use frigate_notifications.Config.Accepted.{validate-iff-IsValid}

-- What loading asks of the system and of other packages: os.ReadFile, os.Getenv, the strict YAML
-- decoder, caarlos0/env, time.LoadLocation, url.Parse and the Unicode tables.
pub record Loader : Type 0 where
  pub read_file : Text → Result Text
  pub getenv : Text → Text
  pub yaml : Text → Result FileConfig
  pub parse_env : Map Text → FileConfig → Result FileConfig
  pub load_location : Text → Result Location
  pub parse_url : Text → Result Url
  pub unicode : Unicode

infixl 5 ◌>>=◌
unfoldable pub ◌>>=◌ : {A B : Type 0} → Result A → (A → Result B) → Result B
◌>>=◌ err f = err
◌>>=◌ (ok a) f = f a

abbrev or_fail : FileConfig → List Problem → Result FileConfig
or_fail c [] = ok c
or_fail c (p ∷ ps) = err

unfoldable pub read : Loader → Text → Result FileConfig
read l path = do
  data_ ← l.read_file (or_text (lit "config.yaml") path)
  written ← l.yaml data_
  c ← l.parse_env (env_for l.getenv written) written
  complete ← apply_defaults l.load_location c
  or_fail complete (validate l.parse_url l.unicode complete)

-- A rule with a zone: its own where it names one, or else that of the configuration.
pub record IsLocated (load : Text → Result Location) (loc : Location) (r : FileRule) : Type 0 where
  pub shared : r.timezone ≡ [] → r.location ≡ some loc
  pub own : r.timezone ≢ [] → (l : Location) × (load r.timezone ≡ ok l) × (r.location ≡ some l)

-- Defaults are in place.
pub record IsReady (load : Text → Result Location) (c : FileConfig) : Type 0 where
  pub zone : Location
  pub loaded : load c.timezone ≡ ok zone
  pub located : c.location ≡ some zone
  pub rules : All (IsLocated load zone) c.rules
  pub links_last : c.media.link_ttl ≢ pos 0

module _ (load : Text → Result Location) where
  rule_location-cases :
      (loc l : Location) (t : Text)
      → rule_location load loc t ≡ ok l
      → (t ≡ [] → l ≡ loc) × (t ≢ [] → load t ≡ ok l)
  rule_location-cases loc l [] e = (λ h. cc e, λ h. absurd (h refl))
  rule_location-cases loc l (c ∷ t) e = (λ h. absurd cc, λ h. e)

  rule_defaults-IsLocated :
      (loc : Location) (r r' : FileRule) → rule_defaults load loc r ≡ ok r' → IsLocated load loc r'
  unfolding rule_defaults
  rule_defaults-IsLocated loc r r' e = elim (Result-cases (rule_location load loc r.timezone)) [
    | inl f ↦ absurd (ground arith)
    | inr (l, f) ↦
        let h = rule_location-cases loc l r.timezone f in
        let zone : r'.timezone ≡ r.timezone = ground arith in
        let place : r'.location ≡ some l = ground arith in
        record {
          shared = λ n. place ∙ ap some (h.0 (sym zone ∙ n));
          own = λ n. (l, ap load zone ∙ h.1 (λ z. n (zone ∙ z)), place);
        }
  ]

  rules_defaults-All :
      (loc : Location) (rules rules' : List FileRule)
      → rules_defaults load loc rules ≡ ok rules'
      → All (IsLocated load loc) rules'
  unfolding rules_defaults
  rules_defaults-All loc [] [] e = tt
  rules_defaults-All loc [] (r' ∷ rules') e = absurd cc
  rules_defaults-All loc (r ∷ rules) rules' e = elim (Result-cases (rule_defaults load loc r)) [
    | inl f ↦ absurd (ground arith)
    | inr (q, f) ↦ elim (Result-cases (rules_defaults load loc rules)) [
      | inl g ↦ absurd (ground arith)
      | inr (qs, g) ↦
          let same : q ∷ qs ≡ rules' = ground arith in
          subst (All (IsLocated load loc)) same
            (rule_defaults-IsLocated loc r q f, rules_defaults-All loc rules qs g)
    ]
  ]

  zero_to-nonzero : (n : ℤ) → zero_to default_link_ttl n ≢ pos 0
  zero_to-nonzero (pos zero) e = ground arith
  zero_to-nonzero (pos (suc n)) e = ground arith
  zero_to-nonzero (negsuc n) e = ground arith

  pub apply_defaults-IsReady : (c c' : FileConfig) → apply_defaults load c ≡ ok c' → IsReady load c'
  unfolding apply_defaults
  apply_defaults-IsReady c c' e = elim (Result-cases (load c.timezone)) [
    | inl f ↦ absurd (ground arith)
    | inr (loc, f) ↦ elim (Result-cases (rules_defaults load loc c.rules)) [
      | inl g ↦ absurd (ground arith)
      | inr (rules, g) ↦
          let zone : c'.timezone ≡ c.timezone = ground arith in
          let all : rules ≡ c'.rules = ground arith in
          let ttl : c'.media.link_ttl ≡ zero_to default_link_ttl c.media.link_ttl = ground arith in
          record {
            zone = loc;
            loaded = ap load zone ∙ f;
            located = ground arith;
            rules = subst (All (IsLocated load loc)) all (rules_defaults-All loc c.rules rules g);
            links_last = λ z. zero_to-nonzero c.media.link_ttl (sym ttl ∙ z);
          }
    ]
  ]

bind-ok :
    {A B : Type 0} (r : Result A) (f : A → Result B) (b : B)
    → (r >>= f) ≡ ok b
    → (a : A) × (r ≡ ok a) × (f a ≡ ok b)
unfolding ◌>>=◌
bind-ok err f b e = absurd cc
bind-ok (ok a) f b e = (a, refl, e)

or_fail-ok : (c c' : FileConfig) (ps : List Problem) → or_fail c ps ≡ ok c' → (ps ≡ []) × (c ≡ c')
or_fail-ok c c' [] e = (refl, cc e)
or_fail-ok c c' (p ∷ ps) e = absurd cc

-- A configuration that `Read` returns is valid, and complete: it and every rule have a zone, a rule's
-- being the one that it names, and links last for some time.
pub read-IsReady :
    (l : Loader) (path : Text) (c : FileConfig)
    → read l path ≡ ok c
    → IsValid l.parse_url l.unicode c × IsReady l.load_location c
unfolding read
read-IsReady l path c e =
    let (data_, _, e1) = bind-ok _ _ c e in
    let (written, _, e2) = bind-ok _ _ c e1 in
    let (given, _, e3) = bind-ok _ _ c e2 in
    let (complete, ready, e4) = bind-ok _ _ c e3 in
    let (quiet, same) = or_fail-ok complete c _ e4 in
    let valid = (validate-iff-IsValid l.parse_url l.unicode complete).0 quiet in
    (
      subst (IsValid l.parse_url l.unicode) same valid,
      subst (IsReady l.load_location) same
          (apply_defaults-IsReady l.load_location given complete ready),
    )
