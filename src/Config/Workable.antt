-- ===== src/Config/Workable.antt =====
-- internal/config/config.go: what the notifier can rely on in a configuration that `Read` returns.
use frigate_notifications.Prelude.{
  ◌≡◌, refl, All-map, Option, some, List, [], ◌∷◌, All, Text, Map, lookup, text_eq, Result, ok,
  Option-cases, Bool-cases, inl, inr, arith,
}
use mathlib.Core.Path.{subst}
use frigate_notifications.Config.{Config, Recipient, Rule, Target, Camera}
use frigate_notifications.Config.File.{FileConfig, FileRecipient, FileRule, FileTarget}
use frigate_notifications.Config.Validate.{Url}
use frigate_notifications.Config.Valid.{
  NonEmpty, IsDistinct, IsKnown, IsValidConditions, IsValidUnless, IsValidRecipient, IsValidRule,
  IsValidTarget,
}
use frigate_notifications.Config.Read.{Loader, read, read-IsReady}
use frigate_notifications.Config.Typed.{
  each_some, target_as, recipient_as, rule_as, config_as, typed_target, typed_recipient, typed_rule,
  typed,
}

-- What holds of the results, one by one.
each_some-All :
    {A B : Type 0} (f : A → Option B) (P : A → Type 0) (Q : B → Type 0) (xs : List A)
    → ((a : A) → P a → (b : B) × (f a ≡ some b) × Q b)
    → All P xs
    → (bs : List B) × (each_some f xs ≡ some bs) × All Q bs
each_some-All f P Q [] h all = ([], refl, tt)
each_some-All f P Q (a ∷ xs) h all =
    let (b, e, q) = h a all.0 in
    let (bs, es, qs) = each_some-All f P Q xs h all.1 in (b ∷ bs, rw (e, es) refl, (q, qs))

-- A rule that reaches someone, all of them known, and whose conditions, those of `unless` clauses too,
-- are valid and name only cameras that are known.
pub record IsWorkableRule {V : Type 0} (recipients : Map V) (cameras : Map Camera) (r : Rule)
    : Type 0 where
  pub has_to : NonEmpty r.to
  pub known_to : All (IsKnown recipients) r.to
  pub distinct_to : IsDistinct r.to
  pub when : IsValidConditions cameras r.when
  pub unless : All (IsValidUnless cameras) r.unless

-- What the notifier relies on.
pub record IsWorkable (c : Config) : Type 0 where
  pub reachable : All (λ e. NonEmpty e.1.targets) c.recipients
  pub rules : All (IsWorkableRule c.recipients c.cameras) c.rules
  pub has_rules : NonEmpty c.rules

each_some-NonEmpty :
    {A B : Type 0} (f : A → Option B) (xs : List A) (bs : List B)
    → each_some f xs ≡ some bs
    → NonEmpty xs
    → NonEmpty bs
each_some-NonEmpty f [] bs e h = absurd (h refl)
each_some-NonEmpty f (x ∷ xs) [] e h = absurd (ground arith)
each_some-NonEmpty f (x ∷ xs) (b ∷ bs) e h = λ z. cc

typed_target-some :
    (parse : Text → Result Url) (c : FileConfig) (t : FileTarget)
    → IsValidTarget parse c t
    → (t' : Target) × (typed_target t ≡ some t') × Unit {0}
unfolding typed_target
typed_target-some parse c t (k, e, h) = (target_as t k, rw e refl, tt)

typed_recipient-some :
    (parse : Text → Result Url) (c : FileConfig) (e : Text × FileRecipient)
    → IsValidRecipient parse c e.1
    → (e' : Text × Recipient) × (typed_recipient e ≡ some e') × NonEmpty e'.1.targets
unfolding typed_recipient
typed_recipient-some parse c (name, r) h =
    let (ts, f, units) =
      each_some-All typed_target (IsValidTarget parse c) (λ t. Unit {0}) r.targets
        (typed_target-some parse c) h.targets in
    (
      (name, recipient_as r ts),
      rw f refl,
      each_some-NonEmpty typed_target r.targets ts f h.has_targets,
    )

typed_rule-some :
    (recipients : Map FileRecipient) (cameras : Map Camera) (r : FileRule)
    → IsValidRule recipients cameras r
    → (r' : Rule) × (typed_rule r ≡ some r') × IsWorkableRule recipients cameras r'
unfolding typed_rule
typed_rule-some recipients cameras r h =
    let (p, e) = h.has_preset in
    let (s, f) = h.has_scope in
    (
      rule_as r p s,
      rw (e, f) refl,
      record {
        has_to = h.has_to;
        known_to = h.known_to;
        distinct_to = h.distinct_to;
        when = h.when;
        unless = h.unless;
      },
    )

-- The names of the recipients stay.
typed_recipient-name :
    (e : Text × FileRecipient) (e' : Text × Recipient) → typed_recipient e ≡ some e' → e'.0 ≡ e.0
unfolding typed_recipient
typed_recipient-name (name, r) e' h = elim (Option-cases (each_some typed_target r.targets)) [
  | inl f ↦ absurd (ground arith)
  | inr (ts, f) ↦ ground arith
]

each_some-IsKnown :
    (m : Map FileRecipient) (m' : Map Recipient) (k : Text)
    → each_some typed_recipient m ≡ some m'
    → IsKnown m k
    → IsKnown m' k
unfolding lookup
each_some-IsKnown [] m' k e (v, h) = absurd cc
each_some-IsKnown ((name, r) ∷ m) m' k e (v, h) = elim (Option-cases (typed_recipient (name, r))) [
  | inl f ↦ absurd (ground arith)
  | inr (e', f) ↦ elim (Option-cases (each_some typed_recipient m)) [
    | inl g ↦ absurd (ground arith)
    | inr (ms, g) ↦
        let same : e' ∷ ms ≡ m' = ground arith in
        let name_stays = typed_recipient-name (name, r) e' f in
        subst (λ x. IsKnown x k) same
          (elim (Bool-cases (text_eq name k)) [
            | inl b ↦ (e'.1, ground arith)
            | inr b ↦ let (w, l) = each_some-IsKnown m ms k g (v, ground arith) in (w, ground arith)
          ])
  ]
]

IsWorkableRule-map :
    {V W : Type 0} (m : Map V) (m' : Map W) (cameras : Map Camera)
    → ((k : Text) → IsKnown m k → IsKnown m' k)
    → (r : Rule) → IsWorkableRule m cameras r
    → IsWorkableRule m' cameras r
IsWorkableRule-map m m' cameras f r h = record {
  has_to = h.has_to;
  known_to = All-map (IsKnown m) (IsKnown m') r.to f h.known_to;
  distinct_to = h.distinct_to;
  when = h.when;
  unless = h.unless;
}

-- What `Read` returns can be read into the types of the notifier's model, and there every rule reaches
-- someone, names only recipients that the configuration has, none of them twice, and only cameras that
-- it has, in `when` and in every `unless` clause.
pub read-IsWorkable :
    (l : Loader) (path : Text) (c : FileConfig)
    → read l path ≡ ok c
    → (t : Config) × (typed c ≡ some t) × IsWorkable t
unfolding typed
read-IsWorkable l path c e =
    let (valid, ready) = read-IsReady l path c e in
    let (recipients, f, reach) =
      each_some-All typed_recipient (λ r. IsValidRecipient l.parse_url c r.1)
        (λ r. NonEmpty r.1.targets) c.recipients (typed_recipient-some l.parse_url c)
        valid.recipients in
    let (rules, g, work) =
      each_some-All typed_rule (IsValidRule c.recipients c.cameras)
        (IsWorkableRule c.recipients c.cameras) c.rules (typed_rule-some c.recipients c.cameras)
        valid.rules in
    (
      config_as c ready.zone recipients rules,
      rw (ready.located, f, g) refl,
      record {
        reachable = reach;
        rules =
            All-map (IsWorkableRule c.recipients c.cameras) (IsWorkableRule recipients c.cameras)
              rules
              (IsWorkableRule-map c.recipients recipients c.cameras
                (λ k. each_some-IsKnown c.recipients recipients k f))
              work;
        has_rules = each_some-NonEmpty typed_rule c.rules rules g valid.has_rules;
      },
    )
