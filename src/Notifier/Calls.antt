-- ===== src/Notifier/Calls.antt =====
-- internal/notifier/notifier.go: every call of a backend that a handler can make.
use frigate_notifications.Prelude.{
  ℕ, ◌≡◌, refl, sym, Bool, true, false, not, ◌&&◌, ◌||◌, Option, none, some, Text, get_elem?, ltb,
  Bool-cases, Option-cases, inl, inr, arith,
}
use mathlib.Core.Path.{subst}
use frigate_notifications.Prelude.Int.{pos, ltb_ℤ}
use frigate_notifications.Config.{Config, Rule, Target, effective_holdoff}
use frigate_notifications.Rules.{Phase, end, genai, is_end, is_new, match_rules}
use frigate_notifications.Frigate.{ReviewPayload}
use frigate_notifications.Message.{Message}
use frigate_notifications.Store.{Store, ReviewState, load_review}
use frigate_notifications.Environment.{Env, Moment, Effect, pushed, unmatched}
use frigate_notifications.State.{State}
use frigate_notifications.State.Extends.{Extends, Extends-refl, Extends-weaken}
use frigate_notifications.State.Adds.{Adds, Adds-none, Adds-trans, Adds-emit, Adds-Extends}
use frigate_notifications.State.Sends.{OfPush}
use frigate_notifications.Delivery.Edits.{Edits, refresh-Extends, send_update-Extends}
use frigate_notifications.Delivery.First.{Starts}
use frigate_notifications.Delivery.{tag_of, is_escalation}
use frigate_notifications.Delivery.Begin.{send_new-Extends}
use frigate_notifications.Notifier.{
  act, act_on_state, decide_rule, decide_match, decide, note_latest, defer_decision, match_context,
  noted, handle_gen_ai,
}

-- A rule may start a notification of a review that was not notified about, or take it over from a
-- quieter rule that comes after it.
abbrev pub MayBegin : ℕ → Rule → Option ReviewState → Type 0
MayBegin idx rule none = Unit
MayBegin idx rule (some prior) =
    (ltb idx prior.rule_index && (rule.critical && not prior.critical)) ≡ true

-- A call of a backend that a handler makes: of a first send or an escalation by a rule of the
-- configuration, or an edit of what was sent before. `L at review prior` says that at that moment a
-- handler looked for what was sent for that review, and found `prior`.
pub data Called {P : Type 0} (env : Env P) (cfg : Config)
    (L : Moment → ReviewPayload → Option ReviewState → Type 0) (t : Target) (m : Message)
    (prev : Text) : Type 0 where
  begins :
      (at : Moment) (review : ReviewPayload) (prior : Option ReviewState) (idx : ℕ) (rule : Rule)
      → L at review prior
      → MayBegin idx rule prior
      → get_elem? cfg.rules idx ≡ some rule
      → Starts cfg rule (tag_of env cfg at review prior) (is_escalation env cfg at prior) t m prev
      → Called env cfg L t m prev
  edits :
      (at : Moment) (review : ReviewPayload) (prior : ReviewState)
      → L at review (some prior)
      → Edits cfg prior t m prev
      → Called env cfg L t m prev

pub OfPush-map :
    (R S : Target → Message → Text → Type 0)
    → ((t : Target) (m : Message) (prev : Text) → R t m prev → S t m prev)
    → (e : Effect) → OfPush R e
    → OfPush S e
OfPush-map R S f (pushed t m prev) h = f t m prev h
OfPush-map R S f _ h = tt

module _ {P : Type 0} (env : Env P) (cfg : Config) (at : Moment) where
  -- Where a review was notified about and no louder rule takes over a quiet one, acting on a match
  -- only edits earlier deliveries of that notification: nothing is pushed anew.
  pub act-Edits :
      (review : ReviewPayload) (phase : Phase) (idx : ℕ) (rule : Rule) (prior : ReviewState)
      (s : State P)
      → (ltb idx prior.rule_index && (rule.critical && not prior.critical)) ≡ false
      → Extends (OfPush (Edits cfg prior)) s (act env cfg at review phase idx rule (some prior) s)
  unfolding act
  act-Edits review phase idx rule prior s quiet =
      rw quiet (elim (Bool-cases (ltb idx prior.rule_index)) [
        | inl lower ↦ rw lower (refresh-Extends env cfg at prior review phase phase idx rule s)
        | inr same ↦ rw same (elim (Bool-cases (is_end phase)) [
          | inl over ↦ rw over (send_update-Extends env cfg at prior review end s)
          | inr going ↦ rw going (Extends-refl s)
        ])
      ])

module _ {P : Type 0} (env : Env P) (cfg : Config) (at : Moment)
    (L : Moment → ReviewPayload → Option ReviewState → Type 0) where
  -- What was sent for a review, as a store has it.
  abbrev found_in : ReviewPayload → Store P → Option ReviewState
  found_in review x = (load_review env.backend env.codecs review.id at.instant x).0

  abbrev found : ReviewPayload → State P → Option ReviewState
  found review s = found_in review s.store

  pub act-Called :
      (review : ReviewPayload) (phase : Phase) (idx : ℕ) (rule : Rule) (prior : Option ReviewState)
      (s : State P)
      → L at review prior
      → get_elem? cfg.rules idx ≡ some rule
      → Extends (OfPush (Called env cfg L)) s (act env cfg at review phase idx rule prior s)
  unfolding act
  act-Called review phase idx rule none s l e =
      (Extends-weaken (OfPush-map _ _ (λ t m prev. begins at review none idx rule l tt e))
        (send_new-Extends env cfg at review phase idx rule none s))
  act-Called review phase idx rule (some prior) s l e =
      elim (Bool-cases (ltb idx prior.rule_index && (rule.critical && not prior.critical))) [
        | inl louder ↦ rw louder (
            Extends-weaken
              (OfPush-map _ _ (λ t m prev. begins at review (some prior) idx rule l louder e))
              (send_new-Extends env cfg at review phase idx rule (some prior) s))
        | inr quiet ↦
            Extends-weaken (OfPush-map _ _ (λ t m prev. edits at review prior l))
              (act-Edits env cfg at review phase idx rule prior s quiet)
      ]

  act_on_state-Called :
      (review : ReviewPayload) (phase : Phase) (idx : ℕ) (rule : Rule) (s : State P)
      → L at review (found review s)
      → get_elem? cfg.rules idx ≡ some rule
      → Adds (OfPush (Called env cfg L)) s (act_on_state env cfg at review phase idx rule s)
  unfolding act_on_state
  act_on_state-Called review phase idx rule s l e =
      let prior = (load_review env.backend env.codecs review.id at.instant s.store).0 in
      Adds-trans (Adds-none refl) (Adds-Extends (act-Called review phase idx rule prior _ l e))

  defer_decision-quiet :
      (deadline : ℕ) (review : ReviewPayload) (phase : Phase) (s : State P)
      → (defer_decision deadline review phase s).effects ≡ s.effects
  unfolding defer_decision
  defer_decision-quiet deadline review phase s = ground arith

  note_latest-quiet :
      (review : ReviewPayload) (phase : Phase) (s : State P)
      → (note_latest review phase s).1.effects ≡ s.effects
  unfolding note_latest
  note_latest-quiet review phase s = ground arith

  note_latest-store :
      (review : ReviewPayload) (phase : Phase) (s : State P)
      → (note_latest review phase s).1.store ≡ s.store
  unfolding note_latest
  note_latest-store review phase s = ground arith

  noted-store :
      (review : ReviewPayload) (phase : Phase) (deferred : Bool) (s : State P)
      → (noted env cfg at review phase deferred s).1.store ≡ s.store
  noted-store review phase true s = refl
  noted-store review phase false s = note_latest-store review phase s

  noted-quiet :
      (review : ReviewPayload) (phase : Phase) (deferred : Bool) (s : State P)
      → (noted env cfg at review phase deferred s).1.effects ≡ s.effects
  noted-quiet review phase true s = refl
  noted-quiet review phase false s = note_latest-quiet review phase s

  decide_rule-Called :
      (review : ReviewPayload) (phase : Phase) (waits : Bool) (idx : ℕ) (rule : Rule) (s : State P)
      → L at review (found review s)
      → get_elem? cfg.rules idx ≡ some rule
      → Adds (OfPush (Called env cfg L)) s (decide_rule env cfg at review phase waits idx rule s)
  unfolding decide_rule
  decide_rule-Called review phase waits idx rule s l e =
      elim (Bool-cases (waits && ltb_ℤ (pos 0) (effective_holdoff env.unicode rule))) [
        | inl holds ↦ rw holds (Adds-none (defer_decision-quiet _ review phase s))
        | inr acts ↦ rw acts (act_on_state-Called review phase idx rule s l e)
      ]

  decide_match-Called :
      (review : ReviewPayload) (phase : Phase) (waits : Bool) (matched : Option ℕ) (s : State P)
      → L at review (found review s)
      → Adds (OfPush (Called env cfg L)) s (decide_match env cfg at review phase waits matched s)
  decide_match-Called review phase waits none s l = Adds-emit (unmatched review.camera phase) s tt
  decide_match-Called review phase waits (some idx) s l =
      elim (Option-cases (get_elem? cfg.rules idx)) [
        | inl gone ↦ rw gone (Adds-none refl)
        | inr (rule, e) ↦ rw e (decide_rule-Called review phase waits idx rule s l e)
      ]

  pub decide-Called :
      (review : ReviewPayload) (phase : Phase) (deferred : Bool) (s : State P)
      → L at review (found review s)
      → Adds (OfPush (Called env cfg L)) s (decide env cfg at review phase deferred s)
  unfolding decide
  decide-Called review phase deferred s l =
      let (holding, s') = noted env cfg at review phase deferred s in
      Adds-trans {t = s'} (Adds-none (noted-quiet review phase deferred s)) (
        decide_match-Called review phase (not deferred && (is_new phase || holding))
          (match_rules env.unicode cfg.rules (match_context env cfg at review phase)).0 s'
          (subst (λ x. L at review (found_in review x)) (sym (noted-store review phase deferred s))
            l))

  -- A GenAI summary leads only to such calls.
  pub handle_gen_ai-Called :
      (review : ReviewPayload) (s : State P)
      → L at review (found review s)
      → Adds (OfPush (Called env cfg L)) s (handle_gen_ai env cfg at review s)
  unfolding handle_gen_ai
  handle_gen_ai-Called review s l =
      elim (Option-cases (load_review env.backend env.codecs review.id at.instant s.store).0) [
        | inl unknown ↦ rw (unknown, handle_gen_ai) (Adds-none refl)
        | inr (prior, e) ↦
            rw (e, handle_gen_ai)
              (Adds-trans (Adds-none refl) (
                Adds-Extends (
                  Extends-weaken
                    (OfPush-map _ _ (λ t m prev. edits at review prior (subst (L at review) e l)))
                    (send_update-Extends env cfg at prior review genai _))))
      ]
