-- ===== src/Notifier/Late.antt =====
-- internal/notifier/notifier.go: a new review from the wait for its holdoff to the timer.
use frigate_notifications.Prelude.{
  ℕ, suc, ◌+◌, ◌≡◌, refl, ap, true, false, not, some, none, lookup, insert, delete,
  lookup-insert_self, delete-insert_self, get_elem?, ltb, ◌==◌, if◌then◌else◌, Text,
}
use frigate_notifications.Prelude.Int.{pos}
use frigate_notifications.Config.{Config, Rule, effective_holdoff}
use frigate_notifications.Rules.{new, match_rules}
use frigate_notifications.Frigate.{ReviewPayload}
use frigate_notifications.Environment.{Env, Moment}
use frigate_notifications.State.{State, PendingDecision}
use frigate_notifications.Notifier.Holdoff.{decide-waits}
use frigate_notifications.Notifier.{decide, fire_pending, timer_fired, match_context}

module _ {P : Type 0} (env : Env P) (cfg : Config) where
  -- A timer that finds a decision pending.
  timer_fired-pending :
      (at : Moment) (review_id : Text) (token : ℕ) (p : PendingDecision) (s : State P)
      → timer_fired env cfg at review_id token (record s { pending = insert review_id p s.pending })
        ≡ (if not (p.token == token)
            then record s { pending = insert review_id p s.pending }
            else if at.cancelled
            then record s { pending = delete review_id s.pending }
            else decide env cfg at p.review p.phase true
                (record s { pending = delete review_id s.pending }))
  unfolding timer_fired fire_pending
  timer_fired-pending at review_id token p s =
      rw
        (
          timer_fired,
          lookup-insert_self review_id p s.pending,
          fire_pending,
          delete-insert_self review_id p s.pending,
        )
        refl

  -- What a wait has kept, and what the timers then make of it.
  pub record IsPutOff (at at' : Moment) (review : ReviewPayload) (token : ℕ) (s : State P)
      : Type 0 where
    pub same_effects : (decide env cfg at review new false s).effects ≡ s.effects
    pub same_store : (decide env cfg at review new false s).store ≡ s.store
    pub timed : timer_fired env cfg at' review.id token (decide env cfg at review new false s) ≡ (
        let over : State P = record s {
          pending = delete review.id s.pending;
          next_token = suc s.next_token;
        } in
        if not (s.next_token == token)
        then decide env cfg at review new false s
        else if at'.cancelled
        then over
        else decide env cfg at' review new true over)

  -- A new review that matches a rule with a holdoff, and has no decision pending, is put off: nothing
  -- is sent or stored. Then the timer with the token that was next decides it by what holds at that
  -- later moment, or drops it if the process is stopping; a timer with another token changes nothing.
  pub decide-IsPutOff :
      (at at' : Moment) (review : ReviewPayload) (idx : ℕ) (rule : Rule) (delay token : ℕ)
      (s : State P)
      → lookup review.id s.pending ≡ none
      → (match_rules env.unicode cfg.rules (match_context env cfg at review new)).0 ≡ some idx
      → get_elem? cfg.rules idx ≡ some rule
      → effective_holdoff env.unicode rule ≡ pos delay
      → ltb 0 delay ≡ true
      → IsPutOff at at' review token s
  decide-IsPutOff at at' review idx rule delay token s free matched at_idx holds long =
      let p : PendingDecision = record {
        token = s.next_token;
        deadline = at.instant + delay;
        review = review;
        phase = new;
      } in
      let waits = decide-waits env cfg at review idx rule delay s free matched at_idx holds long in
      record {
        same_effects = ap (λ t. t.effects) waits;
        same_store = ap (λ t. t.store) waits;
        timed = rw waits (
            timer_fired-pending at' review.id token p (record s { next_token = suc s.next_token }));
      }
