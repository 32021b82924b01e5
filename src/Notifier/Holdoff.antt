-- ===== src/Notifier/Holdoff.antt =====
-- internal/notifier/notifier.go: a decision that waits for its holdoff.
use frigate_notifications.Prelude.{
  ℕ, suc, ◌+◌, ◌≡◌, refl, ◌∙◌, ap, Bool, true, false, ◌||◌, Option, none, some, Text, text_eq_refl,
  lookup, insert, delete, lookup-insert_self, lookup-delete, delete-insert_self, get_elem?, ltb,
  ◌==◌, Option-cases, inl, inr, arith,
}
use frigate_notifications.Prelude.Int.{pos, ltb_ℤ}
use frigate_notifications.Config.{Config, Rule, effective_holdoff}
use frigate_notifications.Rules.{Phase, new, end, is_new, is_end, match_rules}
use frigate_notifications.Frigate.{ReviewPayload}
use frigate_notifications.Store.{load_review}
use frigate_notifications.Environment.{Env, Moment}
use frigate_notifications.State.{State, PendingDecision}
use frigate_notifications.Notifier.Calls.{act-Called}
use frigate_notifications.Notifier.{
  act_on_state, decide_rule, decide_match, decide, note_latest, defer_decision, match_context,
  fire_pending, timer_fired, deadline_of,
}

or_true : (b : Bool) → (b || true) ≡ true
or_true b = ground arith

module _ {P : Type 0} (env : Env P) (cfg : Config) where
  timer_fired-due :
      (at : Moment) (review_id : Text) (token : ℕ) (p : PendingDecision) (s : State P)
      → lookup review_id s.pending ≡ some p
      → p.token ≡ token
      → at.cancelled ≡ false
      → timer_fired env cfg at review_id token s
        ≡ decide env cfg at p.review p.phase true
            (record s { pending = delete review_id s.pending })
  unfolding timer_fired fire_pending
  timer_fired-due at review_id token p s found same running =
      let eq : (p.token == token) ≡ true = ground arith in rw (found, fire_pending, eq, running)

  timer_fired-gone :
      (at : Moment) (review_id : Text) (token : ℕ) (s : State P)
      → lookup review_id s.pending ≡ none
      → timer_fired env cfg at review_id token s ≡ s
  unfolding timer_fired
  timer_fired-gone at review_id token s gone = rw gone

module _ {P : Type 0} (env : Env P) (cfg : Config) (at : Moment) where
  decide_match-still :
      (review : ReviewPayload) (phase : Phase) (matched : Option ℕ) (s : State P)
      → (decide_match env cfg at review phase false matched s).pending ≡ s.pending
  unfolding decide decide_rule act_on_state
  decide_match-still review phase none s = refl
  decide_match-still review phase (some idx) s = elim (Option-cases (get_elem? cfg.rules idx)) [
    | inl gone ↦ rw gone
    | inr (rule, e) ↦
        let prior = (load_review env.backend env.codecs review.id at.instant s.store).0 in
        rw e (
          (act-Called env cfg at (λ now r found. Unit {0}) review phase idx rule prior _ tt
            e).same_pending)
  ]

  note_latest-over :
      (review : ReviewPayload) (s : State P)
      → (note_latest review end s).0 ≡ false
        × (lookup review.id (note_latest review end s).1.pending ≡ none)
  unfolding note_latest
  note_latest-over review s =
      ground (arith, lookup-delete review.id review.id s.pending, text_eq_refl review.id)

  decide-forgets :
      (review : ReviewPayload) (s : State P)
      → lookup review.id (decide env cfg at review end false s).pending ≡ none
  unfolding decide
  decide-forgets review s =
      let s' = (note_latest review end s).1 in
      let over = note_latest-over review s in
      rw over.0 (
        ap (lookup review.id) (
          decide_match-still review end
            (match_rules env.unicode cfg.rules (match_context env cfg at review end)).0 s')
        ∙ over.1)

  -- After the end of a review was decided, the timer of its holdoff changes nothing, whatever its
  -- token and whenever it fires.
  pub decide-over :
      (at' : Moment) (review : ReviewPayload) (token : ℕ) (s : State P)
      → timer_fired env cfg at' review.id token (decide env cfg at review end false s)
        ≡ decide env cfg at review end false s
  decide-over at' review token s =
      timer_fired-gone env cfg at' review.id token _ (decide-forgets review s)

  note_latest-free :
      (review : ReviewPayload) (phase : Phase) (s : State P)
      → lookup review.id s.pending ≡ none
      → note_latest review phase s ≡ (false, s)
  unfolding note_latest
  note_latest-free review phase s free = rw (free, note_latest)

  note_latest-held :
      (review : ReviewPayload) (phase : Phase) (p : PendingDecision) (s : State P)
      → lookup review.id s.pending ≡ some p
      → is_end phase ≡ false
      → note_latest review phase s ≡ (
        true,
        record s {
          pending = insert review.id (record p { review = review; phase = phase }) s.pending;
        },
      )
  unfolding note_latest
  note_latest-held review phase p s held going = rw (held, note_latest, going)

  defer_decision-free :
      (deadline : ℕ) (review : ReviewPayload) (phase : Phase) (s : State P)
      → lookup review.id s.pending ≡ none
      → defer_decision deadline review phase s ≡ record s {
        pending =
            insert review.id
              (record { token = s.next_token; deadline = deadline; review = review; phase = phase })
              s.pending;
        next_token = suc s.next_token;
      }
  unfolding defer_decision
  defer_decision-free deadline review phase s free = rw (free, defer_decision)

  defer_decision-held :
      (deadline : ℕ) (review : ReviewPayload) (phase : Phase) (p : PendingDecision) (s : State P)
      → lookup review.id s.pending ≡ some p
      → defer_decision deadline review phase s ≡ record s {
        pending = insert review.id (record p { review = review; phase = phase }) s.pending;
      }
  unfolding defer_decision
  defer_decision-held deadline review phase p s held = rw (held, defer_decision)

  decide_match-holds :
      (review : ReviewPayload) (phase : Phase) (idx : ℕ) (rule : Rule) (s : State P)
      → get_elem? cfg.rules idx ≡ some rule
      → ltb_ℤ (pos 0) (effective_holdoff env.unicode rule) ≡ true
      → decide_match env cfg at review phase true (some idx) s
        ≡ defer_decision
            (deadline_of env cfg at (effective_holdoff env.unicode rule))
            review
            phase
            s
  unfolding decide decide_rule
  decide_match-holds review phase idx rule s at_idx holds = rw (at_idx, decide_match, holds)

  -- A new review that has no pending decision and matches a rule with a holdoff only becomes pending,
  -- with a fresh token and the deadline that the holdoff sets: nothing is sent, stored or counted.
  pub decide-waits :
      (review : ReviewPayload) (idx : ℕ) (rule : Rule) (delay : ℕ) (s : State P)
      → lookup review.id s.pending ≡ none
      → (match_rules env.unicode cfg.rules (match_context env cfg at review new)).0 ≡ some idx
      → get_elem? cfg.rules idx ≡ some rule
      → effective_holdoff env.unicode rule ≡ pos delay
      → ltb 0 delay ≡ true
      → decide env cfg at review new false s ≡ record s {
        pending =
            insert review.id
              (record {
                token = s.next_token;
                deadline = at.instant + delay;
                review = review;
                phase = new;
              })
              s.pending;
        next_token = suc s.next_token;
      }
  unfolding decide
  decide-waits review idx rule delay s free matched at_idx holds long =
      rw (note_latest-free review new s free, matched)
        (decide_match-holds review new idx rule s at_idx (rw holds (ground arith))
          ∙ defer_decision-free _ review new s free
          ∙ rw holds)

  decide-held :
      (p : PendingDecision) (review : ReviewPayload) (phase : Phase) (idx : ℕ) (rule : Rule)
      (s : State P)
      → lookup review.id s.pending ≡ some p
      → is_end phase ≡ false
      → (match_rules env.unicode cfg.rules (match_context env cfg at review phase)).0 ≡ some idx
      → get_elem? cfg.rules idx ≡ some rule
      → ltb_ℤ (pos 0) (effective_holdoff env.unicode rule) ≡ true
      → decide env cfg at review phase false s ≡ (
          let q : PendingDecision = record p { review = review; phase = phase } in
          record s { pending = insert review.id q (insert review.id q s.pending) })
  unfolding decide
  decide-held p review phase idx rule s waits going matched at_idx holds =
      let q : PendingDecision = record p { review = review; phase = phase } in
      rw (note_latest-held review phase p s waits going, matched, or_true (is_new phase))
        (decide_match-holds review phase idx rule _ at_idx holds
          ∙ defer_decision-held _ review phase q _ (lookup-insert_self review.id q s.pending))

  -- While a decision is pending, a payload that does not end the review and matches a rule with a
  -- holdoff takes the place of the pending one: the timer set before then decides that newest payload
  -- and phase, unless the process is stopping, and the decision is pending no more.
  pub decide-newest :
      (at' : Moment) (p : PendingDecision) (review : ReviewPayload) (phase : Phase) (idx : ℕ)
      (rule : Rule) (s : State P)
      → at'.cancelled ≡ false
      → lookup review.id s.pending ≡ some p
      → is_end phase ≡ false
      → (match_rules env.unicode cfg.rules (match_context env cfg at review phase)).0 ≡ some idx
      → get_elem? cfg.rules idx ≡ some rule
      → ltb_ℤ (pos 0) (effective_holdoff env.unicode rule) ≡ true
      → timer_fired env cfg at' review.id p.token (decide env cfg at review phase false s)
        ≡ decide env cfg at' review phase true (record s { pending = delete review.id s.pending })
  decide-newest at' p review phase idx rule s running waits going matched at_idx holds =
      let q : PendingDecision = record p { review = review; phase = phase } in
      rw (decide-held p review phase idx rule s waits going matched at_idx holds) (
        timer_fired-due env cfg at' review.id q.token q _ (lookup-insert_self review.id q _) refl
          running
        ∙ rw (
          delete-insert_self review.id q (insert review.id q s.pending),
          delete-insert_self review.id q s.pending,
        ))
