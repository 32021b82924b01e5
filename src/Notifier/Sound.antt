-- ===== src/Notifier/Sound.antt =====
-- internal/notifier/notifier.go: the pending decisions, through every handler.
use frigate_notifications.Prelude.{
  ℕ, suc, ◌<◌, ◌≤◌, ◌≡◌, sym, ◌∙◌, ap, some, Text, lookup, insert, delete, lookup-insert,
  lookup-delete, eq_of_text_eq, Bool-cases, Option-cases, inl, inr, arith,
}
use frigate_notifications.Rules.{Phase, is_end}
use frigate_notifications.Frigate.{ReviewPayload}
use frigate_notifications.Environment.{Effect}
use frigate_notifications.State.{State, PendingDecision}
use frigate_notifications.State.Extends.{Extends}
use frigate_notifications.Notifier.{note_latest, defer_decision}

-- Every pending decision stands under the id of its review, and its token was given out.
pub record IsSound {P : Type 0} (s : State P) : Type 0 where
  pub keyed : (id : Text) (p : PendingDecision) → lookup id s.pending ≡ some p → p.review.id ≡ id
  pub given_out :
      (id : Text) (p : PendingDecision) → lookup id s.pending ≡ some p → p.token < s.next_token

module _ {P : Type 0} where
  pub same-IsSound :
      (s s' : State P)
      → s'.pending ≡ s.pending
      → s'.next_token ≡ s.next_token
      → IsSound s
      → IsSound s'
  same-IsSound s s' e n h = record {
    keyed = λ id p at. h.keyed id p (ap (lookup id) (sym e) ∙ at);
    given_out = λ id p at. rw n (h.given_out id p (ap (lookup id) (sym e) ∙ at));
  }

  pub Extends-IsSound :
      {Q : Effect → Type 0} (s s' : State P) → Extends Q s s' → IsSound s → IsSound s'
  Extends-IsSound s s' e = same-IsSound s s' e.same_pending e.same_token

  pub delete-IsSound :
      (id : Text) (s : State P) → IsSound s → IsSound (record s { pending = delete id s.pending })
  delete-IsSound id s h = record {
    keyed = λ j p at. ground (arith, lookup-delete id j s.pending, h.keyed j p);
    given_out = λ j p at. ground (arith, lookup-delete id j s.pending, h.given_out j p);
  }

  insert-IsSound :
      (q : PendingDecision) (n : ℕ) (s : State P)
      → q.token < n
      → s.next_token ≤ n
      → IsSound s
      → IsSound (record s { pending = insert q.review.id q s.pending; next_token = n })
  insert-IsSound q n s fresh grows h = record {
    keyed = λ j p at.
        let e = eq_of_text_eq q.review.id j in
        ground (arith, lookup-insert q.review.id j q s.pending, e, h.keyed j p);
    given_out = λ j p at. ground (arith, lookup-insert q.review.id j q s.pending, h.given_out j p);
  }

  pub note_latest-IsSound :
      (review : ReviewPayload) (phase : Phase) (s : State P)
      → IsSound s
      → IsSound (note_latest review phase s).1
  unfolding note_latest
  note_latest-IsSound review phase s h = elim (Option-cases (lookup review.id s.pending)) [
    | inl free ↦ rw (free, note_latest) h
    | inr (p, held) ↦ elim (Bool-cases (is_end phase)) [
      | inl over ↦ rw (held, note_latest, over) (delete-IsSound review.id s h)
      | inr going ↦
          rw (held, note_latest, going)
            (insert-IsSound (record p { review = review; phase = phase }) s.next_token s
              (h.given_out review.id p held) (omega arith) h)
    ]
  ]

  pub defer_decision-IsSound :
      (deadline : ℕ) (review : ReviewPayload) (phase : Phase) (s : State P)
      → IsSound s
      → IsSound (defer_decision deadline review phase s)
  unfolding defer_decision
  defer_decision-IsSound deadline review phase s h =
      elim (Option-cases (lookup review.id s.pending)) [
        | inl free ↦
            rw (free, defer_decision)
              (insert-IsSound _ (suc s.next_token) s (omega arith) (omega arith) h)
        | inr (p, held) ↦
            rw (held, defer_decision)
              (insert-IsSound (record p { review = review; phase = phase }) s.next_token s
                (h.given_out review.id p held) (omega arith) h)
      ]
