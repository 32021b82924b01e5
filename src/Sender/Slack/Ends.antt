-- ===== src/Sender/Slack/Ends.antt =====
-- internal/sender/slack.go: the loop of `call` ends, and no edit loses its picture.
use frigate_notifications.Prelude.{
  ℕ, zero, suc, ◌+◌, ◌≤◌, ◌<◌, ◌≡◌, ◌≢◌, inl, inr, refl, Bool, true, false, not, ◌||◌, Option, none,
  some, List, [], ◌∷◌, All, Text, lit, text_eq, is_empty, length, ◌==◌, Result, ok, err, Bool-cases,
  Result-cases, arith,
}
use frigate_notifications.Unicode.{Unicode}
use frigate_notifications.Message.{Message}
use frigate_notifications.Sender.{Response, is_ok, too_many_requests, wait_retry_after}
use frigate_notifications.Sender.Slack.{SlackMessage, render}
use frigate_notifications.Sender.Slack.Calls.{
  SlackReply, Method, Outcome, Request, Api, Attempt, Next, over, again, chat_update,
  chat_post_message, judge_reply, judge_response, step, call_from, call, send, send_edit,
  after_update, cut_ref, slack_error, failed, sent, first_attempt, can_drop, request_of,
}

abbrev one_unless : Bool → ℕ
one_unless true = 0
one_unless false = 1

-- The retries that are left.
abbrev remaining : Attempt → ℕ
remaining a = one_unless a.rate_retried + one_unless a.image_dropped

nil_of_is_empty : (t : Text) → is_empty t ≡ true → t ≡ []
nil_of_is_empty [] h = refl
nil_of_is_empty (c ∷ t) h = absurd cc

module _ (u : Unicode) (m : Message) where
  -- An edit has all there is to show.
  abbrev pub Whole : SlackMessage → Type 0
  Whole body = body.ts ≢ [] → body ≡ render u body.channel body.ts m true

  abbrev Goes : Attempt → Next → Type 0
  Goes a (over o) = Unit
  Goes a (again b) = (remaining b < remaining a) × (Whole a.body → Whole b.body)

  -- There is an outcome, of a few requests more, and every edit is whole.
  pub record Done (k : ℕ) (done : List Request) (out : List Request × Option Outcome) : Type 0 where
    pub outcome : Outcome
    pub reported : out.1 ≡ some outcome
    pub few : length out.0 ≤ k + length done
    pub whole : All (λ r. Whole r.message) out.0

  Done-more :
      (k l : ℕ) (done : List Request) (out : List Request × Option Outcome)
      → k ≤ l
      → Done k done out
      → Done l done out
  Done-more k l done out h d =
      let f = d.few in
      record { outcome = d.outcome; reported = d.reported; few = omega arith; whole = d.whole }

  module _ (api : Api) (method : Method) where
    judge_reply-Goes :
        (a : Attempt) (reply : SlackReply) → Goes a (judge_reply u api method m a reply)
    unfolding judge_reply
    judge_reply-Goes a reply = elim (Bool-cases reply.success) [
      | inl b ↦ rw b tt
      | inr b ↦ elim (Bool-cases (can_drop m a reply)) [
        | inl d ↦ rw (b, d) (ground arith, λ h n. absurd (n (nil_of_is_empty _ (ground arith))))
        | inr d ↦ rw (b, d) tt
      ]
    ]

    judge_response-Goes :
        (ended : Bool) (a : Attempt) (resp : Response)
        → Goes a (judge_response u api method m ended a resp)
    unfolding judge_response
    judge_response-Goes ended a resp = elim (Bool-cases (resp.status == too_many_requests)) [
      | inl b ↦
          elim (Bool-cases (a.rate_retried || not (wait_retry_after ended resp.retry_after))) [
            | inl d ↦ rw (b, d) tt
            | inr d ↦ rw (b, d) (ground arith, λ h. h)
          ]
      | inr b ↦ elim (Bool-cases (not (is_ok resp))) [
        | inl d ↦ rw (b, d) tt
        | inr d ↦ elim (Result-cases (api.decode resp.body)) [
          | inl e ↦ rw (b, d, e) tt
          | inr (reply, e) ↦ rw (b, d, e) (judge_reply-Goes a reply)
        ]
      ]
    ]

    answer-Goes :
        (ended : Bool) (a : Attempt) (r : Result Response)
        → Goes a
            (elim r [ err ↦ over failed | ok resp ↦ judge_response u api method m ended a resp ])
    answer-Goes ended a err = tt
    answer-Goes ended a (ok resp) = judge_response-Goes ended a resp

    step-Goes : (a : Attempt) (done : List Request) → Goes a (step u api method m a done)
    unfolding step
    step-Goes a done =
        answer-Goes (api.ended (request_of method a ∷ done)) a
          (api.answer done (request_of method a))

    -- A step, given how the rest goes.
    next-Done :
        (fuel : ℕ) (a : Attempt) (done : List Request) (n : Next)
        → Whole a.body
        → All (λ r. Whole r.message) done
        → Goes a n
        → ((b : Attempt)
            → remaining b < remaining a
            → Whole b.body
            → Done fuel
                (request_of method a ∷ done)
                (call_from u api method m fuel b (request_of method a ∷ done)))
        → Done (suc fuel) done (elim n [
          | over outcome ↦ (request_of method a ∷ done, some outcome)
          | again b ↦ call_from u api method m fuel b (request_of method a ∷ done)
        ])
    next-Done fuel a done (over o) w all g rest = record {
      outcome = o;
      reported = refl;
      few = omega arith;
      whole = (w, all);
    }
    next-Done fuel a done (again b) w all g rest =
        let d = rest b g.0 (g.1 w) in
        let f = d.few in
        record { outcome = d.outcome; reported = d.reported; few = omega arith; whole = d.whole }

    call_from-Done :
        (fuel : ℕ) (a : Attempt) (done : List Request)
        → remaining a < fuel
        → Whole a.body
        → All (λ r. Whole r.message) done
        → Done fuel done (call_from u api method m fuel a done)
    unfolding call_from
    call_from-Done zero a done h w all = absurd (omega arith)
    call_from-Done (suc fuel) a done h w all =
        next-Done fuel a done (step u api method m a done) w all (step-Goes a done) (λ b g w'.
          call_from-Done fuel b (request_of method a ∷ done) (omega (arith, g)) w' (w, all))

  malformed : Done 6 [] ([], some failed)
  malformed = record { outcome = failed; reported = refl; few = omega arith; whole = tt }

  whole : (ch ts : Text) → Whole (render u ch ts m true)
  unfolding render
  whole ch ts n = refl

  module _ (api : Api) where
    call-Done :
        (method : Method) (body : SlackMessage) (done : List Request)
        → Whole body
        → All (λ r. Whole r.message) done
        → Done 3 done (call u api method m body done)
    unfolding call
    call-Done method body done w all =
        call_from-Done api method 3 (first_attempt body) done (omega arith) w all

    post-Done :
        (channel : Text) (done : List Request)
        → All (λ r. Whole r.message) done
        → Done 3 done (call u api chat_post_message m (render u channel [] m true) done)
    unfolding render
    post-Done channel done all = call-Done chat_post_message _ done (λ n. refl) all

    after_update-Done :
        (channel : Text) (out : List Request × Option Outcome)
        → Done 3 [] out
        → Done 6 [] (after_update u api channel m out)
    unfolding after_update
    after_update-Done channel (done, none) d = Done-more 3 6 [] (done, none) (omega arith) d
    after_update-Done channel (done, some (sent ref)) d =
        Done-more 3 6 [] (done, some (sent ref)) (omega arith) d
    after_update-Done channel (done, some failed) d =
        Done-more 3 6 [] (done, some failed) (omega arith) d
    after_update-Done channel (done, some (slack_error error)) d =
        let p = post-Done channel done d.whole in
        let few = p.few in
        let first = d.few in
        elim (Bool-cases (text_eq error (lit "message_not_found"))) [
          | inl b ↦ rw b (record {
            outcome = p.outcome;
            reported = p.reported;
            few = omega arith;
            whole = p.whole;
          })
          | inr b ↦ rw b (Done-more 3 6 [] (done, some (slack_error error)) (omega arith) d)
        ]

    send_edit-Done :
        (channel : Text) (ref : Option (Text × Text)) → Done 6 [] (send_edit u api channel m ref)
    unfolding send_edit
    send_edit-Done channel none = malformed
    send_edit-Done channel (some (ch, ts)) = elim (Bool-cases (is_empty ch || is_empty ts)) [
      | inl b ↦ rw b malformed
      | inr b ↦ rw b (
          after_update-Done channel _
            (call-Done chat_update (render u ch ts m true) [] (whole ch ts) tt))
    ]

    -- Whatever Slack answers, `Send` ends with an outcome after at most six requests, and every edit
    -- that it asks for has the whole message, its picture too: only a post is tried again without one.
    pub send-Done : (channel prev : Text) → Done 6 [] (send u api channel m prev)
    unfolding send
    send-Done channel [] = Done-more 3 6 [] _ (omega arith) (post-Done channel [] tt)
    send-Done channel (c ∷ prev) = send_edit-Done channel (cut_ref (c ∷ prev))
