-- ===== src/Sender/Slack/Calls.antt =====
-- internal/sender/slack.go: the calls of the Web API, with their retries, and `Send`.
use frigate_notifications.Prelude.{
  ℕ, zero, suc, Bool, true, false, not, ◌&&◌, ◌||◌, Option, none, some, List, [], ◌∷◌, ◌++◌, Text,
  lit, text_eq, is_empty, ◌==◌, if◌then◌else◌, Result, ok, err,
}
use frigate_notifications.Unicode.{Unicode}
use frigate_notifications.Message.{Message}
use frigate_notifications.Sender.{Response, is_ok, too_many_requests, wait_retry_after}
use frigate_notifications.Sender.Slack.{SlackMessage, render}

pub record SlackReply : Type 0 where
  pub success : Bool
  pub error : Text
  pub channel : Text
  pub ts : Text

pub data Method : Type 0 where
  chat_update chat_post_message : Method

pub data Outcome : Type 0 where
  -- the message's ref
  sent : Text → Outcome
  -- the error that Slack's reply has
  slack_error : Text → Outcome
  failed : Outcome

-- One request to the API.
pub record Request : Type 0 where
  pub method : Method
  pub message : SlackMessage

-- What Slack answers after the requests before, newest first, the JSON decoder of its replies, and
-- whether the context ends in the wait after them.
pub record Api : Type 0 where
  pub answer : List Request → Request → Result Response
  pub decode : Text → Result SlackReply
  pub ended : List Request → Bool

-- The state of the loop in `call`.
pub record Attempt : Type 0 where
  pub rate_retried : Bool
  pub image_dropped : Bool
  pub body : SlackMessage

pub data Next : Type 0 where
  over : Outcome → Next
  again : Attempt → Next

abbrev pub or_text : Text → Text → Text
or_text [] t = t
or_text (c ∷ s) t = c ∷ s

abbrev pub first_attempt : SlackMessage → Attempt
first_attempt body = record { rate_retried = false; image_dropped = false; body = body }

-- The picture is to blame, and is no one's yet.
abbrev pub can_drop : Message → Attempt → SlackReply → Bool
can_drop m a reply =
    text_eq reply.error (lit "invalid_blocks")
    && not (is_empty m.image)
    && not a.image_dropped
    && is_empty a.body.ts

abbrev pub request_of : Method → Attempt → Request
request_of method a = record { method = method; message = a.body }

module _ (u : Unicode) (api : Api) (method : Method) (m : Message) where
  unfoldable pub judge_reply : Attempt → SlackReply → Next
  unfolding render
  judge_reply a reply =
      if reply.success
      then over
          (sent (or_text reply.channel a.body.channel ++ (lit ":" ++ or_text reply.ts a.body.ts)))
      else if can_drop m a reply
      then again (record {
        rate_retried = a.rate_retried;
        image_dropped = true;
        body = render u a.body.channel a.body.ts m false;
      })
      else over (slack_error reply.error)

  unfoldable pub judge_response : Bool → Attempt → Response → Next
  unfolding judge_reply
  judge_response ended a resp =
      if resp.status == too_many_requests
      then (if a.rate_retried || not (wait_retry_after ended resp.retry_after)
          then over failed
          else again
              (record { rate_retried = true; image_dropped = a.image_dropped; body = a.body }))
      else if not (is_ok resp)
      then over failed
      else elim (api.decode resp.body) [ err ↦ over failed | ok reply ↦ judge_reply a reply ]

  unfoldable pub step : Attempt → List Request → Next
  unfolding judge_response
  step a done = elim (api.answer done (request_of method a)) [
    | err ↦ over failed
    | ok resp ↦ judge_response (api.ended (request_of method a ∷ done)) a resp
  ]

  -- The requests made, newest first, and the outcome, none if the fuel runs out before there is one.
  unfoldable pub call_from : ℕ → Attempt → List Request → List Request × Option Outcome
  unfolding step
  call_from zero a done = (done, none)
  call_from (suc fuel) a done =
      let done' = request_of method a ∷ done in
      elim (step a done) [
        | over outcome ↦ (done', some outcome)
        | again a' ↦ call_from fuel a' done'
      ]

  -- A fuel of three is enough.
  unfoldable pub call : SlackMessage → List Request → List Request × Option Outcome
  unfolding call_from
  call body done = call_from 3 (first_attempt body) done

-- strings.Cut(ref, ":"), with both parts there.
unfoldable pub cut_ref : Text → Option (Text × Text)
cut_ref [] = none
cut_ref (c ∷ s) =
    let rest = cut_ref s in
    elim (c == b':') [
      | true ↦ some ([], s)
      | false ↦ elim rest [ none ↦ none | some (channel, ts) ↦ some (c ∷ channel, ts) ]
    ]

module _ (u : Unicode) (api : Api) where
  abbrev post : Text → Message → List Request → List Request × Option Outcome
  post channel m done = call u api chat_post_message m (render u channel [] m true) done

  -- A message that was deleted is posted afresh.
  unfoldable pub after_update :
      Text → Message → List Request × Option Outcome → List Request × Option Outcome
  after_update channel m (done, some (slack_error error)) =
      let fresh = post channel m done in
      if text_eq error (lit "message_not_found") then fresh else (done, some (slack_error error))
  after_update channel m (done, outcome) = (done, outcome)

  -- With the parts of the ref, if it has both.
  unfoldable pub send_edit : Text → Message → Option (Text × Text) → List Request × Option Outcome
  unfolding after_update
  send_edit channel m none = ([], some failed)
  send_edit channel m (some (ch, ts)) =
      if is_empty ch || is_empty ts
      then ([], some failed)
      else after_update channel m (call u api chat_update m (render u ch ts m true) [])

  -- To a channel, or as an edit of what `prev` names.
  unfoldable pub send : Text → Message → Text → List Request × Option Outcome
  unfolding send_edit cut_ref
  send channel m [] = post channel m []
  send channel m (c ∷ prev) = send_edit channel m (cut_ref (c ∷ prev))
