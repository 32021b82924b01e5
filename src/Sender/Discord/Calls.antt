-- ===== src/Sender/Discord/Calls.antt =====
-- internal/sender/discord.go: `Send`, with its edits and retries.
use frigate_notifications.Prelude.{
  ℕ, Bool, true, false, not, ◌&&◌, List, [], ◌∷◌, ◌++◌, Text, lit, trim_suffix, ◌==◌, if◌then◌else◌,
  Result, ok, err,
}
use frigate_notifications.Unicode.{Unicode}
use frigate_notifications.Message.{Message}
use frigate_notifications.Sender.{Response, is_ok, too_many_requests, wait_retry_after}
use frigate_notifications.Sender.Discord.{DiscordPayload, render}

-- A URL that is parsed: its path, its query and the rest.
pub record WebhookUrl : Type 0 where
  pub path : Text
  pub raw_query : Text
  pub rest : Text

pub data Verb : Type 0 where
  patch post : Verb

pub record Request : Type 0 where
  pub verb : Verb
  pub url : Text
  pub body : DiscordPayload

-- url.Parse, String, PathEscape and the setting of "wait" in a query; what Discord answers after the
-- requests before, newest first; the id that a reply has; and whether the context ends in the wait
-- after them.
pub record Api : Type 0 where
  pub parse : Text → Result WebhookUrl
  pub print : WebhookUrl → Text
  pub path_escape : Text → Text
  pub set_wait : Text → Text
  pub answer : List Request → Request → Result Response
  pub decode_id : Text → Result Text
  pub ended : List Request → Bool

abbrev pub not_found : ℕ
not_found = 404

module _ (u : Unicode) (api : Api) where
  unfoldable pub webhook_url : Text → Text → Bool → Result Text
  webhook_url raw suffix wait = elim (api.parse raw) [
    | err ↦ err
    | ok url ↦ ok (
        api.print (record {
          path = trim_suffix url.path (lit "/") ++ suffix;
          raw_query = if wait then api.set_wait url.raw_query else url.raw_query;
          rest = url.rest;
        }))
  ]

  -- `do`: one request, and once more after a rate limit. The requests made, newest first, and the reply.
  unfoldable pub request :
      Verb → Text → DiscordPayload → List Request → List Request × Result Response
  request verb url body done =
      let r : Request = record { verb = verb; url = url; body = body } in
      elim (api.answer done r) [
        | err ↦ (r ∷ done, err)
        | ok resp ↦
            if resp.status == too_many_requests
              && wait_retry_after (api.ended (r ∷ done)) resp.retry_after
            then (r ∷ r ∷ done, api.answer (r ∷ done) r)
            else (r ∷ done, ok resp)
      ]

  abbrev created : Result Text → Result Text
  created err = err
  created (ok []) = err
  created (ok (c ∷ id)) = ok (c ∷ id)

  -- The id of the message that was created.
  unfoldable pub posted : List Request × Result Response → List Request × Result Text
  posted (done, err) = (done, err)
  posted (done, ok resp) =
      (done, if not (is_ok resp) then err else created (api.decode_id resp.body))

  unfoldable pub post_new : Text → DiscordPayload → List Request → List Request × Result Text
  unfolding webhook_url request posted
  post_new raw body done = elim (webhook_url raw [] true) [
    | err ↦ (done, err)
    | ok url ↦ posted (request post url body done)
  ]

  -- A message that was deleted is posted afresh.
  unfoldable pub edited :
      Text → Text → DiscordPayload → List Request × Result Response → List Request × Result Text
  unfolding post_new
  edited raw prev body (done, err) = (done, err)
  edited raw prev body (done, ok resp) =
      let fresh = post_new raw body done in
      if is_ok resp
      then (done, ok prev)
      else if resp.status == not_found
      then fresh
      else (done, err)

  unfoldable pub edit : Text → Text → DiscordPayload → List Request × Result Text
  unfolding webhook_url request edited
  edit raw prev body = elim (webhook_url raw (lit "/messages/" ++ api.path_escape prev) false) [
    | err ↦ ([], err)
    | ok url ↦ edited raw prev body (request patch url body [])
  ]

  -- To the webhook `raw`, or as an edit of the message `prev`.
  unfoldable pub send : Text → Message → Text → List Request × Result Text
  unfolding render post_new edit
  send raw m [] = post_new raw (render u m) []
  send raw m (c ∷ prev) = edit raw (c ∷ prev) (render u m)
