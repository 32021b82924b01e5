-- ===== src/Sender/Examples.antt =====
-- internal/sender: messages laid out, and calls that are tried again.
use frigate_notifications.Prelude.{
  ℕ, ◌<◌, ◌≡◌, refl, Bool, true, false, some, List, [], ◌∷◌, Text, lit, text_eq, length, ◌==◌,
  if◌then◌else◌, Result, ok, err, arith,
}
use frigate_notifications.Prelude.Int.{pos}
use frigate_notifications.Clock.{second}
use frigate_notifications.Unicode.{ascii}
use frigate_notifications.Message.{Message, blank}
use frigate_notifications.Phrase.{join}
use frigate_notifications.Sender.{Response, is_ok, wait_retry_after}
use frigate_notifications.Sender.Ntfy.{send}
use frigate_notifications.Sender.Slack.{slack_fit, slack_safe}
use frigate_notifications.Sender.Slack.Safe.{Fits, slack_fit-Fits}
use frigate_notifications.Sender.Slack.Calls
use frigate_notifications.Sender.Slack.Calls.{
  Api, Request, SlackReply, Outcome, chat_update, chat_post_message,
}
use frigate_notifications.Sender.Slack.Ends.{Done, send-Done}
use frigate_notifications.Sender.Discord.{render, discord_escape}
use frigate_notifications.Sender.Discord.Bounds.{length-render-content}

abbrev no_path : Text → Result Text
no_path url = err

-- A critical review, updated.
abbrev again : Message
again = record blank {
  title = lit "Front porch";
  headline = lit "<!channel> *someone*";
  severity = lit "alert";
  image = lit "https://frigate.example.com/m/snapshot/1.jpg";
  tag = lit "1700000000.5-ab12";
  critical = true;
  update = true;
}

safe_headline : slack_safe again.headline ≡ lit "&lt;!channel&gt; ∗someone∗"
unfolding slack_safe
safe_headline = refl

slack_fit-Fits_example : Fits 20 (slack_fit ascii again.headline 20)
slack_fit-Fits_example = slack_fit-Fits ascii again.headline 20 (omega arith)

abbrev answered : ℕ → Text → Response
answered status body = record { status = status; body = body; retry_after = pos second }

-- The server is overloaded, and then it is not.
abbrev overloaded : ℕ → Result Response
overloaded k = ok (answered (if k == 0 then 503 else 200) [])

abbrev never : ℕ → Bool
never k = false

second_try : send overloaded never ≡ (true, 2)
unfolding send is_ok
second_try = refl

-- Slack limits the first call, and then the message that is to be edited is gone.
abbrev replies : List Request → Request → Result Response
replies [] r = ok (answered 429 [])
replies (q ∷ []) r = ok (answered 200 (lit "gone"))
replies _ r = ok (answered 200 (lit "fine"))

abbrev reply_of : Text → Result SlackReply
reply_of t =
    if text_eq t (lit "gone")
    then ok (record { success = false; error = lit "message_not_found"; channel = []; ts = [] })
    else ok (record { success = true; error = []; channel = lit "D1"; ts = lit "17.2" })

abbrev slack : Api
slack = record { answer = replies; decode = reply_of; ended = λ done. false }

posted_afresh :
    (Calls.send ascii slack (lit "U1") again (lit "D1:17.1")).1
    ≡ some (Outcome.sent (lit "D1:17.2"))
unfolding Calls.send text_eq Calls.call wait_retry_after is_ok
posted_afresh = refl

send-Done_example : Done ascii again 6 [] (Calls.send ascii slack (lit "U1") again (lit "D1:17.1"))
send-Done_example = send-Done ascii again slack (lit "U1") (lit "D1:17.1")

heading : discord_escape (lit "# _hi_") ≡ lit "\\# \\_hi\\_"
unfolding discord_escape join
heading = refl

length-render-content_example : length (render ascii again).content < 2000
length-render-content_example = length-render-content ascii again
