-- ===== src/Sender/Slack.antt =====
-- internal/sender/slack.go: texts that are safe in mrkdwn, and the layout of a message.
pub mod Safe
pub mod Calls
pub mod Ends
use frigate_notifications.Prelude.{
  ℕ, zero, suc, ◌+◌, ◌-◌, ◌/◌, Bool, true, false, not, ◌&&◌, ◌||◌, Option, none, some, List, [],
  ◌∷◌, ◌++◌, Text, lit, text_eq, is_empty, length, ltb, leb, ◌==◌, if◌then◌else◌, Result, ok, err,
}
use frigate_notifications.Prelude.Numerals.{decimal}
use frigate_notifications.Clock.{second, short_stamp}
use frigate_notifications.Unicode.{Unicode, trim_space}
use frigate_notifications.Phrase.{join}
use frigate_notifications.Message.{Message, duration, capitalize}
use frigate_notifications.Sender.{truncate, Response, is_ok, too_many_requests, wait_retry_after}

-- strings.NewReplacer where every key is one rune.
abbrev pub replace_each : (ℕ → Text) → Text → Text
replace_each f [] = []
replace_each f (c ∷ s) = f c ++ replace_each f s

abbrev pub escape_rune : ℕ → Text
escape_rune c =
    if c == b'&'
    then lit "&amp;"
    else if c == b'<'
    then lit "&lt;"
    else if c == b'>'
    then lit "&gt;"
    else c ∷ []

unfoldable pub slack_escape : Text → Text
slack_escape s = replace_each escape_rune s

abbrev pub swap_rune : ℕ → Text
swap_rune c =
    if c == b'*'
    then lit "∗"
    else if c == b'_'
    then lit "‗"
    else if c == b'~'
    then lit "∼"
    else if c == b'`'
    then lit "ˋ"
    else c ∷ []

unfoldable pub slack_safe : Text → Text
unfolding slack_escape
slack_safe s = replace_each swap_rune (slack_escape s)

-- The pieces that fit before `max - 1` runes, of which `n` are taken.
unfoldable pub fit_from : ℕ → ℕ → Text → Text
unfolding slack_safe
fit_from max n [] = []
fit_from max n (c ∷ s) =
    let piece = slack_safe (c ∷ []) in
    let rest = fit_from max (n + length piece) s in
    if ltb (max - 1) (n + length piece) then [] else piece ++ rest

unfoldable pub slack_fit : Unicode → Text → ℕ → Text
unfolding fit_from slack_safe
slack_fit u s max =
    let safe = slack_safe s in
    if leb (length safe) max then safe else trim_space u (fit_from max 0 s) ++ lit "…"

unfoldable pub slack_link : Text → Text → Text
unfolding slack_escape
slack_link url label = lit "<" ++ (slack_escape url ++ (lit "|" ++ (label ++ lit ">")))

abbrev pub header_max : ℕ
header_max = 150

abbrev pub alt_text_max : ℕ
alt_text_max = 2000

abbrev pub text_max : ℕ
text_max = 4000

-- The blocks that a message is made of.
pub data SlackBlock : Type 0 where
  header section context : Text → SlackBlock
  image : Text → Text → SlackBlock

-- Links are never unfurled.
pub record SlackMessage : Type 0 where
  pub channel : Text
  pub ts : Text
  pub text : Text
  pub blocks : List SlackBlock

abbrev part : Bool → Text → List Text
part true t = t ∷ []
part false t = []

abbrev start_stamp : ℕ → Text
start_stamp start =
    lit "<!date^"
    ++ (decimal (start / second)
        ++ (lit "^{date_short_pretty} {time}|" ++ (short_stamp start ++ lit ">")))

module _ (u : Unicode) where
  unfoldable pub slack_body : Message → Text
  unfolding slack_fit
  slack_body m =
      (lit "*" ++ (slack_fit u m.headline 1000 ++ lit "*"))
      ++ (if is_empty m.detail then [] else lit "\n" ++ slack_fit u m.detail 1900)

  unfoldable pub slack_context : Message → Text
  unfolding slack_escape slack_link
  slack_context m = join (lit "  ·  ") (
      part (not (m.start == 0)) (start_stamp m.start)
      ++ (part (not (is_empty (duration m))) (duration m)
          ++ (part (not (is_empty m.zones)) (slack_escape (join (lit ", ") m.zones))
              ++ (part (not (is_empty m.severity)) (capitalize u m.severity)
                  ++ (part (not (is_empty m.clip_url)) (slack_link m.clip_url (lit "View clip"))
                      ++ part (not (is_empty m.click_url))
                          (slack_link m.click_url (lit "Open in Frigate")))))))

  abbrev picture : Message → Bool → List SlackBlock
  picture m with_image =
      if with_image && not (is_empty m.image)
      then image m.image (truncate u (m.title ++ (lit ": " ++ m.headline)) alt_text_max) ∷ []
      else []

  abbrev context_line : Text → List SlackBlock
  context_line [] = []
  context_line (c ∷ s) = context (c ∷ s) ∷ []

  unfoldable pub render : Text → Text → Message → Bool → SlackMessage
  unfolding slack_body slack_context slack_fit
  render channel ts m with_image =
      let title = if m.critical then lit "🚨 " ++ m.title else m.title in
      record {
        channel = channel;
        ts = ts;
        text = slack_fit u (m.title ++ (lit ": " ++ m.headline)) text_max;
        blocks =
            header (truncate u title header_max)
            ∷ section (slack_body m)
            ∷ (picture m with_image ++ context_line (slack_context m));
      }
