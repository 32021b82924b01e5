-- ===== src/Sender/Discord.antt =====
-- internal/sender/discord.go: what is posted to a webhook.
pub mod Bounds
pub mod Calls
use frigate_notifications.Prelude.{
  ℕ, ◌+◌, ◌*◌, Bool, true, false, not, ◌&&◌, ◌||◌, Option, none, some, List, [], ◌∷◌, ◌++◌, map,
  Text, lit, text_eq, is_empty, any, ◌==◌, if◌then◌else◌,
}
use frigate_notifications.Prelude.Int.{ℤ, pos, ltb_ℤ}
use frigate_notifications.Clock.{rfc3339}
use frigate_notifications.Unicode.{Unicode}
use frigate_notifications.Phrase.{join}
use frigate_notifications.Message.{Message, duration, capitalize}
use frigate_notifications.Sender.{is_digest, if_any, truncate}
use frigate_notifications.Sender.Slack.{replace_each}

abbrev pub headline_max : ℕ
headline_max = 400

abbrev pub detail_max : ℕ
detail_max = 1500

abbrev pub footer_max : ℕ
footer_max = 300

-- The marks of markdown; 92 is the backslash.
abbrev pub is_mark : ℕ → Bool
is_mark c =
    c == 92
    || c == b'*'
    || c == b'_'
    || c == b'~'
    || c == b'|'
    || c == b'`'
    || c == b'['
    || c == b']'
    || c == b'>'
    || c == b'<'

abbrev pub escape_mark : ℕ → Text
escape_mark c = if is_mark c then 92 ∷ c ∷ [] else c ∷ []

-- strings.Split(s, "\n"), as the first line and the others
unfoldable pub split_lines : Text → Text × List Text
split_lines [] = ([], [])
split_lines (c ∷ s) =
    let (line, lines) = split_lines s in if c == 10 then ([], line ∷ lines) else (c ∷ line, lines)

abbrev pub starts_block : ℕ → Bool
starts_block c = c == b'#' || c == b'-' || c == b'+'

-- A backslash before a mark that counts at the start of a line, after spaces.
unfoldable pub guard_line : Text → Text
guard_line [] = []
guard_line (c ∷ s) =
    let rest = guard_line s in
    if c == b' ' then c ∷ rest else if starts_block c then 92 ∷ c ∷ s else c ∷ s

unfoldable pub discord_escape : Text → Text
unfolding split_lines guard_line
discord_escape s =
    let (line, lines) = split_lines (replace_each escape_mark s) in
    join (lit "\n") (map guard_line (line ∷ lines))

unfoldable pub discord_link : Text → Text → Text
discord_link url label =
    lit "["
    ++ (label
        ++ (lit "]("
            ++ (replace_each (λ c. if c == b')' then lit "%29" else c ∷ []) url ++ lit ")")))

abbrev pub color_alert : ℕ
color_alert = 3_900_150

abbrev pub color_detection : ℕ
color_detection = 8_818_326

abbrev pub color_suspect : ℕ
color_suspect = 16_097_024

abbrev pub color_critical : ℕ
color_critical = 14_692_657

abbrev is_one : ℤ → Bool
is_one n = not (ltb_ℤ n (pos 1)) && ltb_ℤ n (pos 2)

unfoldable pub color_of : Message → ℕ
color_of m =
    if m.critical || not (ltb_ℤ m.threat (pos 2))
    then color_critical
    else if is_one m.threat
    then color_suspect
    else if text_eq m.severity (lit "detection") || is_digest m.stage
    then color_detection
    else color_alert

pub record Embed : Type 0 where
  pub description : Text
  pub color : ℕ
  pub image : Option Text
  pub footer : Option Text
  pub timestamp : Text

-- The user name is always "Frigate", and no mention is ever allowed.
pub record DiscordPayload : Type 0 where
  pub content : Text
  pub embeds : List Embed
  pub flags : ℕ

abbrev part : Bool → Text → List Text
part true t = t ∷ []
part false t = []

abbrev is_some : Option Text → Bool
is_some none = false
is_some (some t) = true

-- desc and links, with a blank line between them
abbrev with_links : Text → List Text → Text
with_links desc [] = desc
with_links desc (l ∷ links) =
    (if is_empty desc then [] else desc ++ lit "\n\n") ++ join (lit " · ") (l ∷ links)

module _ (u : Unicode) where
  unfoldable pub footer_text : Message → Text
  unfolding discord_escape
  footer_text m = discord_escape (
      join (lit " · ") (
        part (not (is_empty m.zones)) (truncate u (join (lit ", ") m.zones) footer_max)
        ++ (part (not (is_empty m.severity)) (capitalize u m.severity)
            ++ part (not (is_empty (duration m))) (duration m))))

  unfoldable pub content_of : Message → Text
  unfolding discord_escape
  content_of m =
      let title = if m.critical then lit "🚨 " ++ m.title else m.title in
      lit "**"
      ++ (discord_escape (truncate u title 100)
          ++ (lit "** · " ++ discord_escape (truncate u m.headline headline_max)))

  unfoldable pub embed_of : Message → Embed
  unfolding footer_text discord_link color_of discord_escape
  embed_of m = record {
    description = with_links (discord_escape (truncate u m.detail detail_max)) (
        part (not (is_empty m.clip_url)) (discord_link m.clip_url (lit "▶ View clip"))
        ++ part (not (is_empty m.click_url)) (discord_link m.click_url (lit "Open in Frigate")));
    color = color_of m;
    image = if_any m.image;
    footer = if is_digest m.stage then none else if_any (footer_text m);
    timestamp = if is_digest m.stage || m.start == 0 then [] else rfc3339 m.start;
  }

  unfoldable pub render : Message → DiscordPayload
  unfolding content_of embed_of
  render m =
      let embed = embed_of m in
      record {
        content = content_of m;
        embeds =
            if not (is_empty embed.description) || is_some embed.image || is_some embed.footer
            then embed ∷ []
            else [];
        flags = if is_digest m.stage then 4096 else 0;
      }
