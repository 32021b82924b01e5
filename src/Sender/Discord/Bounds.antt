-- ===== src/Sender/Discord/Bounds.antt =====
-- internal/sender/discord.go: how much escaping adds.
use frigate_notifications.Prelude.{
  ℕ, suc, ◌+◌, ◌-◌, ◌*◌, ◌≤◌, ◌<◌, ◌≡◌, inl, inr, List, [], ◌∷◌, ◌++◌, map, Text, lit, length,
  length-append, take, leb, if◌then◌else◌, Bool-cases, arith,
}
use frigate_notifications.Unicode.{Unicode, trim_space}
use frigate_notifications.Unicode.Shorter.{length-take, trim_space-shorter}
use frigate_notifications.Phrase.{join}
use frigate_notifications.Message.{Message}
use frigate_notifications.Sender.{truncate}
use frigate_notifications.Sender.Slack.{replace_each}
use frigate_notifications.Sender.Discord.{
  escape_mark, split_lines, starts_block, guard_line, discord_escape, content_of, render,
  headline_max,
}

-- A rune counts for two where a backslash may have to go before it.
abbrev cost : ℕ → ℕ
cost c = if starts_block c then 2 else 1

abbrev weight : Text → ℕ
weight [] = 0
weight (c ∷ s) = cost c + weight s

weight-append : (s t : Text) → weight (s ++ t) ≡ weight s + weight t
weight-append [] t = omega arith
weight-append (c ∷ s) t = omega (arith, weight-append s t)

length-weight : (s : Text) → length s ≤ weight s
length-weight [] = omega arith
length-weight (c ∷ s) = ground (arith, length-weight s)

length-guard_line : (s : Text) → length (guard_line s) ≤ weight s
unfolding guard_line
length-guard_line [] = omega arith
length-guard_line (c ∷ s) = ground (arith, length-guard_line s, length-weight s)

weight-escape_mark : (c : ℕ) → weight (escape_mark c) ≤ 2
weight-escape_mark c = ground arith

weight-replaced : (s : Text) → weight (replace_each escape_mark s) ≤ 2 * length s
weight-replaced [] = omega arith
weight-replaced (c ∷ s) = omega (
  arith,
  weight-append (escape_mark c) (replace_each escape_mark s),
  weight-escape_mark c,
  weight-replaced s,
)

-- The weights of lines, each with its line feed.
abbrev lines_weight : List Text → ℕ
lines_weight [] = 0
lines_weight (l ∷ ls) = suc (weight l) + lines_weight ls

lines_weight-split :
    (s : Text) → lines_weight ((split_lines s).0 ∷ (split_lines s).1) ≤ suc (weight s)
unfolding split_lines
lines_weight-split [] = omega arith
lines_weight-split (c ∷ s) = ground (arith, lines_weight-split s)

length-join_guarded :
    (l : Text) (ls : List Text)
    → length (join (lit "\n") (map guard_line (l ∷ ls))) < lines_weight (l ∷ ls)
unfolding join
length-join_guarded l [] = omega (arith, length-guard_line l)
length-join_guarded l (k ∷ ls) = omega (
  arith,
  length-append (guard_line l) (lit "\n" ++ join (lit "\n") (map guard_line (k ∷ ls))),
  length-guard_line l,
  length-join_guarded k ls,
)

-- Escaping at most doubles a text.
length-discord_escape : (s : Text) → length (discord_escape s) ≤ 2 * length s
unfolding discord_escape
length-discord_escape s =
    let e = replace_each escape_mark s in
    omega (
      arith,
      length-join_guarded (split_lines e).0 (split_lines e).1,
      lines_weight-split e,
      weight-replaced s,
    )

length-truncate : (u : Unicode) (s : Text) (max : ℕ) → 1 ≤ max → length (truncate u s max) ≤ max
unfolding truncate
length-truncate u s max h = elim (Bool-cases (leb (length s) max)) [
  | inl b ↦ rw b (ground arith)
  | inr b ↦ rw b (
      omega (
        arith,
        length-append (trim_space u (take (max - 1) s)) (lit "…"),
        trim_space-shorter u (take (max - 1) s),
        length-take (max - 1) s,
      ))
]

length-shown :
    (u : Unicode) (s : Text) (max : ℕ)
    → 1 ≤ max
    → length (discord_escape (truncate u s max)) ≤ 2 * max
length-shown u s max h =
    omega (arith, length-discord_escape (truncate u s max), length-truncate u s max h)

length-content :
    (a b : Text)
    → length a ≤ 200
    → length b ≤ 800
    → length (lit "**" ++ (a ++ (lit "** · " ++ b))) < 2000
length-content a b h k = omega (arith, length-append a (lit "** · " ++ b))

-- Whatever a message says, the text that is posted stays below the 2000 runes that Discord allows.
pub length-render-content : (u : Unicode) (m : Message) → length (render u m).content < 2000
unfolding render content_of
length-render-content u m =
    let title = if m.critical then lit "🚨 " ++ m.title else m.title in
    length-content (discord_escape (truncate u title 100))
      (discord_escape (truncate u m.headline headline_max)) (length-shown u title 100 (omega arith))
      (length-shown u m.headline headline_max (omega arith))
