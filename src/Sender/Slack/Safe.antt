-- ===== src/Sender/Slack/Safe.antt =====
-- internal/sender/slack.go: what `slackSafe` and `slackFit` let through.
use frigate_notifications.Prelude.{
  ℕ, ◌+◌, ◌-◌, ◌≤◌, ◌≢◌, inl, inr, [], ◌∷◌, All, All-append, Text, lit, length, length-append, ltb,
  leb, Bool-cases, arith,
}
use frigate_notifications.Unicode.{Unicode, trim_space}
use frigate_notifications.Unicode.Shorter.{trim_space-shorter, trim_space-All}
use frigate_notifications.Sender.Slack.{
  replace_each, escape_rune, swap_rune, slack_escape, slack_safe, fit_from, slack_fit,
}

-- No rune that mrkdwn reads as a mark, a link or a mention.
pub record IsInert (c : ℕ) : Type 0 where
  pub opens : c ≢ b'<'
  pub closes : c ≢ b'>'
  pub bold : c ≢ b'*'
  pub italic : c ≢ b'_'
  pub struck : c ≢ b'~'
  pub code : c ≢ b'`'

abbrev NoAngle : ℕ → Type 0
NoAngle c = (c ≢ b'<') × (c ≢ b'>')

replace_each-All :
    (P Q : ℕ → Type 0) (f : ℕ → Text) (s : Text)
    → ((c : ℕ) → P c → All Q (f c))
    → All P s
    → All Q (replace_each f s)
replace_each-All P Q f [] h all = tt
replace_each-All P Q f (c ∷ s) h all =
    All-append Q (f c) (replace_each f s) (h c all.0) (replace_each-All P Q f s h all.1)

escape_rune-All : (c : ℕ) → Unit {0} → All NoAngle (escape_rune c)
escape_rune-All c h = ground arith

swap_rune-All : (c : ℕ) → NoAngle c → All IsInert (swap_rune c)
swap_rune-All c h = grind arith

all_runes : (s : Text) → All (λ c. Unit {0}) s
all_runes [] = tt
all_runes (c ∷ s) = (tt, all_runes s)

slack_safe-All : (s : Text) → All IsInert (slack_safe s)
unfolding slack_safe slack_escape
slack_safe-All s =
    replace_each-All NoAngle IsInert swap_rune (slack_escape s) swap_rune-All
      (replace_each-All (λ c. Unit {0}) NoAngle escape_rune s escape_rune-All (all_runes s))

fit_from-All : (max n : ℕ) (s : Text) → All IsInert (fit_from max n s)
unfolding fit_from
fit_from-All max n [] = tt
fit_from-All max n (c ∷ s) = elim (Bool-cases (ltb (max - 1) (n + length (slack_safe (c ∷ []))))) [
  | inl b ↦ rw b tt
  | inr b ↦ rw b (
      All-append IsInert (slack_safe (c ∷ [])) _ (slack_safe-All (c ∷ []))
        (fit_from-All max (n + length (slack_safe (c ∷ []))) s))
]

length-fit_from : (max n : ℕ) (s : Text) → n ≤ max - 1 → n + length (fit_from max n s) ≤ max - 1
unfolding fit_from
length-fit_from max n [] h = omega arith
length-fit_from max n (c ∷ s) h =
    let piece = slack_safe (c ∷ []) in
    elim (Bool-cases (ltb (max - 1) (n + length piece))) [
      | inl b ↦ rw b (omega arith)
      | inr b ↦
          let rest = length-fit_from max (n + length piece) s (ground arith) in
          rw b (omega (arith, rest, length-append piece (fit_from max (n + length piece) s)))
    ]

-- Room for a field: at most `max` runes, and none that mrkdwn reads.
pub record Fits (max : ℕ) (t : Text) : Type 0 where
  pub room : length t ≤ max
  pub inert : All IsInert t

ellipsis-All : All IsInert (lit "…")
ellipsis-All = (
  record {
    opens = omega arith;
    closes = omega arith;
    bold = omega arith;
    italic = omega arith;
    struck = omega arith;
    code = omega arith;
  },
  tt,
)

-- Whatever the text, `slackFit` gives at most `max` runes, where that is at least one, and none that opens or closes a link or a
-- mention, or that changes how the text looks.
pub slack_fit-Fits : (u : Unicode) (s : Text) (max : ℕ) → 1 ≤ max → Fits max (slack_fit u s max)
unfolding slack_fit
slack_fit-Fits u s max h = elim (Bool-cases (leb (length (slack_safe s)) max)) [
  | inl b ↦ rw b (record { room = ground arith; inert = slack_safe-All s })
  | inr b ↦
      let cut = fit_from max 0 s in
      rw b (record {
        room = omega (
          arith,
          length-append (trim_space u cut) (lit "…"),
          trim_space-shorter u cut,
          length-fit_from max 0 s (omega arith),
        );
        inert =
            All-append IsInert (trim_space u cut) (lit "…")
              (trim_space-All u IsInert cut (fit_from-All max 0 s)) ellipsis-All;
      })
]
