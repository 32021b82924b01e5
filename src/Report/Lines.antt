-- ===== src/Report/Lines.antt =====
-- cmd/events/main.go: the length of a text on one line.
use frigate_notifications.Prelude.{
  ℕ, zero, suc, ◌-◌, ◌≤◌, ◌≡◌, ◌⊎◌, refl, false, Bool-cases, inl, inr, List, [], ◌∷◌, Text, lit,
  ltb, take, if◌then◌else◌, length, is_empty, All, All-append, All-map, length-append, arith,
}
use frigate_notifications.Unicode.{Unicode}
use frigate_notifications.Unicode.Shorter.{length-take}
use frigate_notifications.Phrase.{join}
use frigate_notifications.Report.{words_from, fields, one_line}

module _ (u : Unicode) where
  -- No rune of white space.
  abbrev IsWord : Text → Type 0
  IsWord s = All (λ c. u.is_space c ≡ false) s

  -- A blank, the ellipsis, or no white space: so neither a line break nor a tab.
  abbrev pub IsInLine : ℕ → Type 0
  IsInLine c = (c ≡ b' ') ⊎ ((c ≡ 8230) ⊎ (u.is_space c ≡ false))

  added-AreWords :
      (word : Text) (words : List Text)
      → IsWord word
      → All IsWord words
      → All IsWord (if is_empty word then words else word ∷ words)
  added-AreWords [] words h hs = hs
  added-AreWords (c ∷ word) words h hs = (h, hs)

  words_from-AreWords : (s : Text) → IsWord (words_from u s).0 × All IsWord (words_from u s).1
  unfolding words_from
  words_from-AreWords [] = (tt, tt)
  words_from-AreWords (c ∷ s) =
      let rest = words_from-AreWords s in
      elim (Bool-cases (u.is_space c)) [
        | inl b ↦
            rw (b, IsWord) (tt, added-AreWords (words_from u s).0 (words_from u s).1 rest.0 rest.1)
        | inr b ↦ rw (b, IsWord) ((b, rest.0), rest.1)
      ]

  fields-AreWords : (s : Text) → All IsWord (fields u s)
  unfolding fields
  fields-AreWords s =
      let h = words_from-AreWords s in added-AreWords (words_from u s).0 (words_from u s).1 h.0 h.1

  in_line : (s : Text) → IsWord s → All IsInLine s
  in_line s h = All-map (λ c. u.is_space c ≡ false) IsInLine s (λ c e. inr (inr e)) h

  join-InLine : (words : List Text) → All IsWord words → All IsInLine (join (lit " ") words)
  unfolding join
  join-InLine [] h = tt
  join-InLine (w ∷ []) h = in_line w h.0
  join-InLine (w ∷ v ∷ rest) h =
      All-append IsInLine w (b' ' ∷ join (lit " ") (v ∷ rest)) (in_line w h.0)
        (inl refl, join-InLine (v ∷ rest) h.1)

  take-All : (P : ℕ → Type 0) (n : ℕ) (s : Text) → All P s → All P (take n s)
  take-All P zero s h = tt
  take-All P (suc n) [] h = tt
  take-All P (suc n) (c ∷ s) h = (h.0, take-All P n s h.1)

  pub record IsLine (n : ℕ) (s : Text) : Type 0 where
    pub bounded : length s ≤ n
    pub in_one : All IsInLine s

  -- A text is shown on one line of at most `max` runes, where that is at least one: it has no white
  -- space but blanks.
  pub one_line-IsLine : (s : Text) (max : ℕ) → 1 ≤ max → IsLine max (one_line u s max)
  unfolding one_line
  one_line-IsLine s max le =
      let line = join (lit " ") (fields u s) in
      let plain = join-InLine (fields u s) (fields-AreWords s) in
      elim (Bool-cases (ltb max (length line))) [
        | inl b ↦
            rw (one_line, b)
              (record {
                bounded = omega (
                  arith,
                  length-append (take (max - 1) line) (lit "…"),
                  length-take (max - 1) line,
                );
                in_one =
                    All-append IsInLine (take (max - 1) line) (lit "…")
                      (take-All IsInLine (max - 1) line plain) (inr (inl refl), tt);
              })
        | inr b ↦ rw (one_line, b) (record { bounded = ground arith; in_one = plain })
      ]
