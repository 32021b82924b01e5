-- ===== src/Phrase/Bounds.antt =====
-- internal/notifier/presets.go: how long a truncated text can be.
use frigate_notifications.Prelude.{
  ℕ, ◌+◌, ◌≤◌, Option, none, some, Text, length, take, length-append, leb, Bool-cases, inl, inr,
  arith,
}
use frigate_notifications.Unicode.{Unicode, trim_space}
use frigate_notifications.Unicode.Shorter.{length-take, take-shorter, trim_space-shorter}
use frigate_notifications.Phrase.{truncate_words, back_up, last_space_from, ellipsis}

module _ (u : Unicode) where
  back_up-shorter :
      (max : ℕ) (cut : Text) (o : Option ℕ) → length (back_up u max cut o) ≤ length cut
  back_up-shorter max cut none = omega arith
  back_up-shorter max cut (some i) = ground (arith, take-shorter i cut)

  -- A truncated text has at most `max` code points, and the ellipsis if it was cut.
  pub length-truncate_words : (s : Text) (max : ℕ) → length (truncate_words u s max) ≤ max + 1
  unfolding truncate_words
  length-truncate_words s max =
      let r = trim_space u s in
      let cut = back_up u max (take max r) (last_space_from u 0 (take max r) none) in
      elim (Bool-cases (leb (length r) max)) [
        | inl short ↦ rw short (ground arith)
        | inr long ↦ rw long (
            omega (
              arith,
              length-append (trim_space u cut) ellipsis,
              trim_space-shorter u cut,
              back_up-shorter max (take max r) (last_space_from u 0 (take max r) none),
              length-take max r,
            ))
      ]
