-- ===== src/Unicode/Shorter.antt =====
-- Cutting and trimming make no text longer, and leave only runes that were there.
use frigate_notifications.Prelude.{
  ℕ, zero, suc, ◌≤◌, inl, inr, [], ◌∷◌, Text, All, length, take, Bool-cases, arith,
}
use frigate_notifications.Unicode.{Unicode, keep, trim_left, trim_right, trim_space}

pub length-take : (n : ℕ) (t : Text) → length (take n t) ≤ n
length-take zero t = omega arith
length-take (suc n) [] = omega arith
length-take (suc n) (c ∷ t) = omega (arith, length-take n t)

pub take-shorter : (n : ℕ) (t : Text) → length (take n t) ≤ length t
take-shorter zero t = omega arith
take-shorter (suc n) [] = omega arith
take-shorter (suc n) (c ∷ t) = omega (arith, take-shorter n t)

module _ (u : Unicode) where
  trim_left-shorter : (t : Text) → length (trim_left u t) ≤ length t
  unfolding trim_left
  trim_left-shorter [] = omega arith
  trim_left-shorter (c ∷ t) = ground (arith, trim_left-shorter t)

  trim_right-shorter : (t : Text) → length (trim_right u t) ≤ length t
  unfolding trim_right
  trim_right-shorter [] = omega arith
  trim_right-shorter (c ∷ t) = ground (arith, trim_right-shorter t)

  pub trim_space-shorter : (t : Text) → length (trim_space u t) ≤ length t
  unfolding trim_space
  trim_space-shorter t = omega (arith, trim_right-shorter (trim_left u t), trim_left-shorter t)

  module _ (P : ℕ → Type 0) where
    trim_left-All : (t : Text) → All P t → All P (trim_left u t)
    unfolding trim_left
    trim_left-All [] h = tt
    trim_left-All (c ∷ t) h = elim (Bool-cases (u.is_space c)) [
      | inl b ↦ rw b (trim_left-All t h.1)
      | inr b ↦ rw b h
    ]

    keep-All : (c : ℕ) (t : Text) → P c → All P t → All P (keep u c t)
    keep-All c [] p h = elim (Bool-cases (u.is_space c)) [ inl b ↦ rw b tt | inr b ↦ rw b (p, tt) ]
    keep-All c (d ∷ t) p h = (p, h)

    trim_right-All : (t : Text) → All P t → All P (trim_right u t)
    unfolding trim_right
    trim_right-All [] h = tt
    trim_right-All (c ∷ t) h = keep-All c (trim_right u t) h.0 (trim_right-All t h.1)

    pub trim_space-All : (t : Text) → All P t → All P (trim_space u t)
    unfolding trim_space
    trim_space-All t h = trim_right-All (trim_left u t) (trim_left-All t h)
