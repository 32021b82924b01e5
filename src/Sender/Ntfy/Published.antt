-- ===== src/Sender/Ntfy/Published.antt =====
-- internal/sender/ntfy.go: the ids of notifications, and how often a notification is tried.
use frigate_notifications.Prelude.{
  ℕ, zero, suc, ◌+◌, ◌≤◌, ◌<◌, ◌≡◌, ◌∙◌, ap, inl, inr, refl, Bool, true, false, [], ◌∷◌, map, All,
  Text, take, length, leb, if◌then◌else◌, Result, Bool-cases, arith,
}
use frigate_notifications.Unicode.Shorter.{length-take}
use frigate_notifications.Sender.{Response}
use frigate_notifications.Sender.Ntfy.{
  id_rune, sequence_id, Try, over, again, judge, attempts, send_from, send,
}

-- What ntfy takes as an id.
pub record IsSequenceId (t : Text) : Type 0 where
  pub short : length t ≤ 64
  pub plain : All (λ r. id_rune r ≡ true) t

safe_rune : (r : ℕ) → id_rune (if id_rune r then r else b'_') ≡ true
safe_rune r = elim (Bool-cases (id_rune r)) [ inl b ↦ rw (b, b) refl | inr b ↦ rw b refl ]

plain-take :
    (n : ℕ) (t : Text)
    → All (λ r. id_rune r ≡ true) (take n (map (λ r. if id_rune r then r else b'_') t))
plain-take zero t = tt
plain-take (suc n) [] = tt
plain-take (suc n) (r ∷ t) = (safe_rune r, plain-take n t)

-- Whatever the tag of a review, its id is one that ntfy takes.
pub sequence_id-IsSequenceId : (tag : Text) → IsSequenceId (sequence_id tag)
unfolding sequence_id
sequence_id-IsSequenceId tag = record { short = length-take 64 _; plain = plain-take 64 tag }

-- The tries from `k` up to `tries`, of which the last one decided.
pub record Tried (reply : ℕ → Result Response) (k left : ℕ) (out : Bool × ℕ) : Type 0 where
  pub few : out.1 ≤ left + k
  pub earlier : (i : ℕ) → k ≤ i → suc i < out.1 → judge (reply i) ≡ again
  pub last : out.0 ≡ true → (i : ℕ) × (suc i ≡ out.1) × (judge (reply i) ≡ over true)

module _ (reply : ℕ → Result Response) (ended : ℕ → Bool) where
  -- One try, given how the rest goes.
  Tried-step :
      (k left : ℕ) (t : Try) (stop : Bool) (rest : Bool × ℕ)
      → judge (reply k) ≡ t
      → Tried reply (suc k) left rest
      → Tried reply k (suc left) (elim t [
        | over published ↦ (published, suc k)
        | again ↦ if stop then (false, suc k) else rest
      ])
  Tried-step k left (over p) stop rest e r = record {
    few = omega arith;
    earlier = λ i h l. absurd (omega arith);
    last = λ q. (k, refl, e ∙ ap over q);
  }
  Tried-step k left again true rest e r = record {
    few = omega arith;
    earlier = λ i h l. absurd (omega arith);
    last = λ q. absurd cc;
  }
  Tried-step k left again false rest e r =
      let few = r.few in
      record {
        few = omega arith;
        earlier = λ i h l. elim (Bool-cases (leb i k)) [
          | inl b ↦ let same : i ≡ k = ground arith in ap (λ j. judge (reply j)) same ∙ e
          | inr b ↦ r.earlier i (ground arith) l
        ];
        last = r.last;
      }

  send_from-Tried : (left k : ℕ) → Tried reply k left (send_from reply ended left k)
  unfolding send_from
  send_from-Tried zero k = record {
    few = omega arith;
    earlier = λ i h l. absurd (omega arith);
    last = λ e. absurd cc;
  }
  send_from-Tried (suc left) k =
      Tried-step k left (judge (reply k)) _ _ refl (send_from-Tried left (suc k))

  -- A notification is tried three times at most; every try but the last had an answer that may change,
  -- and where it counts as published the last one was answered well.
  pub send-Tried : Tried reply 0 attempts (send reply ended)
  unfolding send
  send-Tried = send_from-Tried attempts 0
