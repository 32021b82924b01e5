-- ===== src/Media/Proxy/Authentic.antt =====
-- internal/media/media.go: what a link that is verified has.
use frigate_notifications.Prelude.{
  ℕ, ◌+◌, ◌*◌, ◌<◌, ◌≡◌, inl, inr, sym, true, some, Text, text_eq, eq_of_text_eq, Bool-cases,
  Option-cases, arith,
}
use frigate_notifications.Prelude.Int.{ℤ, pos, negsuc}
use frigate_notifications.Clock.{second}
use frigate_notifications.Media.{Kind, accepts, parse_int, sign, Signer, valid, verify}

-- The signature is the signer's own for the kind, the id and the second that the link ends, which is
-- `remaining` nanoseconds away.
pub record IsSigned (s : Signer) (now : ℕ) (k : Kind) (id exp sig : Text) (remaining : ℕ)
    : Type 0 where
  pub admitted : accepts k id ≡ true
  pub end : ℕ
  pub reads : parse_int exp ≡ some (pos end)
  pub same : sig ≡ sign s k id (pos end)
  pub lasts : 0 < remaining
  pub left : now + remaining ≡ end * second

module _ (s : Signer) (now : ℕ) where
  expiry-IsSigned :
      (k : Kind) (id exp sig : Text) (end : ℤ) (remaining : ℕ)
      → accepts k id ≡ true
      → parse_int exp ≡ some end
      → text_eq (sign s k id end) sig ≡ true
      → verify s k id exp sig now ≡ valid remaining
      → IsSigned s now k id exp sig remaining
  unfolding verify
  expiry-IsSigned k id exp sig (negsuc n) remaining a r g h = absurd (ground arith)
  expiry-IsSigned k id exp sig (pos end) remaining a r g h = record {
    admitted = a;
    end = end;
    reads = r;
    same = sym (eq_of_text_eq (sign s k id (pos end)) sig g);
    lasts = ground arith;
    left = ground arith;
  }

  -- A link that is verified has the signer's signature.
  pub verify-IsSigned :
      (k : Kind) (id exp sig : Text) (remaining : ℕ)
      → verify s k id exp sig now ≡ valid remaining
      → IsSigned s now k id exp sig remaining
  unfolding verify
  verify-IsSigned k id exp sig remaining h = elim (Bool-cases (accepts k id)) [
    | inr b ↦ absurd (ground arith)
    | inl a ↦ elim (Option-cases (parse_int exp)) [
      | inl e ↦ absurd (ground arith)
      | inr (end, e) ↦ elim (Bool-cases (text_eq (sign s k id end) sig)) [
        | inr b ↦ absurd (ground arith)
        | inl b ↦ expiry-IsSigned k id exp sig end remaining a e b h
      ]
    ]
  ]
