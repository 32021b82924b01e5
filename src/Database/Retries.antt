-- ===== src/Database/Retries.antt =====
-- internal/db/db.go: the loop of `retryUntil` ends, and how long it waits.
use frigate_notifications.Prelude.{
  ℕ, zero, suc, ◌+◌, ◌*◌, ◌≤◌, ◌<◌, ◌≡◌, refl, ap, ◌∙◌, inl, inr, Bool, true, false, Option, some,
  List, ◌∷◌, All, length, Bool-cases, arith,
}
use frigate_notifications.Database.{retry_from, retry_until, min}

-- The loop has stopped with `b`, after at most `n` waits between `lo` and `hi`.
pub record Reports (lo hi n : ℕ) (b : Bool) (out : Option Bool × List ℕ) : Type 0 where
  pub reported : out.0 ≡ some b
  pub few : length out.1 ≤ n
  pub short : All (λ w. (lo ≤ w) × (w ≤ hi)) out.1

-- One wait more.
Reports-wait :
    {lo hi n w : ℕ} {b : Bool} (reports : Option Bool) (waits : List ℕ)
    → (lo ≤ w) × (w ≤ hi)
    → Reports lo hi n b (reports, waits)
    → Reports lo hi (suc n) b (reports, w ∷ waits)
Reports-wait reports waits h r =
    let few = r.few in record { reported = r.reported; few = omega arith; short = (h, r.short) }

module _ (lo hi : ℕ) (ordered : lo ≤ hi) (ended works : ℕ → Bool) where
  -- From the attempt `k` on, with `n` more before `m`, which works.
  retry_from-Reports :
      (n m fuel k wait : ℕ)
      → (lo ≤ wait) × (wait ≤ hi)
      → n < fuel
      → ((i : ℕ) → i ≤ m → ended i ≡ false)
      → works m ≡ true
      → n + k ≡ m
      → Reports lo hi (suc n) true (retry_from hi ended works fuel k wait)
  unfolding retry_from
  retry_from-Reports n m zero k wait h f e w at = absurd (omega arith)
  retry_from-Reports zero m (suc fuel) k wait h f e w at =
      let k_is_m : k ≡ m = omega (arith, at) in
      rw (e k (omega arith), ap works k_is_m ∙ w)
        (record { reported = refl; few = omega arith; short = (h, tt) })
  retry_from-Reports (suc n) m (suc fuel) k wait h f e w at =
      rw (e k (omega arith)) (elim (Bool-cases (works k)) [
        | inl b ↦ rw b (record { reported = refl; few = omega arith; short = (h, tt) })
        | inr b ↦ rw b (
            Reports-wait _ _ h (
              retry_from-Reports n m fuel (suc k) (min (wait * 2) hi) (ground arith) (omega arith) e
                w (omega arith)))
      ])

  -- Where the attempt number `n` works and the context has not ended by then, `retryUntil` reports
  -- success after at most n + 1 waits, each between the first wait and the longest; a fuel of more than
  -- `n` is enough.
  pub retry_until-Reports :
      (n fuel : ℕ)
      → n < fuel
      → ((i : ℕ) → i ≤ n → ended i ≡ false)
      → works n ≡ true
      → Reports lo hi (suc n) true (retry_until hi ended works fuel lo)
  unfolding retry_until
  retry_until-Reports n fuel f e w =
      retry_from-Reports n n fuel 0 lo ((omega arith), ordered) f e w (omega arith)
