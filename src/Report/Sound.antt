-- ===== src/Report/Sound.antt =====
-- cmd/events/main.go: the report on delays as a whole.
use frigate_notifications.Prelude.{
  ℕ, suc, ◌≤◌, ◌-◌, ◌*◌, ◌/◌, ◌≡◌, refl, sym, Option, none, some, List, [], ◌∷◌, length, get_elem?,
  All, Result, ok, err, arith,
}
use mathlib.Core.Path.{subst}
use mathlib.Core.List.{Memᴰ}
use frigate_notifications.Records.{ReviewEventRecord}
use frigate_notifications.Environment.{NotificationRecord}
use frigate_notifications.Report.{
  first_review, first_note, deltas, sort_deltas, pctile, round_ms, Latency, summary,
  summary_unless_empty, latencies, latency,
}
use frigate_notifications.Report.Delays.{IsDelay, found_deltas-AreDelays, delay-delta}
use frigate_notifications.Report.Order.{
  IsAscending, sort_deltas-All, sort_deltas-Mem, sort_deltas-IsAscending, get_elem?-All, All-Mem,
  get_elem?-ascending, get_elem?-within, last-most, round_ms_mono,
}

-- A figure of the report is a delay to the millisecond.
abbrev pub IsFigure : (ℕ → Type 0) → ℕ → Type 0
IsFigure P n = (d : ℕ) × P d × (n ≡ round_ms d)

pub record IsSummary (P : ℕ → Type 0) (l : Latency) : Type 0 where
  pub p50-figure : IsFigure P l.p50
  pub p90-figure : IsFigure P l.p90
  pub longest-figure : IsFigure P l.longest
  pub p50_least : l.p50 ≤ l.p90
  pub p90_most : l.p90 ≤ l.longest
  pub longest-most : (d : ℕ) → P d → round_ms d ≤ l.longest

-- Nothing is reported where there is no delay, and otherwise a summary; no index is out of range.
abbrev pub IsOutcome : (ℕ → Type 0) → Result (Option Latency) → Type 0
IsOutcome P err = ⊥
IsOutcome P (ok none) = (d : ℕ) → ¬ P d
IsOutcome P (ok (some l)) = IsSummary P l

-- What the summary is where its three indices are in range.
summary-figures :
    (ds : List ℕ) (a b z : ℕ)
    → pctile ds 50 ≡ some a
    → pctile ds 90 ≡ some b
    → get_elem? ds (length ds - 1) ≡ some z
    → summary ds
      ≡ ok (record { count = length ds; p50 = round_ms a; p90 = round_ms b; longest = round_ms z })
unfolding summary pctile
summary-figures ds a b z e f g = rw (summary, pctile, e, f, g) refl

printed :
    (P : ℕ → Type 0) (c : ℕ) (cs : List ℕ) (l : Latency)
    → summary (c ∷ cs) ≡ ok l
    → IsSummary P l
    → IsOutcome P (summary_unless_empty (c ∷ cs))
printed P c cs l e s =
    let same : summary_unless_empty (c ∷ cs) ≡ ok (some l) = rw (summary_unless_empty, e) refl in
    subst (IsOutcome P) (sym same) s

IsAscending-IsSummary :
    (P : ℕ → Type 0) (ds : List ℕ) (n a b z : ℕ)
    → All P ds
    → ((d : ℕ) → P d → Memᴰ d ds)
    → IsAscending ds
    → length ds ≡ suc n
    → get_elem? ds (50 * length ds / 100) ≡ some a
    → get_elem? ds (90 * length ds / 100) ≡ some b
    → get_elem? ds n ≡ some z
    → IsSummary P
        (record { count = length ds; p50 = round_ms a; p90 = round_ms b; longest = round_ms z })
IsAscending-IsSummary P ds n a b z all mem asc long e f g = record {
  p50-figure = (a, get_elem?-All P ds (50 * length ds / 100) a all e, refl);
  p90-figure = (b, get_elem?-All P ds (90 * length ds / 100) b all f, refl);
  longest-figure = (z, get_elem?-All P ds n z all g, refl);
  p50_least = round_ms_mono a b (
      get_elem?-ascending ds (50 * length ds / 100) (90 * length ds / 100) a b asc (omega arith) e
        f);
  p90_most =
      round_ms_mono b z
        (get_elem?-ascending ds (90 * length ds / 100) n b z asc (omega (arith, long)) f g);
  longest-most =
      λ d p. round_ms_mono d z (All-Mem (λ c. c ≤ z) ds d (last-most ds n z asc long g) (mem d p));
}

summary-IsOutcome :
    (P : ℕ → Type 0) (ds : List ℕ)
    → All P ds
    → ((d : ℕ) → P d → Memᴰ d ds)
    → IsAscending ds
    → IsOutcome P (summary_unless_empty ds)
unfolding pctile
summary-IsOutcome P [] all mem asc = λ d p. elim (mem d p) [ ]
summary-IsOutcome P (c ∷ cs) all mem asc =
    let n = length cs in
    let (a, at_50) = get_elem?-within (c ∷ cs) (50 * suc n / 100) (omega arith) in
    let (b, at_90) = get_elem?-within (c ∷ cs) (90 * suc n / 100) (omega arith) in
    let (z, at_end) = get_elem?-within (c ∷ cs) n (omega arith) in
    let end : suc n - 1 ≡ n = omega arith in
    let at_last : get_elem? (c ∷ cs) (suc n - 1) ≡ some z = rw end at_end in
    printed P c cs _ (summary-figures (c ∷ cs) a b z at_50 at_90 at_last)
      (IsAscending-IsSummary P (c ∷ cs) n a b z all mem asc refl at_50 at_90 at_end)

-- The report on delays never indexes out of range. It is left out exactly where no review has a delay,
-- the time from its earliest record to its first note that was no dry run. Otherwise its three figures
-- are such delays, rounded to the millisecond, in order, and no delay rounds to more than the last.
pub latency-IsOutcome :
    (reviews : List ReviewEventRecord) (notes : List NotificationRecord)
    → IsOutcome (IsDelay reviews notes) (latency reviews notes)
unfolding latency latencies
latency-IsOutcome reviews notes =
    let ds = deltas (first_review reviews []) (first_note notes []) in
    summary-IsOutcome (IsDelay reviews notes) (sort_deltas ds)
      (sort_deltas-All (IsDelay reviews notes) ds (found_deltas-AreDelays reviews notes))
      (λ d h. sort_deltas-Mem d ds (delay-delta reviews notes d h)) (sort_deltas-IsAscending ds)
