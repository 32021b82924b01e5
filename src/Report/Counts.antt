-- ===== src/Report/Counts.antt =====
-- cmd/events/main.go: the counts of the report.
use frigate_notifications.Prelude.{
  ℕ, suc, ◌+◌, ◌≡◌, refl, ap, Bool, not, ◌&&◌, Bool-cases, inl, inr, List, [], ◌∷◌, Text, text_eq,
  length, if◌then◌else◌, Map, lookup, insert, lookup-insert, eq_of_text_eq, arith,
}
use frigate_notifications.Environment.{NotificationRecord}
use frigate_notifications.Report.{
  Totals, Tally, add_total, totals_from, no_totals, failures, add_tally, per_recipient,
  or_none_sent,
}

-- How many notes a test holds of.
abbrev pub count : (NotificationRecord → Bool) → List NotificationRecord → ℕ
count p [] = 0
count p (n ∷ ns) = if p n then suc (count p ns) else count p ns

abbrev pub to_recipient : Text → NotificationRecord → Bool
to_recipient k n = text_eq n.recipient k

abbrev pub taken_by : Text → NotificationRecord → Bool
taken_by k n = text_eq n.recipient k && n.success

-- What the report says of each recipient, and in all.
pub record IsCounted (notes : List NotificationRecord) (t : Totals) (m : Map Tally) : Type 0 where
  pub all_counted : t.succeeded + t.failed + t.dry ≡ length notes
  pub dry_counted : t.dry ≡ count (λ n. n.dry_run) notes
  pub succeeded_counted : t.succeeded ≡ count (λ n. not n.dry_run && n.success) notes
  pub failed_listed : t.failed ≡ length (failures notes)
  pub sent_counted : (k : Text) → (or_none_sent (lookup k m)).sent ≡ count (to_recipient k) notes
  pub taken_counted : (k : Text) → (or_none_sent (lookup k m)).taken ≡ count (taken_by k) notes

total-counted :
    (ns : List NotificationRecord) (t : Totals)
    → (totals_from t ns).succeeded + (totals_from t ns).failed + (totals_from t ns).dry
      ≡ t.succeeded + t.failed + t.dry + length ns
unfolding totals_from add_total
total-counted [] t = omega arith
total-counted (n ∷ ns) t = ground (arith, total-counted ns (add_total n t))

dry-counted :
    (ns : List NotificationRecord) (t : Totals)
    → (totals_from t ns).dry ≡ t.dry + count (λ n. n.dry_run) ns
unfolding totals_from add_total
dry-counted [] t = omega arith
dry-counted (n ∷ ns) t = ground (arith, dry-counted ns (add_total n t))

succeeded-counted :
    (ns : List NotificationRecord) (t : Totals)
    → (totals_from t ns).succeeded ≡ t.succeeded + count (λ n. not n.dry_run && n.success) ns
unfolding totals_from add_total
succeeded-counted [] t = omega arith
succeeded-counted (n ∷ ns) t = ground (arith, succeeded-counted ns (add_total n t))

failed-listed :
    (ns : List NotificationRecord) (t : Totals)
    → (totals_from t ns).failed ≡ t.failed + length (failures ns)
unfolding totals_from add_total failures
failed-listed [] t = omega arith
failed-listed (n ∷ ns) t = ground (arith, failed-listed ns (add_total n t))

-- Counting a note adds one to its recipient's tally and to no other.
lookup-add_tally :
    (k : Text) (n : NotificationRecord) (m : Map Tally)
    → or_none_sent
        (lookup k (insert n.recipient (add_tally n (or_none_sent (lookup n.recipient m))) m))
      ≡ (if text_eq n.recipient k
          then add_tally n (or_none_sent (lookup k m))
          else or_none_sent (lookup k m))
lookup-add_tally k n m = elim (Bool-cases (text_eq n.recipient k)) [
  | inl b ↦
      rw (lookup-insert n.recipient k (add_tally n (or_none_sent (lookup n.recipient m))) m, b)
        (ap (λ j. add_tally n (or_none_sent (lookup j m))) (eq_of_text_eq n.recipient k b))
  | inr b ↦
      rw (lookup-insert n.recipient k (add_tally n (or_none_sent (lookup n.recipient m))) m, b) refl
]

sent-counted :
    (k : Text) (ns : List NotificationRecord) (m : Map Tally)
    → (or_none_sent (lookup k (per_recipient ns m))).sent
      ≡ (or_none_sent (lookup k m)).sent + count (to_recipient k) ns
unfolding per_recipient add_tally
sent-counted k [] m = omega arith
sent-counted k (n ∷ ns) m = ground (
  arith,
  lookup-add_tally k n m,
  sent-counted k ns (insert n.recipient (add_tally n (or_none_sent (lookup n.recipient m))) m),
)

taken-counted :
    (k : Text) (ns : List NotificationRecord) (m : Map Tally)
    → (or_none_sent (lookup k (per_recipient ns m))).taken
      ≡ (or_none_sent (lookup k m)).taken + count (taken_by k) ns
unfolding per_recipient add_tally
taken-counted k [] m = omega arith
taken-counted k (n ∷ ns) m = ground (
  arith,
  lookup-add_tally k n m,
  taken-counted k ns (insert n.recipient (add_tally n (or_none_sent (lookup n.recipient m))) m),
)

-- The report counts each note once: as ok, failed or dry, where it is dry if it was a dry run, whatever
-- it says of success; those counted as failed are the ones listed as failures; and each recipient's figures are the numbers of notes to it and of those that
-- succeeded.
pub totals-IsCounted :
    (notes : List NotificationRecord)
    → IsCounted notes (totals_from no_totals notes) (per_recipient notes [])
unfolding lookup
totals-IsCounted notes = record {
  all_counted = omega (arith, total-counted notes no_totals);
  dry_counted = omega (arith, dry-counted notes no_totals);
  succeeded_counted = omega (arith, succeeded-counted notes no_totals);
  failed_listed = omega (arith, failed-listed notes no_totals);
  sent_counted = λ k. omega (arith, sent-counted k notes []);
  taken_counted = λ k. omega (arith, taken-counted k notes []);
}
