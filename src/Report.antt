-- ===== src/Report.antt =====
-- cmd/events/main.go: the report on the reviews and the notifications of the audit store. What is printed
-- is a value here; the records are given, as the store's queries return them.
pub mod Delays
pub mod Order
pub mod Counts
pub mod Lines
mod Examples
pub mod Sound
use frigate_notifications.Prelude.{
  ℕ, zero, suc, ◌+◌, ◌-◌, ◌*◌, ◌/◌, ◌%◌, ◌==◌, Bool, true, false, ◌||◌, Option, none, some, List,
  [], ◌∷◌, ◌++◌, Text, text_eq, is_empty, lit, ltb, leb, take, length, get_elem?, map,
  if◌then◌else◌, Map, lookup, insert, Result, ok, err,
}
use frigate_notifications.Prelude.Int.{ℤ, pos, negsuc}
use frigate_notifications.Unicode.{Unicode}
use frigate_notifications.Config.{Preset, auto, text, liveview}
use frigate_notifications.Rules.{Phase}
use frigate_notifications.Phrase.{join}
use frigate_notifications.Records.{ReviewEventRecord}
use frigate_notifications.Environment.{NotificationRecord}

-- Of `main`: the camera of each review, by its id.
unfoldable pub cameras : List ReviewEventRecord → Map Text → Map Text
cameras [] m = m
cameras (r ∷ rs) m = cameras rs (insert r.review_id r.camera m)

abbrev or_text : Option Text → Text
or_text none = []
or_text (some t) = t

keep_camera : Map Text → Text → List NotificationRecord → List NotificationRecord
keep_camera m camera [] = []
keep_camera m camera (n ∷ ns) =
    let rest = keep_camera m camera ns in
    if text_eq (or_text (lookup n.review_id m)) camera then n ∷ rest else rest

-- The notifications of one camera, or all where no camera is asked for.
unfoldable pub of_camera :
    List ReviewEventRecord → Text → List NotificationRecord → List NotificationRecord
unfolding keep_camera cameras
of_camera reviews camera notes =
    if is_empty camera then notes else keep_camera (cameras reviews []) camera notes

-- Of `printNotifications`: ok, fail and dry.
pub record Totals : Type 0 where
  pub succeeded : ℕ
  pub failed : ℕ
  pub dry : ℕ

unfoldable pub add_total : NotificationRecord → Totals → Totals
add_total n t =
    if n.dry_run
    then record t { dry = suc t.dry }
    else if n.success
    then record t { succeeded = suc t.succeeded }
    else record t { failed = suc t.failed }

unfoldable pub totals_from : Totals → List NotificationRecord → Totals
unfolding add_total
totals_from t [] = t
totals_from t (n ∷ ns) = totals_from (add_total n t) ns

abbrev pub no_totals : Totals
no_totals = record { succeeded = 0; failed = 0; dry = 0 }

-- The notes listed as failures.
unfoldable pub failures : List NotificationRecord → List NotificationRecord
failures [] = []
failures (n ∷ ns) = let rest = failures ns in if n.success || n.dry_run then rest else n ∷ rest

-- What was sent to a recipient, and how much of it succeeded.
pub record Tally : Type 0 where
  pub sent : ℕ
  pub taken : ℕ

abbrev pub or_none_sent : Option Tally → Tally
or_none_sent none = record { sent = 0; taken = 0 }
or_none_sent (some t) = t

unfoldable pub add_tally : NotificationRecord → Tally → Tally
add_tally n t = record { sent = suc t.sent; taken = if n.success then suc t.taken else t.taken }

unfoldable pub per_recipient : List NotificationRecord → Map Tally → Map Tally
unfolding add_tally
per_recipient [] m = m
per_recipient (n ∷ ns) m =
    per_recipient ns (insert n.recipient (add_tally n (or_none_sent (lookup n.recipient m))) m)

-- Of `printLatency`: the earliest time by review.
unfoldable pub note_first : Text → ℕ → Map ℕ → Map ℕ
note_first id t m = elim (lookup id m) [
  | none ↦ insert id t m
  | some earlier ↦ if ltb t earlier then insert id t m else m
]

unfoldable pub first_review : List ReviewEventRecord → Map ℕ → Map ℕ
unfolding note_first
first_review [] m = m
first_review (r ∷ rs) m = first_review rs (note_first r.review_id r.received_at m)

unfoldable pub first_note : List NotificationRecord → Map ℕ → Map ℕ
unfolding note_first
first_note [] m = m
first_note (n ∷ ns) m = first_note ns (if n.dry_run then m else note_first n.review_id n.sent_at m)

-- The entries of `notes` in the order of the map; a note before its review has no delta.
unfoldable pub deltas : Map ℕ → Map ℕ → List ℕ
deltas reviews [] = []
deltas reviews ((id, nt) ∷ notes) =
    let rest = deltas reviews notes in
    elim (lookup id reviews) [
      | none ↦ rest
      | some rt ↦ if ltb nt rt then rest else (nt - rt) ∷ rest
    ]

unfoldable pub insert_delta : ℕ → List ℕ → List ℕ
insert_delta d [] = d ∷ []
insert_delta d (e ∷ es) = let later = e ∷ insert_delta d es in if leb d e then d ∷ e ∷ es else later

-- sort.Slice
unfoldable pub sort_deltas : List ℕ → List ℕ
unfolding insert_delta
sort_deltas [] = []
sort_deltas (d ∷ ds) = insert_delta d (sort_deltas ds)

-- An index out of range, where Go panics, gives none.
unfoldable pub pctile : List ℕ → ℕ → Option ℕ
pctile sorted p = get_elem? sorted (p * length sorted / 100)

abbrev pub millisecond : ℕ
millisecond = 1000000

-- d.Round(time.Millisecond): half of one goes up.
unfoldable pub round_ms : ℕ → ℕ
round_ms d =
    let r = d % millisecond in if ltb (r + r) millisecond then d - r else d + (millisecond - r)

pub record Latency : Type 0 where
  pub count : ℕ
  pub p50 : ℕ
  pub p90 : ℕ
  pub longest : ℕ

-- The indices are taken in turn; the first that is out of range ends the report.
unfoldable pub summary : List ℕ → Result Latency
unfolding pctile round_ms
summary sorted = elim (pctile sorted 50) [
  | none ↦ err
  | some p50 ↦ elim (pctile sorted 90) [
    | none ↦ err
    | some p90 ↦ elim (get_elem? sorted (length sorted - 1)) [
      | none ↦ err
      | some longest ↦ ok (record {
        count = length sorted;
        p50 = round_ms p50;
        p90 = round_ms p90;
        longest = round_ms longest;
      })
    ]
  ]
]

-- Every delta of the report, sorted.
unfoldable pub latencies : List ReviewEventRecord → List NotificationRecord → List ℕ
unfolding first_review first_note deltas sort_deltas
latencies reviews notes = sort_deltas (deltas (first_review reviews []) (first_note notes []))

abbrev pub summary_unless_empty : List ℕ → Result (Option Latency)
summary_unless_empty [] = ok none
summary_unless_empty (d ∷ ds) = elim (summary (d ∷ ds)) [ err ↦ err | ok l ↦ ok (some l) ]

unfoldable pub latency : List ReviewEventRecord → List NotificationRecord → Result (Option Latency)
unfolding latencies summary
latency reviews notes = summary_unless_empty (latencies reviews notes)

abbrev pub drop : ℕ → List NotificationRecord → List NotificationRecord
drop zero ns = ns
drop (suc k) [] = []
drop (suc k) (n ∷ ns) = drop k ns

-- Of `printRecent`: the last notes. A negative limit slices past the end, where Go panics.
unfoldable pub recent : ℤ → List NotificationRecord → Result (List NotificationRecord)
recent (pos limit) ns = ok (drop (length ns - limit) ns)
recent (negsuc k) ns = err

-- strings.Fields: the words of a text. The first of `words_from` is the word that is being read.
unfoldable pub words_from : Unicode → Text → Text × List Text
words_from u [] = ([], [])
words_from u (c ∷ s) =
    let (word, words) = words_from u s in
    if u.is_space c then ([], if is_empty word then words else word ∷ words) else (c ∷ word, words)

unfoldable pub fields : Unicode → Text → List Text
unfolding words_from
fields u s = let (word, words) = words_from u s in if is_empty word then words else word ∷ words

-- `max` is at least one in every call.
unfoldable pub one_line : Unicode → Text → ℕ → Text
unfolding fields join
one_line u s max =
    let line = join (lit " ") (fields u s) in
    if ltb max (length line) then take (max - 1) line ++ lit "…" else line
