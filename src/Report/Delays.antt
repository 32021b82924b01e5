-- ===== src/Report/Delays.antt =====
-- cmd/events/main.go: the report's delays, against the earliest times of each review.
use frigate_notifications.Prelude.{
  ℕ, ◌≤◌, ◌-◌, ◌≡◌, refl, sym, ap, ◌∙◌, true, false, Bool-cases, Option, none, Option-cases, inl,
  inr, some, List, [], ◌∷◌, Text, text_eq, text_eq_iff, text_eq_refl, eq_of_text_eq, ltb, All,
  if◌then◌else◌, Map, lookup, insert, lookup-insert, IsUnique, insert-IsUnique, arith,
}
use mathlib.Core.Logic.{◌⊎◌}
use mathlib.Core.Path.{subst}
use mathlib.Core.List.{Memᴰ}
use frigate_notifications.Records.{ReviewEventRecord}
use frigate_notifications.Environment.{NotificationRecord}
use frigate_notifications.Report.{note_first, first_review, first_note, deltas}

-- The reviews' times, and the times of what was really sent, by review.
abbrev pub received : List ReviewEventRecord → List (Text × ℕ)
received [] = []
received (r ∷ rs) = (r.review_id, r.received_at) ∷ received rs

abbrev pub really_sent : List NotificationRecord → List (Text × ℕ)
really_sent [] = []
really_sent (n ∷ ns) =
    let rest = really_sent ns in if n.dry_run then rest else (n.review_id, n.sent_at) ∷ rest

abbrev pub sooner : Option ℕ → Option ℕ → Option ℕ
sooner none b = b
sooner (some a) none = some a
sooner (some a) (some b) = if ltb b a then some b else some a

-- The earliest time of a review.
abbrev pub earliest : Text → List (Text × ℕ) → Option ℕ
earliest id [] = none
earliest id ((k, t) ∷ l) =
    let rest = earliest id l in if text_eq k id then sooner (some t) rest else rest

-- A delay is the time between the earliest record of a review and the first note sent for it.
pub record IsDelay (reviews : List ReviewEventRecord) (notes : List NotificationRecord) (d : ℕ)
    : Type 0 where
  pub id : Text
  pub reviewed : ℕ
  pub noted : ℕ
  pub reviewed-earliest : earliest id (received reviews) ≡ some reviewed
  pub noted-earliest : earliest id (really_sent notes) ≡ some noted
  pub reviewed_before : reviewed ≤ noted
  pub delay : d ≡ noted - reviewed

sooner_assoc : (a b c : Option ℕ) → sooner a (sooner b c) ≡ sooner (sooner a b) c
sooner_assoc none b c = refl
sooner_assoc (some a) none c = refl
sooner_assoc (some a) (some b) none = ground arith
sooner_assoc (some a) (some b) (some c) = ground arith

sooner-none : (a : Option ℕ) → a ≡ sooner a none
sooner-none none = refl
sooner-none (some a) = refl

lookup-note_first :
    (id k : Text) (t : ℕ) (m : Map ℕ)
    → lookup id (note_first k t m)
      ≡ (if text_eq k id then sooner (lookup k m) (some t) else lookup id m)
unfolding note_first
lookup-note_first id k t m = elim (Option-cases (lookup k m)) [
  | inl e ↦ rw (e, note_first) ground (arith, lookup-insert k id t m)
  | inr (s, e) ↦ rw (e, note_first) ground (arith, text_eq_iff k id, lookup-insert k id t m)
]

-- Taking in one more time after another gives the sooner one.
lookup-sooner :
    (id k : Text) (t : ℕ) (m : Map ℕ) (l : List (Text × ℕ))
    → sooner (lookup id (note_first k t m)) (earliest id l)
      ≡ sooner (lookup id m) (earliest id ((k, t) ∷ l))
lookup-sooner id k t m l = elim (Bool-cases (text_eq k id)) [
  | inl b ↦
      rw (lookup-note_first id k t m, b)
        (sym (sooner_assoc (lookup k m) (some t) (earliest id l))
          ∙ ap (λ j. sooner (lookup j m) (sooner (some t) (earliest id l))) (eq_of_text_eq k id b))
  | inr b ↦ rw (lookup-note_first id k t m, b) refl
]

lookup-first_review :
    (id : Text) (rs : List ReviewEventRecord) (m : Map ℕ)
    → lookup id (first_review rs m) ≡ sooner (lookup id m) (earliest id (received rs))
unfolding first_review
lookup-first_review id [] m = sooner-none (lookup id m)
lookup-first_review id (r ∷ rs) m =
    lookup-first_review id rs (note_first r.review_id r.received_at m)
    ∙ lookup-sooner id r.review_id r.received_at m (received rs)

lookup-first_note :
    (id : Text) (ns : List NotificationRecord) (m : Map ℕ)
    → lookup id (first_note ns m) ≡ sooner (lookup id m) (earliest id (really_sent ns))
unfolding first_note
lookup-first_note id [] m = sooner-none (lookup id m)
lookup-first_note id (n ∷ ns) m = elim (Bool-cases n.dry_run) [
  | inl b ↦ rw b (lookup-first_note id ns m)
  | inr b ↦ rw b (
      lookup-first_note id ns (note_first n.review_id n.sent_at m)
      ∙ lookup-sooner id n.review_id n.sent_at m (really_sent ns))
]

note_first-cases :
    (k : Text) (t : ℕ) (m : Map ℕ) → (note_first k t m ≡ insert k t m) ⊎ (note_first k t m ≡ m)
unfolding note_first insert
note_first-cases k t m = elim (Option-cases (lookup k m)) [
  | inl e ↦ inl (rw (note_first, e) refl)
  | inr (s, e) ↦ elim (Bool-cases (ltb t s)) [
    | inl b ↦ inl (rw (note_first, e, b) refl)
    | inr b ↦ inr (rw (note_first, e, b) refl)
  ]
]

note_first-IsUnique : (k : Text) (t : ℕ) (m : Map ℕ) → IsUnique m → IsUnique (note_first k t m)
note_first-IsUnique k t m u = elim (note_first-cases k t m) [
  | inl e ↦ subst IsUnique (sym e) (insert-IsUnique k t m u)
  | inr e ↦ subst IsUnique (sym e) u
]

first_note-IsUnique :
    (ns : List NotificationRecord) (m : Map ℕ) → IsUnique m → IsUnique (first_note ns m)
unfolding first_note
first_note-IsUnique [] m u = u
first_note-IsUnique (n ∷ ns) m u = elim (Bool-cases n.dry_run) [
  | inl b ↦ rw b (first_note-IsUnique ns m u)
  | inr b ↦ rw b (
      first_note-IsUnique ns (note_first n.review_id n.sent_at m)
        (note_first-IsUnique n.review_id n.sent_at m u))
]

lookup-here : (k : Text) (t : ℕ) (m : Map ℕ) → lookup k ((k, t) ∷ m) ≡ some t
unfolding lookup
lookup-here k t m = rw (text_eq_refl k) refl

lookup-later :
    (k id : Text) (t s : ℕ) (m : Map ℕ)
    → lookup k m ≡ none
    → lookup id m ≡ some s
    → lookup id ((k, t) ∷ m) ≡ some s
unfolding lookup
lookup-later k id t s m fresh e = ground (arith, text_eq_iff k id)

delta-here :
    (reviews m : Map ℕ) (k : Text) (rt t : ℕ)
    → lookup k reviews ≡ some rt
    → ltb t rt ≡ false
    → deltas reviews ((k, t) ∷ m) ≡ (t - rt) ∷ deltas reviews m
unfolding deltas
delta-here reviews m k rt t e h = rw (deltas, e, h) refl

delta-later :
    (reviews m : Map ℕ) (k : Text) (t d : ℕ)
    → Memᴰ d (deltas reviews m)
    → Memᴰ d (deltas reviews ((k, t) ∷ m))
unfolding deltas
delta-later reviews m k t d h = elim (Option-cases (lookup k reviews)) [
  | inl e ↦ rw (deltas, e) h
  | inr (rt, e) ↦ elim (Bool-cases (ltb t rt)) [
    | inl b ↦ rw (deltas, e, b) h
    | inr b ↦ rw (deltas, e, b) (Memᴰ.tail h)
  ]
]

lookup-head :
    (k id : Text) (t s : ℕ) (m : Map ℕ)
    → text_eq k id ≡ true
    → lookup id ((k, t) ∷ m) ≡ some s
    → t ≡ s
unfolding lookup
lookup-head k id t s m b e = ground arith

lookup-tail :
    (k id : Text) (t s : ℕ) (m : Map ℕ)
    → text_eq k id ≡ false
    → lookup id ((k, t) ∷ m) ≡ some s
    → lookup id m ≡ some s
unfolding lookup
lookup-tail k id t s m b e = ground arith

-- What is found in the notes' map, and its review in the other, is one of the deltas.
lookup-delta :
    (reviews m : Map ℕ) (id : Text) (rt nt : ℕ)
    → lookup id reviews ≡ some rt
    → lookup id m ≡ some nt
    → ltb nt rt ≡ false
    → Memᴰ (nt - rt) (deltas reviews m)
unfolding lookup deltas
lookup-delta reviews [] id rt nt e f h = ground arith
lookup-delta reviews ((k, t) ∷ m) id rt nt e f h = elim (Bool-cases (text_eq k id)) [
  | inl b ↦
      let same = lookup-head k id t nt m b f in
      let at_k = ap (λ j. lookup j reviews) (eq_of_text_eq k id b) ∙ e in
      subst (λ s. Memᴰ (s - rt) (deltas reviews ((k, t) ∷ m))) same
        (subst (Memᴰ (t - rt))
          (sym (delta-here reviews m k rt t at_k (ap (λ s. ltb s rt) same ∙ h))) (Memᴰ.head refl))
  | inr b ↦
      delta-later reviews m k t (nt - rt)
        (lookup-delta reviews m id rt nt e (lookup-tail k id t nt m b f) h)
]

not_before : (a b : ℕ) → b ≤ a → ltb a b ≡ false
not_before a b h = ground arith

module _ (reviews : List ReviewEventRecord) (notes : List NotificationRecord) where
  entry-IsDelay :
      (id : Text) (rt nt : ℕ)
      → lookup id (first_review reviews []) ≡ some rt
      → lookup id (first_note notes []) ≡ some nt
      → ltb nt rt ≡ false
      → IsDelay reviews notes (nt - rt)
  unfolding lookup
  entry-IsDelay id rt nt e f h = record {
    id = id;
    reviewed = rt;
    noted = nt;
    reviewed-earliest = sym (lookup-first_review id reviews []) ∙ e;
    noted-earliest = sym (lookup-first_note id notes []) ∙ f;
    reviewed_before = ground arith;
    delay = refl;
  }

  -- Of an end of the notes' map, whose entries are found in the whole.
  deltas-AreDelays :
      (m : Map ℕ)
      → IsUnique m
      → ((id : Text) (nt : ℕ) → lookup id m ≡ some nt → lookup id (first_note notes []) ≡ some nt)
      → All (IsDelay reviews notes) (deltas (first_review reviews []) m)
  unfolding deltas lookup
  deltas-AreDelays [] u found = tt
  deltas-AreDelays ((k, nt) ∷ m) u found =
      let rest = deltas-AreDelays m u.1 (λ id t e. found id t (lookup-later k id nt t m u.0 e)) in
      elim (Option-cases (lookup k (first_review reviews []))) [
        | inl e ↦ rw (deltas, e) rest
        | inr (rt, e) ↦ elim (Bool-cases (ltb nt rt)) [
          | inl b ↦ rw (deltas, e, b) rest
          | inr b ↦
              rw (deltas, e, b) (entry-IsDelay k rt nt e (found k nt (lookup-here k nt m)) b, rest)
        ]
      ]

  pub found_deltas-AreDelays :
      All (IsDelay reviews notes) (deltas (first_review reviews []) (first_note notes []))
  found_deltas-AreDelays =
      deltas-AreDelays (first_note notes []) (first_note-IsUnique notes [] tt) (λ id nt e. e)

  pub delay-delta :
      (d : ℕ)
      → IsDelay reviews notes d
      → Memᴰ d (deltas (first_review reviews []) (first_note notes []))
  unfolding lookup
  delay-delta d h =
      subst (λ e. Memᴰ e (deltas (first_review reviews []) (first_note notes []))) (sym h.delay)
        (lookup-delta (first_review reviews []) (first_note notes []) h.id h.reviewed h.noted
          (lookup-first_review h.id reviews [] ∙ h.reviewed-earliest)
          (lookup-first_note h.id notes [] ∙ h.noted-earliest)
          (not_before h.noted h.reviewed h.reviewed_before))
