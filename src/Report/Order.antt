-- ===== src/Report/Order.antt =====
-- cmd/events/main.go: the sorted delays and their percentiles.
use frigate_notifications.Prelude.{
  ℕ, zero, suc, ◌≤◌, ◌<◌, ◌≡◌, refl, sym, Bool-cases, inl, inr, some, List, [], ◌∷◌, leb, length,
  get_elem?, All, arith,
}
use mathlib.Core.Path.{subst}
use mathlib.Core.List.{Memᴰ}
use frigate_notifications.Report.{insert_delta, sort_deltas, round_ms}

abbrev pub IsAscending : List ℕ → Type 0
IsAscending [] = Unit
IsAscending (d ∷ ds) = All (λ e. d ≤ e) ds × IsAscending ds

module _ (P : ℕ → Type 0) where
  insert_delta-All : (d : ℕ) (ds : List ℕ) → P d → All P ds → All P (insert_delta d ds)
  unfolding insert_delta
  insert_delta-All d [] p h = (p, tt)
  insert_delta-All d (e ∷ es) p h = elim (Bool-cases (leb d e)) [
    | inl b ↦ rw (insert_delta, b) (p, h)
    | inr b ↦ rw (insert_delta, b) (h.0, insert_delta-All d es p h.1)
  ]

  pub sort_deltas-All : (ds : List ℕ) → All P ds → All P (sort_deltas ds)
  unfolding sort_deltas
  sort_deltas-All [] h = tt
  sort_deltas-All (d ∷ ds) h = insert_delta-All d (sort_deltas ds) h.0 (sort_deltas-All ds h.1)

  pub get_elem?-All : (ds : List ℕ) (i a : ℕ) → All P ds → get_elem? ds i ≡ some a → P a
  get_elem?-All [] i a h e = ground arith
  get_elem?-All (d ∷ ds) zero a h e = subst P (ground arith) h.0
  get_elem?-All (d ∷ ds) (suc i) a h e = get_elem?-All ds i a h.1 e

  pub All-Mem : (ds : List ℕ) (d : ℕ) → All P ds → Memᴰ d ds → P d
  All-Mem [] d h m = elim m [ ]
  All-Mem (e ∷ ds) d h (Memᴰ.head p) = subst P (sym p) h.0
  All-Mem (e ∷ ds) d h (Memᴰ.tail m) = All-Mem ds d h.1 m

below-All : (d e : ℕ) (ds : List ℕ) → d ≤ e → All (λ f. e ≤ f) ds → All (λ f. d ≤ f) ds
below-All d e [] le h = tt
below-All d e (f ∷ fs) le h = (omega (arith, h.0), below-All d e fs le h.1)

insert_delta-IsAscending : (d : ℕ) (ds : List ℕ) → IsAscending ds → IsAscending (insert_delta d ds)
unfolding insert_delta
insert_delta-IsAscending d [] h = (tt, tt)
insert_delta-IsAscending d (e ∷ es) h = elim (Bool-cases (leb d e)) [
  | inl b ↦ let le : d ≤ e = ground arith in rw (insert_delta, b) ((le, below-All d e es le h.0), h)
  | inr b ↦
      let le : e ≤ d = ground arith in
      rw (insert_delta, b)
        (insert_delta-All (λ f. e ≤ f) d es le h.0, insert_delta-IsAscending d es h.1)
]

pub sort_deltas-IsAscending : (ds : List ℕ) → IsAscending (sort_deltas ds)
unfolding sort_deltas
sort_deltas-IsAscending [] = tt
sort_deltas-IsAscending (d ∷ ds) =
    insert_delta-IsAscending d (sort_deltas ds) (sort_deltas-IsAscending ds)

-- A member found by `f` past the first stays one where the first two change places.
swapped :
    (c d e : ℕ) (es : List ℕ) {xs : List ℕ}
    → (Memᴰ c (d ∷ es) → Memᴰ c xs)
    → Memᴰ c (d ∷ e ∷ es)
    → Memᴰ c (e ∷ xs)
swapped c d e es f (Memᴰ.head p) = Memᴰ.tail (f (Memᴰ.head p))
swapped c d e es f (Memᴰ.tail (Memᴰ.head p)) = Memᴰ.head p
swapped c d e es f (Memᴰ.tail (Memᴰ.tail m)) = Memᴰ.tail (f (Memᴰ.tail m))

insert_delta-Mem : (c d : ℕ) (ds : List ℕ) → Memᴰ c (d ∷ ds) → Memᴰ c (insert_delta d ds)
unfolding insert_delta
insert_delta-Mem c d [] m = m
insert_delta-Mem c d (e ∷ es) m = elim (Bool-cases (leb d e)) [
  | inl b ↦ rw (insert_delta, b) m
  | inr b ↦ rw (insert_delta, b) (swapped c d e es (λ n. insert_delta-Mem c d es n) m)
]

pub sort_deltas-Mem : (c : ℕ) (ds : List ℕ) → Memᴰ c ds → Memᴰ c (sort_deltas ds)
unfolding sort_deltas
sort_deltas-Mem c [] m = elim m [ ]
sort_deltas-Mem c (d ∷ ds) (Memᴰ.head p) = insert_delta-Mem c d (sort_deltas ds) (Memᴰ.head p)
sort_deltas-Mem c (d ∷ ds) (Memᴰ.tail m) =
    insert_delta-Mem c d (sort_deltas ds) (Memᴰ.tail (sort_deltas-Mem c ds m))

pub get_elem?-ascending :
    (ds : List ℕ) (i j a b : ℕ)
    → IsAscending ds
    → i ≤ j
    → get_elem? ds i ≡ some a
    → get_elem? ds j ≡ some b
    → a ≤ b
get_elem?-ascending [] i j a b h le e f = ground arith
get_elem?-ascending (d ∷ ds) zero zero a b h le e f = ground arith
get_elem?-ascending (d ∷ ds) zero (suc j) a b h le e f =
    let d_le = get_elem?-All (λ f. d ≤ f) ds j b h.0 f in ground arith
get_elem?-ascending (d ∷ ds) (suc i) zero a b h le e f = ground arith
get_elem?-ascending (d ∷ ds) (suc i) (suc j) a b h le e f =
    get_elem?-ascending ds i j a b h.1 (omega arith) e f

pub get_elem?-within : (ds : List ℕ) (i : ℕ) → i < length ds → (a : ℕ) × (get_elem? ds i ≡ some a)
get_elem?-within [] i h = ground arith
get_elem?-within (d ∷ ds) zero h = (d, refl)
get_elem?-within (d ∷ ds) (suc i) h = get_elem?-within ds i (omega arith)

pub last-most :
    (ds : List ℕ) (n b : ℕ)
    → IsAscending ds
    → length ds ≡ suc n
    → get_elem? ds n ≡ some b
    → All (λ d. d ≤ b) ds
last-most [] n b h l e = tt
last-most (d ∷ []) zero b h l e = (ground arith, tt)
last-most (d ∷ []) (suc n) b h l e = ground arith
last-most (d ∷ c ∷ ds) zero b h l e = ground arith
last-most (d ∷ c ∷ ds) (suc n) b h l e =
    let rest = last-most (c ∷ ds) n b h.1 (omega (arith, l)) e in
    (omega (arith, rest.0, h.0.0), rest)

pub round_ms_mono : (a b : ℕ) → a ≤ b → round_ms a ≤ round_ms b
unfolding round_ms
round_ms_mono a b h = ground arith
