-- ===== src/Rules/Order.antt =====
-- internal/rules/rules.go: the order of the rules, and the trace.
use frigate_notifications.Prelude.{
  ℕ, zero, suc, ◌+◌, ◌<◌, ◌≡◌, true, false, none, some, List, [], ◌∷◌, length, get_elem?, arith,
  refl, Bool-cases, inl, inr,
}
use frigate_notifications.Unicode.{Unicode}
use frigate_notifications.Config.{Rule}
use frigate_notifications.Rules.{MatchContext, match_one, match_from, match_rules}

-- What the search for the first match promises, of rules that are numbered from `k`.
pub record First (u : Unicode) (mc : MatchContext) (k : ℕ) (rules : List Rule) (at : ℕ)
    : Type 0 where
  pub rule : Rule
  pub present : get_elem? rules at ≡ some rule
  pub matches : (match_one u (k + at) rule mc).matched ≡ true
  pub earlier :
      (j : ℕ) (r : Rule)
      → j < at
      → get_elem? rules j ≡ some r
      → (match_one u (k + j) r mc).matched ≡ false

module _ (u : Unicode) (mc : MatchContext) where
  First-cons :
      (k : ℕ) (r : Rule) (rest : List Rule) (at : ℕ)
      → (match_one u k r mc).matched ≡ false
      → First u mc (suc k) rest at
      → First u mc k (r ∷ rest) (suc at)
  First-cons k r rest at no_match f = record {
    rule = f.rule;
    present = f.present;
    matches = let e : k + suc at ≡ suc k + at = omega arith in rw e f.matches;
    earlier = go;
  }
    where
      go :
          (j : ℕ) (r' : Rule)
          → j < suc at
          → get_elem? (r ∷ rest) j ≡ some r'
          → (match_one u (k + j) r' mc).matched ≡ false
      go zero r' h e =
          let q : r ≡ r' = cc in let z : k + 0 ≡ k = omega arith in rw (z, ← q) no_match
      go (suc j) r' h e =
          let q : k + suc j ≡ suc k + j = omega arith in rw q (f.earlier j r' (omega arith) e)

  First-zero :
      (k : ℕ) (r : Rule) (rest : List Rule)
      → (match_one u k r mc).matched ≡ true
      → First u mc k (r ∷ rest) 0
  First-zero k r rest h = record {
    rule = r;
    present = refl;
    matches = let z : k + 0 ≡ k = omega arith in rw z h;
    earlier = λ j r' lt e. absurd (omega arith);
  }

  match_from-First :
      (rules : List Rule) (k i : ℕ)
      → (match_from u k rules mc).0 ≡ some i
      → (at : ℕ) × (i ≡ k + at)
        × First u mc k rules at
        × (length (match_from u k rules mc).1 ≡ suc at)
  unfolding match_from
  match_from-First [] k i h = cc
  match_from-First (r ∷ rest) k i h = elim (Bool-cases (match_one u k r mc).matched) [
    | inl matches ↦ (0, ground arith, First-zero k r rest matches, ground arith)
    | inr no_match ↦
        let (at, counted, f, traced) = match_from-First rest (suc k) i (ground arith) in
        (suc at, omega arith, First-cons k r rest at no_match f, ground arith)
  ]

  match_from-none :
      (rules : List Rule) (k : ℕ)
      → (match_from u k rules mc).0 ≡ none
      → ((j : ℕ) (r : Rule)
          → get_elem? rules j ≡ some r
          → (match_one u (k + j) r mc).matched ≡ false)
        × (length (match_from u k rules mc).1 ≡ length rules)
  unfolding match_from
  match_from-none [] k h = (λ j r e. cc, refl)
  match_from-none (r ∷ rest) k h = elim (Bool-cases (match_one u k r mc).matched) [
    | inl matches ↦ ground arith
    | inr no_match ↦
        let (none_matches, traced) = match_from-none rest (suc k) (ground arith) in
        (go no_match none_matches, ground arith)
  ]
    where
      go :
          (match_one u k r mc).matched ≡ false
          → ((j : ℕ) (r' : Rule)
              → get_elem? rest j ≡ some r'
              → (match_one u (suc k + j) r' mc).matched ≡ false)
          → (j : ℕ) (r' : Rule) → get_elem? (r ∷ rest) j ≡ some r'
          → (match_one u (k + j) r' mc).matched ≡ false
      go no_match later zero r' e =
          let q : r ≡ r' = cc in let z : k + 0 ≡ k = omega arith in rw (z, ← q) no_match
      go no_match later (suc j) r' e =
          let q : k + suc j ≡ suc k + j = omega arith in rw q (later j r' e)

  -- If matching gives a rule, that rule matches, no earlier rule does, and the trace holds one
  -- decision for each rule up to it.
  pub match_rules-First :
      (rules : List Rule) (i : ℕ)
      → (match_rules u rules mc).0 ≡ some i
      → First u mc 0 rules i × (length (match_rules u rules mc).1 ≡ suc i)
  unfolding match_rules
  match_rules-First rules i h =
      let (at, counted, f, traced) = match_from-First rules 0 i h in
      let e : at ≡ i = omega arith in (rw e at f, omega arith)

  -- If matching gives no rule, none of the rules matches, and the trace holds one decision for each of
  -- them.
  pub match_rules-none :
      (rules : List Rule)
      → (match_rules u rules mc).0 ≡ none
      → ((j : ℕ) (r : Rule) → get_elem? rules j ≡ some r → (match_one u j r mc).matched ≡ false)
        × (length (match_rules u rules mc).1 ≡ length rules)
  unfolding match_rules
  match_rules-none rules h =
      let (none_matches, traced) = match_from-none rules 0 h in
      (λ j r e. let z : 0 + j ≡ j = omega arith in rw z at (none_matches j r e), traced)
