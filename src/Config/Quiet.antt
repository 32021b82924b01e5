-- ===== src/Config/Quiet.antt =====
-- internal/config/config.go: when a part of `validate` finds nothing.
use frigate_notifications.Prelude.{
  ℕ, suc, ◌≡◌, ◌↔◌, refl, Bool, true, false, List, [], ◌∷◌, ◌++◌, All,
}
use frigate_notifications.Config.Problems.{Problem, add_if, each, each_from}

-- Nothing is found exactly where `Q` holds.
abbrev pub Quiet {ℓ} : List Problem → Type ℓ → Type ℓ
Quiet ps Q = (ps ≡ []) ↔ Q

none_of_append : (ps qs : List Problem) → ps ++ qs ≡ [] → (ps ≡ []) × (qs ≡ [])
none_of_append [] qs h = (refl, h)
none_of_append (p ∷ ps) qs h = absurd cc

pub Quiet-both :
    {ps qs : List Problem} {P Q : Type 0} → Quiet ps P → Quiet qs Q → Quiet (ps ++ qs) (P × Q)
Quiet-both {ps} {qs} f g =
    (λ h. let (a, b) = none_of_append ps qs h in (f.0 a, g.0 b), λ h. rw (f.1 h.0, g.1 h.1) refl)

pub Quiet-add : (b : Bool) (p : Problem) → Quiet (add_if b p) (b ≡ false)
Quiet-add true p = (λ h. absurd cc, λ h. absurd cc)
Quiet-add false p = (λ h. refl, λ h. refl)

pub Quiet-weaken : {ps : List Problem} {P Q : Type 0} → Quiet ps P → P ↔ Q → Quiet ps Q
Quiet-weaken f h = (λ e. h.0 (f.0 e), λ q. f.1 (h.1 q))

module _ {ℓ} {A : Type ℓ} where
  pub Quiet-each :
      (f : A → List Problem) (Q : A → Type 0) (xs : List A)
      → ((x : A) → Quiet (f x) (Q x))
      → Quiet (each f xs) (All Q xs)
  Quiet-each f Q [] h = (λ e. tt, λ q. refl)
  Quiet-each f Q (x ∷ xs) h = Quiet-both (h x) (Quiet-each f Q xs h)

  pub Quiet-each_from :
      (f : ℕ → A → List Problem) (Q : A → Type 0) (i : ℕ) (xs : List A)
      → ((j : ℕ) (x : A) → Quiet (f j x) (Q x))
      → Quiet (each_from f i xs) (All Q xs)
  Quiet-each_from f Q i [] h = (λ e. tt, λ q. refl)
  Quiet-each_from f Q i (x ∷ xs) h = Quiet-both (h i x) (Quiet-each_from f Q (suc i) xs h)
