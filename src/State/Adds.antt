-- ===== src/State/Adds.antt =====
-- What a handler adds to the effects, whatever else of the state it changes.
use frigate_notifications.Prelude.{
  Bool, true, false, if◌then◌else◌, ◌≡◌, refl, sym, ◌∙◌, ap, List, [], ◌∷◌, ◌++◌, All, All-append,
  All-map,
}
use mathlib.Core.List.{append_assoc}
use frigate_notifications.Environment.{Effect}
use frigate_notifications.State.{State, emit}
use frigate_notifications.State.Extends.{Extends}

pub record Adds {P : Type 0} (Q : Effect → Type 0) (s s' : State P) : Type 0 where
  pub added : List Effect
  pub grown : s'.effects ≡ added ++ s.effects
  pub sort : All Q added

module _ {P : Type 0} {Q : Effect → Type 0} where
  -- Nothing is added where the effects stay.
  pub Adds-none : {s s' : State P} → s'.effects ≡ s.effects → Adds Q s s'
  Adds-none h = record { added = []; grown = h; sort = tt }

  pub Adds-trans : {s t w : State P} → Adds Q s t → Adds Q t w → Adds Q s w
  Adds-trans {s} {t} {w} p q = record {
    added = q.added ++ p.added;
    grown =
        q.grown ∙ ap (λ es. q.added ++ es) p.grown ∙ sym (append_assoc q.added p.added s.effects);
    sort = All-append Q q.added p.added q.sort p.sort;
  }

  pub Adds-emit : (e : Effect) (s : State P) → Q e → Adds Q s (emit e s)
  unfolding emit
  Adds-emit e s h = record { added = e ∷ []; grown = refl; sort = (h, tt) }

  pub Adds-Extends : {s s' : State P} → Extends Q s s' → Adds Q s s'
  Adds-Extends p = record { added = p.added; grown = p.grown; sort = p.sort }

pub Adds-weaken :
    {P : Type 0} {Q R : Effect → Type 0} {s t : State P}
    → ((e : Effect) → Q e → R e)
    → Adds Q s t
    → Adds R s t
Adds-weaken {Q = Q} {R = R} f p = record {
  added = p.added;
  grown = p.grown;
  sort = All-map Q R p.added f p.sort;
}

pub Adds-if :
    {P : Type 0} {Q : Effect → Type 0} {s x y : State P} (b : Bool)
    → Adds Q s x
    → Adds Q s y
    → Adds Q s (if b then x else y)
Adds-if true p q = p
Adds-if false p q = q
