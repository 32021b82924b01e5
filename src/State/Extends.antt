-- ===== src/State/Extends.antt =====
-- What a part of a handler may do: it adds effects, all of one sort, keeps a store that is only in
-- memory so, and leaves the holdoffs and the warnings alone.
use frigate_notifications.Prelude.{
  ◌≡◌, refl, sym, ◌∙◌, ap, none, Bool, true, false, if◌then◌else◌, List, [], ◌∷◌, ◌++◌, All,
  All-append, All-map,
}
use mathlib.Core.List.{append_assoc}
use frigate_notifications.Store.{Store}
use frigate_notifications.Environment.{Effect}
use frigate_notifications.State.{State, emit, emit_all}

pub record Extends {P : Type 0} (Q : Effect → Type 0) (s s' : State P) : Type 0 where
  pub added : List Effect
  pub grown : s'.effects ≡ added ++ s.effects
  pub sort : All Q added
  pub in_memory : s.store.primary ≡ none → s'.store.primary ≡ none
  pub same_pending : s'.pending ≡ s.pending
  pub same_warned : s'.unconfigured ≡ s.unconfigured
  pub same_token : s'.next_token ≡ s.next_token

module _ {P : Type 0} {Q : Effect → Type 0} where
  pub Extends-refl : (s : State P) → Extends Q s s
  Extends-refl s = record {
    added = [];
    grown = refl;
    sort = tt;
    in_memory = λ h. h;
    same_pending = refl;
    same_warned = refl;
    same_token = refl;
  }

  pub Extends-trans : {s t w : State P} → Extends Q s t → Extends Q t w → Extends Q s w
  Extends-trans {s} {t} {w} p q = record {
    added = q.added ++ p.added;
    grown =
        q.grown ∙ ap (λ es. q.added ++ es) p.grown ∙ sym (append_assoc q.added p.added s.effects);
    sort = All-append Q q.added p.added q.sort p.sort;
    in_memory = λ h. q.in_memory (p.in_memory h);
    same_pending = q.same_pending ∙ p.same_pending;
    same_warned = q.same_warned ∙ p.same_warned;
    same_token = q.same_token ∙ p.same_token;
  }

  pub Extends-emit : (e : Effect) (s : State P) → Q e → Extends Q s (emit e s)
  unfolding emit
  Extends-emit e s h = record {
    added = e ∷ [];
    grown = refl;
    sort = (h, tt);
    in_memory = λ p. p;
    same_pending = refl;
    same_warned = refl;
    same_token = refl;
  }

  pub Extends-emit_all : (es : List Effect) (s : State P) → All Q es → Extends Q s (emit_all es s)
  unfolding emit_all
  Extends-emit_all [] s h = Extends-refl s
  Extends-emit_all (e ∷ es) s h =
      Extends-trans (Extends-emit e s h.0) (Extends-emit_all es (emit e s) h.1)

  -- A change of the store alone.
  pub Extends-store :
      (s : State P) (store' : Store P)
      → (s.store.primary ≡ none → store'.primary ≡ none)
      → Extends Q s (record s { store = store' })
  Extends-store s store' h = record {
    added = [];
    grown = refl;
    sort = tt;
    in_memory = h;
    same_pending = refl;
    same_warned = refl;
    same_token = refl;
  }

pub Extends-weaken :
    {P : Type 0} {Q R : Effect → Type 0} {s t : State P}
    → ((e : Effect) → Q e → R e)
    → Extends Q s t
    → Extends R s t
Extends-weaken {Q = Q} {R = R} f p = record {
  added = p.added;
  grown = p.grown;
  sort = All-map Q R p.added f p.sort;
  in_memory = p.in_memory;
  same_pending = p.same_pending;
  same_warned = p.same_warned;
  same_token = p.same_token;
}

pub Extends-if :
    {P : Type 0} {Q : Effect → Type 0} {s x y : State P} (b : Bool)
    → (b ≡ true → Extends Q s x)
    → (b ≡ false → Extends Q s y)
    → Extends Q s (if b then x else y)
Extends-if true p q = p refl
Extends-if false p q = q refl
