-- ===== src/Delivery/Carried.antt =====
-- internal/notifier/notifier.go: what an escalation carries over from the notification before.
use frigate_notifications.Prelude.{
  ◌≡◌, refl, sym, true, text_eq, eq_of_text_eq, arith, List, [], ◌∷◌, Text, any, All, All-mem,
  Bool-cases, ◌⊎◌, inl, inr,
}
use mathlib.Core.List.{Memᴰ}
use mathlib.Core.List.Memᴰ
use frigate_notifications.Content.{or_else}
use frigate_notifications.Store.{Delivery, ReviewState}
use frigate_notifications.Delivery.{carry_over, carry_from, same_place}

-- One of the deliveries is to the same recipient and to the same of its targets.
pub record IsReached (reached : List Delivery) (d : Delivery) : Type 0 where
  pub anew : Delivery
  pub made : Memᴰ anew reached
  pub same_recipient : anew.recipient ≡ d.recipient
  pub same_target : anew.target ≡ d.target

-- An earlier delivery is either reached anew at its recipient and target, or kept with its ref, under
-- the tag that it was sent with.
abbrev pub IsCovered : List Delivery → List Delivery → Text → Delivery → Type 0
IsCovered reached all tag d = IsReached reached d ⊎ Memᴰ (record d { tag = or_else d.tag tag }) all

any-IsReached :
    (d : Delivery) (reached : List Delivery)
    → any (same_place d) reached ≡ true
    → IsReached reached d
any-IsReached d [] h = absurd (ground arith)
any-IsReached d (e ∷ es) h = elim (Bool-cases (same_place d e)) [
  | inl same ↦
      let recipient : text_eq d.recipient e.recipient ≡ true = ground arith in
      let target : d.target ≡ e.target = ground arith in
      record {
        anew = e;
        made = Memᴰ.head refl;
        same_recipient = sym (eq_of_text_eq d.recipient e.recipient recipient);
        same_target = sym target;
      }
  | inr other ↦
      let later = any-IsReached d es (ground arith) in
      record {
        anew = later.anew;
        made = Memᴰ.tail later.made;
        same_recipient = later.same_recipient;
        same_target = later.same_target;
      }
]

carry_from-IsCovered :
    (reached all : List Delivery) (tag : Text) (ds : List Delivery)
    → ((e : Delivery) → Memᴰ e (carry_from reached tag ds) → Memᴰ e all)
    → All (IsCovered reached all tag) ds
unfolding carry_from
carry_from-IsCovered reached all tag [] f = tt
carry_from-IsCovered reached all tag (d ∷ rest) f = elim (Bool-cases (any (same_place d) reached)) [
  | inl again ↦
      let g = rw again at f in
      (inl (any-IsReached d reached again), carry_from-IsCovered reached all tag rest g)
  | inr kept ↦
      let g = rw kept at f in
      (
        inr (g _ (Memᴰ.head refl)),
        carry_from-IsCovered reached all tag rest (λ e m. g e (Memᴰ.tail m)),
      )
]

-- After an escalation, what it reached is on record, and every delivery of the notification before is
-- reached anew at its recipient and target, or still on record, with its ref and under the tag that it was sent with.
pub carry_over-IsCovered :
    (delivered : List Delivery) (prior : ReviewState)
    → All (λ d. Memᴰ d (carry_over delivered prior)) delivered
      × All (IsCovered delivered (carry_over delivered prior) prior.tag) prior.deliveries
unfolding carry_over
carry_over-IsCovered delivered prior = (
  All-mem _ delivered (λ d m. Memᴰ.append_left (carry_from delivered prior.tag prior.deliveries) m),
  carry_from-IsCovered delivered (carry_over delivered prior) prior.tag prior.deliveries
      (λ e m. Memᴰ.append_right delivered m),
)
