-- ===== src/Fingerprint/Order.antt =====
-- internal/notifier/notifier.go: the fingerprint and the order of the lists.
use frigate_notifications.Prelude.{
  ◌≡◌, refl, ◌∙◌, ap, true, false, Option, List, [], ◌∷◌, ◌++◌, Text, lit, arith,
}
use mathlib.Core.List.{Permᴰ}
use frigate_notifications.Phrase.{join}
use frigate_notifications.Frigate.{ReviewPayload, ReviewMetadata, gen_ai}
use frigate_notifications.Prelude.Sorting.{text_le, insert_sorted, sort_texts}
use frigate_notifications.Fingerprint.{print_list, fingerprint_text, fingerprint}

text_le_trans : (s t w : Text) → text_le s t ≡ true → text_le t w ≡ true → text_le s w ≡ true
unfolding text_le
text_le_trans [] t w p q = refl
text_le_trans (a ∷ s) [] w p q = ground arith
text_le_trans (a ∷ s) (b ∷ t) [] p q = ground arith
text_le_trans (a ∷ s) (b ∷ t) (c ∷ w) p q = ground (arith, text_le_trans s t w)

text_le-total : (s t : Text) → text_le s t ≡ false → text_le t s ≡ true
unfolding text_le
text_le-total [] t h = ground arith
text_le-total (a ∷ s) [] h = refl
text_le-total (a ∷ s) (b ∷ t) h = ground (arith, text_le-total s t)

text_le-antisym : (s t : Text) → text_le s t ≡ true → text_le t s ≡ true → s ≡ t
unfolding text_le
text_le-antisym [] [] p q = refl
text_le-antisym [] (b ∷ t) p q = ground arith
text_le-antisym (a ∷ s) [] p q = ground arith
text_le-antisym (a ∷ s) (b ∷ t) p q = ground (arith, text_le-antisym s t)

insert_sorted_comm :
    (s t : Text) (l : List Text)
    → insert_sorted s (insert_sorted t l) ≡ insert_sorted t (insert_sorted s l)
unfolding insert_sorted
insert_sorted_comm s t [] = ground (arith, text_le-total s t, text_le-antisym s t)
insert_sorted_comm s t (x ∷ l) = ground (
  arith,
  text_le-total s t,
  text_le-antisym s t,
  text_le-total s x,
  text_le-total t x,
  text_le_trans s t x,
  text_le_trans t s x,
  insert_sorted_comm s t l,
)

sort_texts-Perm : {l l' : List Text} → Permᴰ l l' → sort_texts l ≡ sort_texts l'
unfolding sort_texts
sort_texts-Perm Permᴰ.nil = refl
sort_texts-Perm (Permᴰ.cons {a} {b} {l₁} {l₂} e p) = rw (e, sort_texts-Perm p) refl
sort_texts-Perm (Permᴰ.swap {a} {b} {a'} {b'} {l} e e') =
    rw (e, e') (insert_sorted_comm b' a' (sort_texts l))
sort_texts-Perm (Permᴰ.trans p q) = sort_texts-Perm p ∙ sort_texts-Perm q

print_list-Perm : {l l' : List Text} → Permᴰ l l' → print_list l ≡ print_list l'
unfolding print_list
print_list-Perm p = ap (λ t. join (lit ",") t ++ lit ";") (sort_texts-Perm p)

-- A review whose labels, faces, zones and detections come in another order has the same fingerprint:
-- it is taken for the redelivery that it is.
pub fingerprint-Perm :
    (hash : Text → Text) (decode : Text → Option ReviewMetadata) (review : ReviewPayload)
    (objects sub_labels zones detections : List Text)
    → Permᴰ review.review_data.objects objects
    → Permᴰ review.review_data.sub_labels sub_labels
    → Permᴰ review.review_data.zones zones
    → Permᴰ review.review_data.detections detections
    → fingerprint hash decode (record review {
      review_data = record review.review_data {
        objects = objects;
        sub_labels = sub_labels;
        zones = zones;
        detections = detections;
      };
    })
      ≡ fingerprint hash decode review
unfolding fingerprint fingerprint_text gen_ai
fingerprint-Perm hash decode review objects sub_labels zones detections p q r o =
    rw⁻¹ (print_list-Perm p, print_list-Perm q, print_list-Perm r, print_list-Perm o) refl
