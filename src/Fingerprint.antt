-- ===== src/Fingerprint.antt =====
-- internal/notifier/notifier.go: `reviewFingerprint`, which tells a changed review from a redelivery.
pub mod Order
mod Examples
use frigate_notifications.Prelude.{
  Bool, true, false, ◌&&◌, ◌||◌, Option, none, some, List, [], ◌∷◌, ◌++◌, Text, lit, ltb, ◌==◌,
  if◌then◌else◌,
}
use frigate_notifications.Prelude.Sorting.{sort_texts}
use frigate_notifications.Media.{signed_decimal}
use frigate_notifications.Phrase.{join}
use frigate_notifications.Frigate.{ReviewPayload, ReviewMetadata, gen_ai}

unfoldable pub print_list : List Text → Text
print_list l = join (lit ",") (sort_texts l) ++ lit ";"

abbrev print_meta : Option ReviewMetadata → Text
print_meta none = []
print_meta (some m) =
    m.title
    ++ (lit "|" ++ (m.short_summary ++ (lit "|" ++ signed_decimal m.potential_threat_level)))

-- What is hashed: the fields that a rule can match on, and the GenAI summary.
unfoldable pub fingerprint_text : (Text → Option ReviewMetadata) → ReviewPayload → Text
unfolding print_list
fingerprint_text decode review =
    let d = review.review_data in
    review.camera
    ++ (lit "|"
        ++ (review.severity
            ++ (lit "|"
                ++ (print_list d.objects
                    ++ (print_list d.sub_labels
                        ++ (print_list d.zones
                            ++ (print_list d.detections ++ print_meta (gen_ai decode d))))))))

unfoldable pub fingerprint : (Text → Text) → (Text → Option ReviewMetadata) → ReviewPayload → Text
fingerprint hash decode review = hash (fingerprint_text decode review)
