-- ===== src/Fingerprint/Examples.antt =====
-- internal/notifier/notifier.go: two labels in either order.
use frigate_notifications.Prelude.{◌≡◌, refl, none, [], ◌∷◌, lit}
use mathlib.Core.List.{Permᴰ}
use frigate_notifications.Frigate.{ReviewPayload}
use frigate_notifications.Scene.{car}
use frigate_notifications.Fingerprint.Order.{fingerprint-Perm}
use frigate_notifications.Fingerprint.{fingerprint}

abbrev both : ReviewPayload
both = record car {
  review_data = record car.review_data { objects = lit "car" ∷ lit "dog" ∷ []; detections = [] };
}

abbrev turned : ReviewPayload
turned = record car {
  review_data = record car.review_data { objects = lit "dog" ∷ lit "car" ∷ []; detections = [] };
}

fingerprint-Perm_example :
    fingerprint (λ t. t) (λ t. none) turned ≡ fingerprint (λ t. t) (λ t. none) both
fingerprint-Perm_example =
    fingerprint-Perm (λ t. t) (λ t. none) both (lit "dog" ∷ lit "car" ∷ []) [] [] []
      (Permᴰ.swap refl refl) Permᴰ.nil Permᴰ.nil Permᴰ.nil
