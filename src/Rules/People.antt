-- ===== src/Rules/People.antt =====
-- internal/rules/rules.go: recognized faces, and everyone that a review saw.
use frigate_notifications.Prelude.{◌≤◌, ◌≡◌, ◌≢◌, true, List, [], Text, length, All}
use frigate_notifications.Unicode.{Unicode}
use frigate_notifications.Rules.{contains, count_people}

-- There is a face, every face is in `names`, and there are no more people than faces.
pub record Accounted (u : Unicode) (names sub_labels labels : List Text) : Type 0 where
  pub seen : sub_labels ≢ []
  pub listed : All (λ sl. contains u names sl ≡ true) sub_labels
  pub enough : count_people u labels ≤ length sub_labels
