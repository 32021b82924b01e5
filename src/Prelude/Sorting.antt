-- ===== src/Prelude/Sorting.antt =====
-- Texts in the order of Go's strings, and lists of them sorted.
use mathlib.Core.Bool.{Bool, true, false, ◌&&◌, ◌||◌}
use mathlib.Core.List.{List, [], ◌∷◌}
use frigate_notifications.Prelude.Tests.{ltb, ◌==◌, if◌then◌else◌}
use frigate_notifications.Prelude.Texts.{Text}

-- The order of Go's strings: by code points, as by the bytes of their UTF-8.
unfoldable pub text_le : Text → Text → Bool
text_le [] t = true
text_le (a ∷ s) [] = false
text_le (a ∷ s) (b ∷ t) = ltb a b || (a == b && text_le s t)

unfoldable pub insert_sorted : Text → List Text → List Text
insert_sorted s [] = s ∷ []
insert_sorted s (t ∷ rest) =
    let later = t ∷ insert_sorted s rest in if text_le s t then s ∷ t ∷ rest else later

-- sort.Strings
unfoldable pub sort_texts : List Text → List Text
unfolding insert_sorted
sort_texts [] = []
sort_texts (s ∷ rest) = insert_sorted s (sort_texts rest)
