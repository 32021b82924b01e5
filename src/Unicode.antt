-- ===== src/Unicode.antt =====
-- The tables of Go's `unicode` package, which the program reads through `strings` and `unicode`: a
-- parameter of everything that folds, trims or capitalizes text. `ascii` is one that runs.
pub mod Trim
pub mod Shorter
use frigate_notifications.Prelude.{
  ℕ, ◌+◌, ◌-◌, Bool, ◌&&◌, ◌||◌, [], ◌∷◌, map, Text, text_eq, leb, ◌==◌, if◌then◌else◌,
}

pub record Unicode : Type 0 where
  pub to_upper : ℕ → ℕ
  pub to_lower : ℕ → ℕ
  -- One rune of each orbit of simple case folding.
  pub fold : ℕ → ℕ
  pub is_space : ℕ → Bool
  pub is_letter : ℕ → Bool

-- strings.EqualFold: rune by rune, equal under simple case folding.
abbrev pub equal_fold : Unicode → Text → Text → Bool
equal_fold u s t = text_eq (map u.fold s) (map u.fold t)

module _ (u : Unicode) where
  -- strings.TrimLeftFunc by `unicode.IsSpace`
  unfoldable pub trim_left : Text → Text
  trim_left [] = []
  trim_left (c ∷ s) = if u.is_space c then trim_left s else c ∷ s

  -- A rune is kept if it is no space, or if one that is kept follows it.
  abbrev pub keep : ℕ → Text → Text
  keep c [] = if u.is_space c then [] else c ∷ []
  keep c (d ∷ s) = c ∷ d ∷ s

  unfoldable pub trim_right : Text → Text
  trim_right [] = []
  trim_right (c ∷ s) = keep c (trim_right s)

  -- strings.TrimSpace
  unfoldable pub trim_space : Text → Text
  unfolding trim_left trim_right
  trim_space s = trim_right (trim_left s)

abbrev is_lower : ℕ → Bool
is_lower c = leb b'a' c && leb c b'z'

abbrev is_upper : ℕ → Bool
is_upper c = leb b'A' c && leb c b'Z'

abbrev pub ascii : Unicode
ascii = record {
  to_upper = λ c. if is_lower c then c - 32 else c;
  to_lower = λ c. if is_upper c then c + 32 else c;
  fold = λ c. if is_upper c then c + 32 else c;
  is_space = λ c. c == 32 || (leb 9 c && leb c 13);
  is_letter = λ c. is_lower c || is_upper c;
}
