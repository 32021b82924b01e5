-- ===== src/Phrase.antt =====
-- internal/notifier/presets.go: the prose of a notification, from labels, zones, faces and GenAI text.
pub mod Bounds
mod Examples
use frigate_notifications.Prelude.{
  ℕ, suc, ◌/◌, Bool, true, not, ◌&&◌, ◌||◌, Option, none, some, List, [], ◌∷◌, ◌++◌, map, Text, lit,
  text_eq, trim_suffix, is_empty, any, length, take, ltb, leb, ◌==◌, if◌then◌else◌,
}
use frigate_notifications.Unicode.{Unicode, trim_space}
use frigate_notifications.Frigate.{ReviewData, ReviewPayload}

abbrev pub ellipsis : Text
ellipsis = lit "…"

abbrev pub member : Text → List Text → Bool
member s l = any (λ t. text_eq t s) l

abbrev suffix_verified : Text
suffix_verified = lit "-verified"

normalize_onto : List Text → List Text → List Text
normalize_onto out [] = out
normalize_onto out (o ∷ rest) =
    let name = trim_suffix o suffix_verified in
    normalize_onto (if member name out then out else out ++ (name ∷ [])) rest

unfoldable pub normalize_objects : List Text → List Text
unfolding normalize_onto trim_suffix
normalize_objects objects = normalize_onto [] objects

-- strings.FieldsFunc at "_" and "-": `word` is the field read so far.
abbrev flush : Text → List Text → List Text
flush [] fields = fields
flush (c ∷ word) fields = (c ∷ word) ∷ fields

fields_from : Text → Text → List Text
fields_from word [] = flush word []
fields_from word (c ∷ s) =
    let cut = flush word (fields_from [] s) in
    let more = fields_from (word ++ (c ∷ [])) s in if c == b'_' || c == b'-' then cut else more

-- strings.Join
unfoldable pub join : Text → List Text → Text
join sep [] = []
join sep (s ∷ []) = s
join sep (s ∷ t ∷ rest) = s ++ (sep ++ join sep (t ∷ rest))

-- All but the last, joined by ", ", then ", and " and the last.
oxford : List Text → Text
oxford [] = []
oxford (a ∷ []) = lit ", and " ++ a
oxford (a ∷ b ∷ rest) = lit ", " ++ (a ++ oxford (b ∷ rest))

unfoldable pub join_list : List Text → Text
unfolding oxford
join_list [] = []
join_list (a ∷ []) = a
join_list (a ∷ b ∷ []) = a ++ (lit " and " ++ b)
join_list (a ∷ b ∷ c ∷ rest) = a ++ oxford (b ∷ c ∷ rest)

-- The index of the first rune that ends the list's prefix at the last space, -1 being none.
last_space_from : Unicode → ℕ → Text → Option ℕ → Option ℕ
last_space_from u i [] found = found
last_space_from u i (c ∷ s) found =
    last_space_from u (suc i) s (if u.is_space c then some i else found)

module _ (u : Unicode) where
  abbrev upper_first : Text → Text
  upper_first [] = []
  upper_first (c ∷ s) = u.to_upper c ∷ s

  unfoldable pub humanize : Text → Text
  unfolding fields_from join
  humanize s = join (lit " ") (map upper_first (fields_from [] s))

  unfoldable pub humanize_all : List Text → List Text
  humanize_all items = map (humanize) items

  unfoldable pub humanize_list : List Text → Text
  humanize_list items = join_list (humanize_all items)

  add_name : List Text → Text → List Text
  add_name parts name = if member name parts then parts else parts ++ (name ∷ [])

  add_faces : List Text → List Text → List Text
  add_faces parts [] = parts
  add_faces parts (name ∷ rest) = add_faces (add_name parts name) rest

  add_objects : List Text → List Text → List Text
  add_objects parts [] = parts
  add_objects parts (obj ∷ rest) =
      add_objects (if text_eq obj (lit "person") then parts else add_name parts (humanize obj)) rest

  unfoldable pub build_subject : ReviewData → Text
  unfolding add_faces add_objects add_name humanize_all
  build_subject d =
      let objects = normalize_objects d.objects in
      if is_empty d.sub_labels
      then (if is_empty objects then lit "Activity" else humanize_list objects)
      else join_list (add_objects (add_faces [] (humanize_all d.sub_labels)) objects)

  unfoldable pub build_headline : ReviewPayload → Text
  unfolding build_subject humanize_list
  build_headline review =
      let d = review.review_data in
      if is_empty d.objects && is_empty d.sub_labels && not (is_empty d.audio)
      then humanize_list d.audio ++ lit " heard"
      else build_subject d
        ++ (lit " detected"
            ++ (if is_empty d.zones then [] else lit " in " ++ humanize_list d.zones))

  -- The cut at `max` runes backs up to a space, unless that loses over half.
  abbrev back_up : ℕ → Text → Option ℕ → Text
  back_up max cut none = cut
  back_up max cut (some i) = if ltb (max / 2) i then take i cut else cut

  unfoldable pub truncate_words : Text → ℕ → Text
  unfolding last_space_from
  truncate_words s max =
      let r = trim_space u s in
      if leb (length r) max
      then r
      else trim_space u (back_up max (take max r) (last_space_from u 0 (take max r) none))
        ++ ellipsis

  abbrev is_ending : ℕ → Bool
  is_ending c = c == b'.' || c == b'!' || c == b'?'

  abbrev ends_here : Text → Bool
  ends_here [] = true
  ends_here (c ∷ s) = c == 32 || c == 10

  -- lastWord: the letters at the end, kept while the text before is read
  unfoldable pub last_word_from : Text → Text → Text
  last_word_from word [] = word
  last_word_from word (c ∷ s) = last_word_from (if u.is_letter c then word ++ (c ∷ []) else []) s

  abbrev abbreviations : List Text
  abbreviations =
      lit "mr" ∷ lit "mrs" ∷ lit "ms" ∷ lit "dr" ∷ lit "st" ∷ lit "vs" ∷ lit "jr" ∷ lit "sr" ∷ []

  is_abbreviation : Text → Bool
  unfolding last_word_from
  is_abbreviation before = member (map u.to_lower (last_word_from [] before)) abbreviations

  -- The loop of `firstSentence`: `before` has been read, the rest has not.
  unfoldable pub sentence_from : Text → Text → Text
  unfolding is_abbreviation
  sentence_from before [] = before
  sentence_from before (c ∷ rest) =
      let more = sentence_from (before ++ (c ∷ [])) rest in
      if not (is_ending c)
      then more
      else if not (ends_here rest)
      then more
      else if c == b'.' && is_abbreviation before
      then more
      else before ++ (c ∷ [])

  unfoldable pub first_sentence : Text → ℕ → Text
  unfolding sentence_from truncate_words
  first_sentence s max = truncate_words (sentence_from [] (trim_space u s)) max
