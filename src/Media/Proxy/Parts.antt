-- ===== src/Media/Proxy/Parts.antt =====
-- internal/media/proxy.go: a request's path is put together again of what it is taken apart into.
use frigate_notifications.Prelude.{
  ℕ, ◌≡◌, refl, sym, ap, ◌∙◌, true, false, none, some, [], ◌∷◌, ◌++◌, Text, lit, text_eq,
  eq_of_text_eq, ◌==◌, Bool-cases, Option-cases, inl, inr, arith,
}
use frigate_notifications.Media.{Kind, snapshot, clip, preview, play, vod, kind_name}
use frigate_notifications.Media.Proxy.{cut, cut_suffix, kind_of, four_parts}

cut-none : (sep c : ℕ) (s : Text) → (c == sep) ≡ false → cut sep s ≡ none → cut sep (c ∷ s) ≡ none
unfolding cut
cut-none sep c s b e = rw (cut, b, e) refl

cut-some :
    (sep c : ℕ) (s x y : Text)
    → (c == sep) ≡ false
    → cut sep s ≡ some (x, y)
    → cut sep (c ∷ s) ≡ some (c ∷ x, y)
unfolding cut
cut-some sep c s x y b e = rw (cut, b, e) refl

cut-here : (sep c : ℕ) (s : Text) → (c == sep) ≡ true → cut sep (c ∷ s) ≡ some ([], s)
unfolding cut
cut-here sep c s b = rw (cut, b) refl

-- What is cut at a rune is what is before it, the rune and what is after it.
pub cut-append : (sep : ℕ) (s x y : Text) → cut sep s ≡ some (x, y) → s ≡ x ++ (sep ∷ y)
unfolding cut
cut-append sep [] x y h = absurd (ground arith)
cut-append sep (c ∷ s) x y h = elim (Bool-cases (c == sep)) [
  | inl b ↦
      let same = sym (cut-here sep c s b) ∙ h in
      let rune : c ≡ sep = ground arith in
      let before : x ≡ [] = ground arith in let after : y ≡ s = ground arith in cc
  | inr b ↦ elim (Option-cases (cut sep s)) [
    | inl e ↦ absurd (let same = sym (cut-none sep c s b e) ∙ h in ground arith)
    | inr ((v, w), e) ↦
        let same = sym (cut-some sep c s v w b e) ∙ h in
        let rest = cut-append sep s v w e in
        let before : x ≡ c ∷ v = ground arith in let after : y ≡ w = ground arith in cc
  ]
]

suffix-here :
    (c : ℕ) (s suffix : Text) → text_eq (c ∷ s) suffix ≡ true → cut_suffix (c ∷ s) suffix ≡ some []
unfolding cut_suffix
suffix-here c s suffix b = rw (cut_suffix, b) refl

suffix-some :
    (c : ℕ) (s suffix stem : Text)
    → text_eq (c ∷ s) suffix ≡ false
    → cut_suffix s suffix ≡ some stem
    → cut_suffix (c ∷ s) suffix ≡ some (c ∷ stem)
unfolding cut_suffix
suffix-some c s suffix stem b e = rw (cut_suffix, b, e) refl

suffix-none :
    (c : ℕ) (s suffix : Text)
    → text_eq (c ∷ s) suffix ≡ false
    → cut_suffix s suffix ≡ none
    → cut_suffix (c ∷ s) suffix ≡ none
unfolding cut_suffix
suffix-none c s suffix b e = rw (cut_suffix, b, e) refl

-- What a suffix is cut off from is the stem and the suffix.
pub cut_suffix-stem : (s suffix stem : Text) → cut_suffix s suffix ≡ some stem → s ≡ stem ++ suffix
unfolding cut_suffix
cut_suffix-stem [] [] stem h = let empty : stem ≡ [] = ground arith in cc
cut_suffix-stem [] (d ∷ suffix) stem h = absurd (ground arith)
cut_suffix-stem (c ∷ s) suffix stem h = elim (Bool-cases (text_eq (c ∷ s) suffix)) [
  | inl b ↦
      let same = sym (suffix-here c s suffix b) ∙ h in
      let empty : stem ≡ [] = ground arith in let whole = eq_of_text_eq (c ∷ s) suffix b in cc
  | inr b ↦ elim (Option-cases (cut_suffix s suffix)) [
    | inl e ↦ absurd (let same = sym (suffix-none c s suffix b e) ∙ h in ground arith)
    | inr (t, e) ↦
        let same = sym (suffix-some c s suffix t b e) ∙ h in
        let rest = cut_suffix-stem s suffix t e in let longer : stem ≡ c ∷ t = ground arith in cc
  ]
]

-- A kind's name is the one that it is read from.
pub kind_of-kind_name : (raw : Text) (k : Kind) → kind_of raw ≡ some k → raw ≡ kind_name k
unfolding kind_of
kind_of-kind_name raw k h = elim (Bool-cases (text_eq raw (kind_name snapshot))) [
  | inl b ↦ named snapshot b (ground arith)
  | inr b0 ↦ elim (Bool-cases (text_eq raw (kind_name clip))) [
    | inl b ↦ named clip b (ground arith)
    | inr b1 ↦ elim (Bool-cases (text_eq raw (kind_name preview))) [
      | inl b ↦ named preview b (ground arith)
      | inr b2 ↦ elim (Bool-cases (text_eq raw (kind_name play))) [
        | inl b ↦ named play b (ground arith)
        | inr b3 ↦ elim (Bool-cases (text_eq raw (kind_name vod))) [
          | inl b ↦ named vod b (ground arith)
          | inr b4 ↦ absurd (ground arith)
        ]
      ]
    ]
  ]
]
  where
    named : (j : Kind) → text_eq raw (kind_name j) ≡ true → j ≡ k → raw ≡ kind_name k
    named j b e = eq_of_text_eq raw (kind_name j) b ∙ ap kind_name e

-- The four parts of a path under "vod/", put together again.
abbrev pub joined : Text → Text → Text → Text → Text
joined id exp sig file = id ++ (lit "/" ++ (exp ++ (lit "/" ++ (sig ++ (lit "/" ++ file)))))

pub four_parts-joined :
    (rest id exp sig file : Text)
    → four_parts rest ≡ some (id, exp, sig, file)
    → rest ≡ joined id exp sig file
unfolding four_parts
four_parts-joined rest id exp sig file h = elim (Option-cases (cut b'/' rest)) [
  | inl e ↦ absurd (ground arith)
  | inr ((a, rest1), e) ↦ elim (Option-cases (cut b'/' rest1)) [
    | inl f ↦ absurd (ground arith)
    | inr ((b, rest2), f) ↦ elim (Option-cases (cut b'/' rest2)) [
      | inl g ↦ absurd (ground arith)
      | inr ((c, d), g) ↦
          let first = cut-append b'/' rest a rest1 e in
          let second = cut-append b'/' rest1 b rest2 f in
          let third = cut-append b'/' rest2 c d g in
          let p : a ≡ id = ground arith in
          let q : b ≡ exp = ground arith in
          let r : c ≡ sig = ground arith in let s : d ≡ file = ground arith in cc
    ]
  ]
]
