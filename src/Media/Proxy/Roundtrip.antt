-- ===== src/Media/Proxy/Roundtrip.antt =====
-- internal/media/media.go and proxy.go: the links that are sent are served.
use frigate_notifications.Prelude.{
  ℕ, ◌*◌, ◌-◌, ◌≤◌, ◌≡◌, ◌≢◌, ap, ◌∙◌, inl, inr, refl, true, false, ◌||◌, some, [], ◌∷◌, ◌++◌, Text,
  lit, text_eq, text_eq_refl, eq_of_text_eq, is_empty, any, all, length, length-append, leb, ◌==◌,
  if◌then◌else◌, Bool-cases, arith,
}
use frigate_notifications.Prelude.Int.{pos}
use frigate_notifications.Clock.{second}
use frigate_notifications.Media.{
  Kind, snapshot, clip, preview, play, vod, kind_name, ext, id_rune, valid_id, accepts,
  signed_decimal, sign, max_int64, Signer,
}
use frigate_notifications.Media.Links.{verify-sign}
use frigate_notifications.Media.Proxy.{
  Request, get, Answer, refused, link_expired, forbidden, kind_of, cut, cut_suffix, serve,
  serve_name, serve_id, serve_kind, serve_verified,
}

cut_suffix-append :
    (t suffix : Text) → is_empty suffix ≡ false → cut_suffix (t ++ suffix) suffix ≡ some t
unfolding cut_suffix
cut_suffix-append [] [] h = absurd cc
cut_suffix-append [] (c ∷ suffix) h = rw (text_eq_refl (c ∷ suffix), cut_suffix) refl
cut_suffix-append (c ∷ t) suffix h =
    let longer : text_eq (c ∷ (t ++ suffix)) suffix ≡ false = too_long c t suffix in
    rw (longer, cut_suffix-append t suffix h, cut_suffix) refl
  where
    too_long : (c : ℕ) (t suffix : Text) → text_eq (c ∷ (t ++ suffix)) suffix ≡ false
    too_long c t suffix = elim (Bool-cases (text_eq (c ∷ (t ++ suffix)) suffix)) [
      | inl b ↦
          let same = ap length (eq_of_text_eq _ _ b) in
          absurd (omega (arith, same, length-append t suffix))
      | inr b ↦ b
    ]

any_slash-append :
    (s t : Text)
    → any (λ c. c == b'/') (s ++ t) ≡ (any (λ c. c == b'/') s || any (λ c. c == b'/') t)
any_slash-append [] t = refl
any_slash-append (c ∷ s) t = ground (arith, any_slash-append s t)

no_slash : (id : Text) → all id_rune id ≡ true → any (λ c. c == b'/') id ≡ false
no_slash [] h = refl
no_slash (c ∷ id) h = ground (arith, no_slash id)

accepted-no_slash : (k : Kind) (id : Text) → accepts k id ≡ true → any (λ c. c == b'/') id ≡ false
unfolding accepts valid_id
accepted-no_slash k id h = no_slash id (ground arith)

-- The file name in a link.
abbrev pub file_name : Kind → Text → Text
file_name k id = id ++ (lit "." ++ ext k)

name-no_slash :
    (k : Kind) (id : Text) → accepts k id ≡ true → any (λ c. c == b'/') (file_name k id) ≡ false
name-no_slash k id h =
    any_slash-append id (lit "." ++ ext k) ∙ rw (accepted-no_slash k id h) (ext-no_slash k)
  where
    ext-no_slash : (k : Kind) → any (λ c. c == b'/') (lit "." ++ ext k) ≡ false
    ext-no_slash snapshot = refl
    ext-no_slash clip = refl
    ext-no_slash preview = refl
    ext-no_slash play = refl
    ext-no_slash vod = refl

-- A link, as its client asks for it.
abbrev pub ask : Signer → Kind → Text → ℕ → Request
ask s k id exp = record {
  method = get;
  path = kind_name k ++ (lit "/" ++ file_name k id);
  exp = signed_decimal (pos exp);
  sig = sign s k id (pos exp);
}

module _ (s : Signer) (now : ℕ) (id : Text) (exp : ℕ) (in_range : exp ≤ max_int64) where
  abbrev Kept : Kind → Answer → Type 0
  Kept k answer = answer ≡ (
      if leb (exp * second) now
      then refused link_expired forbidden
      else serve_verified s now k id (signed_decimal (pos exp)) (exp * second - now))

  serve_id-Kept :
      (k : Kind)
      → is_empty (ext k) ≡ false
      → accepts k id ≡ true
      → Kept k (serve_id s now k (signed_decimal (pos exp)) (sign s k id (pos exp)) (some id))
  unfolding serve_id
  serve_id-Kept k x h =
      rw (x, verify-sign s k id exp now h in_range)
        (elim (Bool-cases (leb (exp * second) now)) [ inl b ↦ rw b refl | inr b ↦ rw b refl ])

  serve_kind-Kept :
      (k : Kind)
      → is_empty (ext k) ≡ false
      → accepts k id ≡ true
      → Kept k
          (serve_kind s now k (file_name k id) (signed_decimal (pos exp)) (sign s k id (pos exp)))
  unfolding serve_kind
  serve_kind-Kept k x h =
      ap (serve_id s now k (signed_decimal (pos exp)) (sign s k id (pos exp)))
        (cut_suffix-append id (lit "." ++ ext k) refl)
      ∙ serve_id-Kept k x h

  -- A link of a kind that has a file name, with an id that the kind accepts and an expiry that an int64
  -- holds, is served until the second that it expires in, and refused as expired from then on.
  pub serve-ask :
      (k : Kind)
      → k ≢ vod
      → accepts k id ≡ true
      → serve s now (ask s k id exp) ≡ (
          if leb (exp * second) now
          then refused link_expired forbidden
          else serve_verified s now k id (signed_decimal (pos exp)) (exp * second - now))
  unfolding serve serve_name kind_of cut text_eq
  serve-ask snapshot n h = rw (name-no_slash snapshot id h) (serve_kind-Kept snapshot refl h)
  serve-ask clip n h = rw (name-no_slash clip id h) (serve_kind-Kept clip refl h)
  serve-ask preview n h = rw (name-no_slash preview id h) (serve_kind-Kept preview refl h)
  serve-ask play n h = rw (name-no_slash play id h) (serve_kind-Kept play refl h)
  serve-ask vod n h = absurd (n refl)
