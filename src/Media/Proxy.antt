-- ===== src/Media/Proxy.antt =====
-- internal/media/proxy.go and play.go: which links the proxy serves, from where, and for how long.
mod Parts
mod Authentic
pub mod Served
pub mod Roundtrip
mod Examples
use frigate_notifications.Prelude.{
  ℕ, ◌+◌, ◌-◌, ◌/◌, Bool, true, false, not, ◌&&◌, ◌||◌, Option, none, some, List, [], ◌∷◌, ◌++◌,
  Text, lit, text_eq, is_empty, all, any, length, ltb, leb, ◌==◌, if◌then◌else◌, Map, lookup,
}
use frigate_notifications.Prelude.Int.{ℤ, pos}
use frigate_notifications.Prelude.Numerals.{decimal}
use frigate_notifications.Clock.{second}
use frigate_notifications.Media.{
  Kind, snapshot, clip, preview, play, vod, kind_name, ext, parse_int, parse_clip_id, upstream_path,
  Signer, link, vod_base, Verified, bad_request, bad_signature, expired, valid, verify,
}

pub data Method : Type 0 where
  get head other : Method

-- The path after "/m/", and the query's "exp" and "sig".
pub record Request : Type 0 where
  pub method : Method
  pub path : Text
  pub exp : Text
  pub sig : Text

pub data Reason : Type 0 where
  malformed link_expired bad_link_signature : Reason

-- Refusals have a status. What is forwarded has the kind, the path on Frigate and the content type, and
-- the player's page the camera and its two sources; both have the time left on the link.
pub data Answer : Type 0 where
  not_allowed : Answer
  refused : Reason → ℕ → Answer
  forward : Kind → Text → Text → ℕ → Answer
  player : Text → Text → Text → ℕ → Answer

unfoldable pub content_type : Kind → Text
content_type clip = lit "video/mp4"
content_type preview = lit "image/gif"
content_type play = lit "text/html; charset=utf-8"
content_type snapshot = lit "image/jpeg"
content_type vod = []

unfoldable pub kind_of : Text → Option Kind
kind_of t =
    if text_eq t (kind_name snapshot)
    then some snapshot
    else if text_eq t (kind_name clip)
    then some clip
    else if text_eq t (kind_name preview)
    then some preview
    else if text_eq t (kind_name play)
    then some play
    else if text_eq t (kind_name vod)
    then some vod
    else none

-- strings.Cut at a rune
unfoldable pub cut : ℕ → Text → Option (Text × Text)
cut sep [] = none
cut sep (c ∷ s) = elim (c == sep) [
  | true ↦ some ([], s)
  | false ↦ elim (cut sep s) [ none ↦ none | some (before, after) ↦ some (c ∷ before, after) ]
]

-- strings.CutSuffix
unfoldable pub cut_suffix : Text → Text → Option Text
cut_suffix [] suffix = if is_empty suffix then some [] else none
cut_suffix (c ∷ s) suffix = elim (text_eq (c ∷ s) suffix) [
  | true ↦ some []
  | false ↦ elim (cut_suffix s suffix) [ none ↦ none | some stem ↦ some (c ∷ stem) ]
]

abbrev pub allowed : Method → Bool
allowed other = false
allowed _ = true

abbrev pub trim_slash : Text → Text
trim_slash [] = []
trim_slash (c ∷ s) = if c == b'/' then s else c ∷ s

-- rejectLink
abbrev pub forbidden : ℕ
forbidden = 403

abbrev pub reject_link : Verified → (ℕ → Answer) → Answer
reject_link expired f = refused link_expired forbidden
reject_link bad_signature f = refused bad_link_signature forbidden
reject_link bad_request f = refused malformed forbidden
reject_link (valid remaining) f = f remaining

abbrev is_name_rune : ℕ → Bool
is_name_rune c =
    (leb b'A' c && leb c b'Z')
    || (leb b'a' c && leb c b'z')
    || (leb b'0' c && leb c b'9')
    || c == b'-'

-- vodContentTypes; a text that is no key is of no file that `vodFileRe` admits.
unfoldable pub vod_types : Map Text
vod_types =
    (lit "m3u8", lit "application/vnd.apple.mpegurl")
    ∷ (lit "m4s", lit "video/iso.segment")
    ∷ (lit "mp4", lit "video/mp4")
    ∷ []

-- The content type of a file that vodFileRe admits: ^[A-Za-z0-9-]{1,64}\.(m3u8|m4s|mp4)$
unfoldable pub vod_file : Text → Option Text
unfolding cut vod_types
vod_file file = elim (cut b'.' file) [
  | none ↦ none
  | some (stem, extension) ↦
      if all is_name_rune stem && leb 1 (length stem) && leb (length stem) 64
      then lookup extension vod_types
      else none
]

-- strings.Split(rest, "/"), where it has four parts
unfoldable pub four_parts : Text → Option (Text × Text × Text × Text)
unfolding cut
four_parts rest = elim (cut b'/' rest) [
  | none ↦ none
  | some (a, rest1) ↦ elim (cut b'/' rest1) [
    | none ↦ none
    | some (b, rest2) ↦ elim (cut b'/' rest2) [
      | none ↦ none
      | some (c, d) ↦ if any (λ r. r == b'/') d then none else some (a, b, c, d)
    ]
  ]
]

abbrev vod_path : Text → ℕ → ℕ → Text → Text
vod_path camera start end file =
    lit "/vod/"
    ++ (camera
        ++ (lit "/start/"
            ++ (decimal start ++ (lit "/end/" ++ (decimal end ++ (lit "/" ++ file))))))

-- The camera and the span of a verified clip id; Go's zero values where there are none.
abbrev clip_parts : Text → Text × ℕ × ℕ
clip_parts id = elim (parse_clip_id id) [ none ↦ ([], 0, 0) | some p ↦ p ]

abbrev pub exp_of : Text → ℤ
exp_of t = elim (parse_int t) [ none ↦ pos 0 | some n ↦ n ]

module _ (s : Signer) (now : ℕ) where
  unfoldable pub serve_file : Text → Text → Text → Text → Text → Answer
  serve_file id exp sig file type = reject_link (verify s vod id exp sig now) (λ remaining.
      let (camera, start, end) = clip_parts id in
      forward vod (vod_path camera start end file) type remaining)

  unfoldable pub serve_vod : Text → Answer
  unfolding four_parts vod_file serve_file
  serve_vod rest = elim (four_parts rest) [
    | none ↦ refused malformed forbidden
    | some (id, exp, sig, file) ↦ elim (vod_file file) [
      | none ↦ refused malformed forbidden
      | some type ↦ serve_file id exp sig file type
    ]
  ]

  -- A verified link, of the player or to what Frigate has.
  unfoldable pub serve_verified : Kind → Text → Text → ℕ → Answer
  unfolding content_type
  serve_verified play id exp remaining =
      player (clip_parts id).0 (vod_base s id (exp_of exp) ++ lit "master.m3u8")
        (link s clip id (exp_of exp)) remaining
  serve_verified k id exp remaining =
      forward k (elim (upstream_path k id) [ none ↦ [] | some path ↦ path ]) (content_type k)
        remaining

  -- With the id that the name has before the extension.
  unfoldable pub serve_id : Kind → Text → Text → Option Text → Answer
  unfolding serve_verified
  serve_id k exp sig none = refused malformed forbidden
  serve_id k exp sig (some id) =
      if is_empty (ext k)
      then refused malformed forbidden
      else reject_link (verify s k id exp sig now) (serve_verified k id exp)

  unfoldable pub serve_kind : Kind → Text → Text → Text → Answer
  unfolding cut_suffix serve_id
  serve_kind k name exp sig = serve_id k exp sig (cut_suffix name (lit "." ++ ext k))

  unfoldable pub serve_name : Option Kind → Text → Text → Text → Answer
  unfolding serve_vod serve_kind
  serve_name (some vod) name exp sig = serve_vod name
  serve_name none name exp sig =
      if any (λ c. c == b'/') name then refused malformed 404 else refused malformed forbidden
  serve_name (some k) name exp sig =
      if any (λ c. c == b'/') name then refused malformed 404 else serve_kind k name exp sig

  unfoldable pub serve : Request → Answer
  unfolding kind_of cut serve_name
  serve r = if not (allowed r.method) then not_allowed else elim (cut b'/' (trim_slash r.path)) [
    | none ↦ refused malformed 404
    | some (kind_raw, name) ↦ serve_name (kind_of kind_raw) name r.exp r.sig
  ]
