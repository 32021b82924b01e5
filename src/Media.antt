-- ===== src/Media.antt =====
-- internal/media/media.go and probe.go: signed, expiring links to media, and what may be attached.
-- The HMAC in base64 is a parameter of the signer.
pub mod Links
pub mod Proxy
pub mod Probe
pub mod Keys
mod Examples
use frigate_notifications.Prelude.{
  ℕ, suc, ◌+◌, ◌-◌, ◌*◌, ◌/◌, Bool, true, false, not, ◌&&◌, ◌||◌, Option, none, some, [], ◌∷◌, ◌++◌,
  Text, lit, text_eq, is_empty, all, length, ltb, leb, ◌==◌, if◌then◌else◌, Result, ok, err,
}
use frigate_notifications.Prelude.Int.{ℤ, pos, negsuc, ◌-ℤ◌}
use frigate_notifications.Prelude.Numerals.{decimal, parse_decimal}
use frigate_notifications.Clock.{second}

pub data Kind : Type 0 where
  snapshot clip preview play vod : Kind

abbrev pub kind_name : Kind → Text
kind_name snapshot = lit "snapshot"
kind_name clip = lit "clip"
kind_name preview = lit "preview"
kind_name play = lit "play"
kind_name vod = lit "vod"

abbrev pub ext : Kind → Text
ext snapshot = lit "jpg"
ext clip = lit "mp4"
ext preview = lit "gif"
ext play = lit "html"
ext vod = []

abbrev pub clip_pad_before : ℕ
clip_pad_before = 2

abbrev pub clip_pad_after : ℕ
clip_pad_after = 3

abbrev pub max_clip_span : ℕ
max_clip_span = 2 * 60 * 60

-- "%d"
abbrev pub signed_decimal : ℤ → Text
signed_decimal (pos n) = decimal n
signed_decimal (negsuc n) = lit "-" ++ decimal (suc n)

-- Start and end in nanoseconds; the id has whole seconds.
unfoldable pub clip_id : Text → ℕ → ℕ → Text
clip_id camera start end =
    signed_decimal (pos (start / second) -ℤ pos clip_pad_before)
    ++ (lit "-" ++ (decimal (end / second + clip_pad_after) ++ (lit "-" ++ camera)))

-- strings.Cut at "-"
unfoldable pub cut_dash : Text → Option (Text × Text)
cut_dash [] = none
cut_dash (c ∷ s) = elim (c == b'-') [
  | true ↦ some ([], s)
  | false ↦ elim (cut_dash s) [ none ↦ none | some (before, after) ↦ some (c ∷ before, after) ]
]

-- strings.SplitN(id, "-", 3), where it has three parts
unfoldable pub split_clip_id : Text → Option (Text × Text × Text)
unfolding cut_dash
split_clip_id id = elim (cut_dash id) [
  | none ↦ none
  | some (a, rest) ↦ elim (cut_dash rest) [ none ↦ none | some (b, c) ↦ some (a, b, c) ]
]

abbrev max_int64 : ℕ
max_int64 = 9_223_372_036_854_775_807

abbrev in_range : ℕ → (ℕ → ℤ) → Option ℕ → Option ℤ
in_range max signed none = none
in_range max signed (some n) = if ltb max n then none else some (signed n)

-- strconv.ParseInt(s, 10, 64)
unfoldable pub parse_int : Text → Option ℤ
parse_int [] = none
parse_int (c ∷ s) =
    if c == b'+'
    then in_range max_int64 pos (parse_decimal s)
    else if c == b'-'
    then in_range (max_int64 + 1) (λ n. pos 0 -ℤ pos n) (parse_decimal s)
    else in_range max_int64 pos (parse_decimal (c ∷ s))

abbrev check_span : Text → Option ℤ → Option ℤ → Option (Text × ℕ × ℕ)
check_span camera (some (pos start)) (some (pos end)) =
    if leb start 0 || leb end start || ltb max_clip_span (end - start)
    then none
    else some (camera, start, end)
check_span camera _ _ = none

unfoldable pub parse_clip_id : Text → Option (Text × ℕ × ℕ)
parse_clip_id id = elim (split_clip_id id) [
  | none ↦ none
  | some (a, b, camera) ↦
      if is_empty camera || text_eq camera (lit ".")
      then none
      else check_span camera (parse_int a) (parse_int b)
]

abbrev pub id_rune : ℕ → Bool
id_rune c =
    (leb b'A' c && leb c b'Z')
    || (leb b'a' c && leb c b'z')
    || (leb b'0' c && leb c b'9')
    || (c == b'.' || c == b'_' || c == b'-')

-- strings.Contains(id, "..")
unfoldable pub has_dots : Text → Bool
has_dots [] = false
has_dots (c ∷ []) = false
has_dots (c ∷ d ∷ s) = (c == b'.' && d == b'.') || has_dots (d ∷ s)

unfoldable pub valid_id : Text → Bool
unfolding has_dots
valid_id id =
    (all id_rune id && leb 1 (length id) && leb (length id) 128)
    && not (text_eq id (lit "."))
    && not (text_eq id (lit ".."))
    && not (has_dots id)

abbrev pub is_some : {A : Type 0} → Option A → Bool
is_some none = false
is_some (some _) = true

abbrev pub takes : Kind → Text → Bool
takes snapshot id = true
takes preview id = true
takes _ id = is_some (parse_clip_id id)

unfoldable pub accepts : Kind → Text → Bool
accepts k id = valid_id id && takes k id

abbrev clip_path : Option (Text × ℕ × ℕ) → Option Text
clip_path none = none
clip_path (some (camera, start, end)) = some (
    lit "/api/"
    ++ (camera
        ++ (lit "/start/" ++ (decimal start ++ (lit "/end/" ++ (decimal end ++ lit "/clip.mp4"))))))

unfoldable pub upstream_path : Kind → Text → Option Text
upstream_path snapshot id = some (lit "/api/events/" ++ (id ++ lit "/snapshot.jpg?bbox=1"))
upstream_path clip id = clip_path (parse_clip_id id)
upstream_path preview id = some (lit "/api/review/" ++ (id ++ lit "/preview"))
upstream_path _ id = none

-- `mac` is the HMAC under the signer's key, in base64; `ttl` is in nanoseconds.
pub record Signer : Type 0 where
  pub mac : Text → Text
  pub base_url : Text
  pub ttl : ℕ

unfoldable pub sign : Signer → Kind → Text → ℤ → Text
sign s k id exp = s.mac (kind_name k ++ (lit "/" ++ (id ++ (lit "/" ++ signed_decimal exp))))

unfoldable pub link : Signer → Kind → Text → ℤ → Text
link s k id exp =
    s.base_url
    ++ (lit "/m/"
        ++ (kind_name k
            ++ (lit "/"
                ++ (id
                    ++ (lit "."
                        ++ (ext k
                            ++ (lit "?exp="
                                ++ (signed_decimal exp ++ (lit "&sig=" ++ sign s k id exp)))))))))

-- `now` is in nanoseconds, the expiry in seconds.
abbrev pub expiry : Signer → ℕ → ℕ
expiry s now = (now + s.ttl) / second

unfoldable pub media_url : Signer → Kind → Text → ℕ → Result Text
media_url s k id now =
    if is_empty (ext k) || not (accepts k id) then err else ok (link s k id (pos (expiry s now)))

unfoldable pub vod_base : Signer → Text → ℤ → Text
vod_base s id exp =
    s.base_url
    ++ (lit "/m/"
        ++ (kind_name vod
            ++ (lit "/"
                ++ (id
                    ++ (lit "/"
                        ++ (signed_decimal exp ++ (lit "/" ++ (sign s vod id exp ++ lit "/"))))))))

pub data Verified : Type 0 where
  bad_request bad_signature expired : Verified
  -- the time left, in nanoseconds
  valid : ℕ → Verified

abbrev check_expiry : ℤ → ℕ → Verified
check_expiry (pos exp) now = if leb (exp * second) now then expired else valid (exp * second - now)
check_expiry (negsuc exp) now = expired

abbrev check_signature : Signer → Kind → Text → Text → ℕ → ℤ → Verified
check_signature s k id sig now exp =
    if not (text_eq (sign s k id exp) sig) then bad_signature else check_expiry exp now

unfoldable pub verify : Signer → Kind → Text → Text → Text → ℕ → Verified
verify s k id exp_raw sig now =
    if not (accepts k id) then bad_request else elim (parse_int exp_raw) [
      | none ↦ bad_request
      | some exp ↦ check_signature s k id sig now exp
    ]

-- Largest sizes worth attaching, in bytes.
abbrev pub limit : Kind → ℕ
limit clip = 25 * 1_048_576
limit _ = 10 * 1_048_576
