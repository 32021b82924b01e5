-- ===== src/Media/Probe.antt =====
-- internal/media/probe.go: `Check`, and proxy.go: what `forward` makes of Frigate's answer.
use frigate_notifications.Prelude.{
  ℕ, ◌/◌, ◌≤◌, ◌<◌, ◌≡◌, ◌↔◌, Bool, true, false, not, ◌&&◌, ◌||◌, Option, none, some, [], ◌∷◌, ◌++◌,
  Text, lit, is_empty, ltb, leb, ◌==◌, if◌then◌else◌, Result, ok, err, arith,
}
use frigate_notifications.Prelude.Int.{ℤ, pos, ltb_ℤ, ◌≤ℤ◌}
use frigate_notifications.Clock.{second}
use frigate_notifications.Environment.{Probe, fits, too_large, unavailable}
use frigate_notifications.Media.{Kind, upstream_path}
use frigate_notifications.Media.Proxy.{content_type, cut}

-- What Frigate answers: the length that it declares, -1 for none, the length of the body, and whether
-- the body breaks off before its end.
pub record Upstream : Type 0 where
  pub status : ℕ
  pub content_type : Text
  pub content_length : ℤ
  pub body_length : ℕ
  pub broken : Bool

abbrev pub succeeded : ℕ → Bool
succeeded status = leb 200 status && ltb status 300

-- "image/" for "image/jpeg"
unfoldable pub main_type : Text → Text
unfolding cut
main_type t = elim (cut b'/' t) [ none ↦ t ++ lit "/" | some (main, sub) ↦ main ++ lit "/" ]

abbrev pub begins : Text → Text → Bool
begins s [] = true
begins [] (p ∷ ps) = false
begins (c ∷ s) (p ∷ ps) = c == p && begins s ps

-- The last `switch` of `Check`: what reading one byte past the limit shows.
unfoldable pub read_body : ℕ → Upstream → Probe
read_body limit r =
    if ltb limit r.body_length
    then too_large
    else if r.broken || r.body_length == 0
    then unavailable
    else fits

unfoldable pub check_response : Kind → ℕ → Upstream → Probe
unfolding read_body main_type content_type
check_response k limit r =
    if not (succeeded r.status)
    then unavailable
    else if not (begins r.content_type (main_type (content_type k)))
    then unavailable
    else if ltb_ℤ (pos limit) r.content_length
    then too_large
    else read_body limit r

-- `fetch` asks Frigate for a path.
unfoldable pub check : (Text → Result Upstream) → Kind → Text → ℕ → Probe
unfolding check_response
check fetch k id limit = elim (upstream_path k id) [
  | none ↦ unavailable
  | some path ↦ elim (fetch path) [ err ↦ unavailable | ok r ↦ check_response k limit r ]
]

-- What may be attached: an answer of the kind's sort, whole, with something in it and not too much.
pub record IsFit (k : Kind) (limit : ℕ) (r : Upstream) : Type 0 where
  pub success : succeeded r.status ≡ true
  pub sort : begins r.content_type (main_type (content_type k)) ≡ true
  pub declared : r.content_length ≤ℤ pos limit
  pub some_body : 0 < r.body_length
  pub room : r.body_length ≤ limit
  pub whole : r.broken ≡ false

-- `Check` lets a medium be attached exactly where Frigate answers with success, with the kind's sort of
-- content, and with a body that is whole, not empty and no longer than the limit, as it may declare.
pub check_response-iff-IsFit :
    (k : Kind) (limit : ℕ) (r : Upstream) → (check_response k limit r ≡ fits) ↔ IsFit k limit r
unfolding check_response read_body
check_response-iff-IsFit k limit r = (
  λ e. record {
    success = ground arith;
    sort = ground arith;
    declared = ground arith;
    some_body = ground arith;
    room = ground arith;
    whole = ground arith;
  },
  λ h.
      let a = h.success in
      let b = h.sort in
      let c = h.declared in
      let d = h.some_body in let e = h.room in let f = h.whole in ground arith,
)

-- What the client is told: the status, the type, and for how many seconds it may keep the answer, none
-- for not at all.
pub record Relayed : Type 0 where
  pub status : ℕ
  pub content_type : Text
  pub max_age : Option ℕ

-- Of an answer and the time left on the link.
unfoldable pub relay : Text → ℕ → Upstream → Relayed
relay type remaining r = record {
  status = r.status;
  content_type = if is_empty r.content_type then type else r.content_type;
  max_age = if succeeded r.status then some (remaining / second) else none;
}
