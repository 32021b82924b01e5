-- ===== src/Media/Proxy/Served.antt =====
-- internal/media/proxy.go: what the proxy serves was asked for with a signature, and is not over.
use frigate_notifications.Prelude.{
  ℕ, ◌≡◌, inl, inr, refl, ap, ◌∙◌, true, false, not, Option, none, some, [], ◌++◌, Text, lit,
  is_empty, any, ◌==◌, if◌then◌else◌, Bool-cases, arith,
}
use frigate_notifications.Prelude.Int.{pos}
use frigate_notifications.Media.{
  Kind, snapshot, clip, preview, play, vod, kind_name, ext, accepts, upstream_path, parse_int, link,
  vod_base, Signer, Verified, bad_request, bad_signature, expired, valid, verify,
}
use frigate_notifications.Media.Proxy.{
  Request, Answer, not_allowed, refused, forward, player, malformed, vod_file, vod_path, clip_parts,
  exp_of, forbidden, reject_link, four_parts, serve_file, serve_vod, serve_verified, serve_id,
  serve_kind, serve_name, serve, cut, cut_suffix, kind_of, allowed, trim_slash,
}
use frigate_notifications.Media.Proxy.Parts.{
  cut-append, cut_suffix-stem, kind_of-kind_name, joined, four_parts-joined,
}
use frigate_notifications.Media.Proxy.Authentic.{IsSigned, verify-IsSigned}

-- A request for a file of a clip, all of it in the path.
pub record IsOfFile (s : Signer) (now : ℕ) (r : Request) (path type : Text) (remaining : ℕ)
    : Type 0 where
  pub id : Text
  pub exp : Text
  pub sig : Text
  pub file : Text
  pub asked : trim_slash r.path ≡ lit "vod/" ++ joined id exp sig file
  pub signed : IsSigned s now vod id exp sig remaining
  pub named : vod_file file ≡ some type
  pub found : path ≡ vod_path (clip_parts id).0 (clip_parts id).1 (clip_parts id).2 file

-- The name of a medium in the path.
abbrev pub named_path : Kind → Text → Text
named_path k id = kind_name k ++ (lit "/" ++ (id ++ (lit "." ++ ext k)))

-- A request for a medium by its name, with the end and the signature in the query.
pub record IsOfMedium (s : Signer) (now : ℕ) (r : Request) (k : Kind) (path : Text) (remaining : ℕ)
    : Type 0 where
  pub id : Text
  pub asked : trim_slash r.path ≡ named_path k id
  pub signed : IsSigned s now k id r.exp r.sig remaining
  pub found : upstream_path k id ≡ some path

-- A request for the player, whose two sources are links to the same clip that end when it does.
pub record IsOfPlayer (s : Signer) (now : ℕ) (r : Request) (camera hls mp4 : Text) (remaining : ℕ)
    : Type 0 where
  pub id : Text
  pub asked : trim_slash r.path ≡ named_path play id
  pub signed : IsSigned s now play id r.exp r.sig remaining
  pub of_camera : camera ≡ (clip_parts id).0
  pub playlist : hls ≡ vod_base s id (pos signed.end) ++ lit "master.m3u8"
  pub whole : mp4 ≡ link s clip id (pos signed.end)

exp_of-end : (exp : Text) (end : ℕ) → parse_int exp ≡ some (pos end) → exp_of exp ≡ pos end
exp_of-end exp end e = rw (exp_of, e) refl

module _ (s : Signer) (now : ℕ) (r : Request) where
  -- What is fetched or shown was asked for with a signature.
  pub Signed : Answer → Type 0
  Signed (forward vod path type remaining) = IsOfFile s now r path type remaining
  Signed (forward k path type remaining) = IsOfMedium s now r k path remaining
  Signed (player camera hls mp4 remaining) = IsOfPlayer s now r camera hls mp4 remaining
  Signed not_allowed = Unit
  Signed (refused reason status) = Unit

  reject_link-Signed :
      (v : Verified) (f : ℕ → Answer)
      → ((remaining : ℕ) → v ≡ valid remaining → Signed (f remaining))
      → Signed (reject_link v f)
  unfolding Signed
  reject_link-Signed bad_request f h = tt
  reject_link-Signed bad_signature f h = tt
  reject_link-Signed expired f h = tt
  reject_link-Signed (valid remaining) f h = h remaining refl

  clip-path :
      (id : Text)
      → accepts clip id ≡ true
      → upstream_path clip id ≡ some (elim (upstream_path clip id) [ none ↦ [] | some path ↦ path ])
  unfolding upstream_path accepts
  clip-path id a = ground arith

  serve_verified-Signed :
      (k : Kind) (id : Text) (remaining : ℕ)
      → is_empty (ext k) ≡ false
      → trim_slash r.path ≡ named_path k id
      → IsSigned s now k id r.exp r.sig remaining
      → Signed (serve_verified s now k id r.exp remaining)
  unfolding serve_verified Signed upstream_path
  serve_verified-Signed snapshot id remaining x p e = record {
    id = id;
    asked = p;
    signed = e;
    found = refl;
  }
  serve_verified-Signed preview id remaining x p e = record {
    id = id;
    asked = p;
    signed = e;
    found = refl;
  }
  serve_verified-Signed clip id remaining x p e = record {
    id = id;
    asked = p;
    signed = e;
    found = clip-path id e.admitted;
  }
  serve_verified-Signed play id remaining x p e = record {
    id = id;
    asked = p;
    signed = e;
    of_camera = refl;
    playlist = ap (λ x. vod_base s id x ++ lit "master.m3u8") (exp_of-end r.exp e.end e.reads);
    whole = ap (link s clip id) (exp_of-end r.exp e.end e.reads);
  }
  serve_verified-Signed vod id remaining x p e = absurd cc

  serve_id-Signed :
      (k : Kind) (name : Text) (o : Option Text)
      → trim_slash r.path ≡ kind_name k ++ (lit "/" ++ name)
      → cut_suffix name (lit "." ++ ext k) ≡ o
      → Signed (serve_id s now k r.exp r.sig o)
  unfolding serve_id Signed
  serve_id-Signed k name none p e = tt
  serve_id-Signed k name (some id) p e =
      let stem = cut_suffix-stem name (lit "." ++ ext k) id e in
      let path = p ∙ ap (λ n. kind_name k ++ (lit "/" ++ n)) stem in
      elim (Bool-cases (is_empty (ext k))) [
        | inl b ↦ rw (serve_id, b) tt
        | inr b ↦
            rw (serve_id, b)
              (reject_link-Signed (verify s k id r.exp r.sig now) _ (λ remaining v.
                serve_verified-Signed k id remaining b path
                  (verify-IsSigned s now k id r.exp r.sig remaining v)))
      ]

  file-Signed :
      (id exp sig file : Text) (o : Option Text)
      → trim_slash r.path ≡ lit "vod/" ++ joined id exp sig file
      → vod_file file ≡ o
      → Signed (elim o [
        | none ↦ refused malformed forbidden
        | some type ↦ serve_file s now id exp sig file type
      ])
  unfolding serve_file Signed
  file-Signed id exp sig file none p t = tt
  file-Signed id exp sig file (some type) p t =
      reject_link-Signed (verify s vod id exp sig now) _ (λ remaining v. record {
        id = id;
        exp = exp;
        sig = sig;
        file = file;
        asked = p;
        signed = verify-IsSigned s now vod id exp sig remaining v;
        named = t;
        found = refl;
      })

  parts-Signed :
      (rest : Text) (o : Option (Text × Text × Text × Text))
      → trim_slash r.path ≡ lit "vod/" ++ rest
      → four_parts rest ≡ o
      → Signed (elim o [
        | none ↦ refused malformed forbidden
        | some (id, exp, sig, file) ↦ elim (vod_file file) [
          | none ↦ refused malformed forbidden
          | some type ↦ serve_file s now id exp sig file type
        ]
      ])
  unfolding Signed
  parts-Signed rest none p e = tt
  parts-Signed rest (some (id, exp, sig, file)) p e =
      file-Signed id exp sig file (vod_file file)
        (p ∙ ap (λ t. lit "vod/" ++ t) (four_parts-joined rest id exp sig file e)) refl

  slash-Signed :
      (k : Kind) (name : Text)
      → trim_slash r.path ≡ kind_name k ++ (lit "/" ++ name)
      → Signed (
          if any (λ c. c == b'/') name
          then refused malformed 404
          else serve_kind s now k name r.exp r.sig)
  unfolding serve_kind Signed
  slash-Signed k name p = elim (Bool-cases (any (λ c. c == b'/') name)) [
    | inl b ↦ rw b tt
    | inr b ↦ rw b (serve_id-Signed k name (cut_suffix name (lit "." ++ ext k)) p refl)
  ]

  serve_name-Signed :
      (k : Kind) (name : Text)
      → trim_slash r.path ≡ kind_name k ++ (lit "/" ++ name)
      → Signed (serve_name s now (some k) name r.exp r.sig)
  unfolding serve_name serve_vod
  serve_name-Signed vod name p = parts-Signed name (four_parts name) p refl
  serve_name-Signed snapshot name p = slash-Signed snapshot name p
  serve_name-Signed clip name p = slash-Signed clip name p
  serve_name-Signed preview name p = slash-Signed preview name p
  serve_name-Signed play name p = slash-Signed play name p

  kind-Signed :
      (raw name : Text) (o : Option Kind)
      → trim_slash r.path ≡ raw ++ (lit "/" ++ name)
      → kind_of raw ≡ o
      → Signed (serve_name s now o name r.exp r.sig)
  unfolding serve_name Signed
  kind-Signed raw name none p e = elim (Bool-cases (any (λ c. c == b'/') name)) [
    | inl b ↦ rw (serve_name, b) tt
    | inr b ↦ rw (serve_name, b) tt
  ]
  kind-Signed raw name (some k) p e =
      serve_name-Signed k name (p ∙ ap (λ t. t ++ (lit "/" ++ name)) (kind_of-kind_name raw k e))

  path-Signed :
      (o : Option (Text × Text))
      → cut b'/' (trim_slash r.path) ≡ o
      → Signed (elim o [
        | none ↦ refused malformed 404
        | some (raw, name) ↦ serve_name s now (kind_of raw) name r.exp r.sig
      ])
  unfolding Signed
  path-Signed none e = tt
  path-Signed (some (raw, name)) e =
      kind-Signed raw name (kind_of raw) (cut-append b'/' (trim_slash r.path) raw name e) refl

  -- The proxy fetches from Frigate, or shows a player, only for a request that has the signature which
  -- the signer gives to the kind, the id and the end that the request names, before that end, and to be
  -- kept until then. It fetches the path of that medium, or the file that is named of that clip, and
  -- the player's sources are links to the same clip with the same end.
  pub serve-Signed : Signed (serve s now r)
  unfolding serve Signed
  serve-Signed = elim (Bool-cases (not (allowed r.method))) [
    | inl b ↦ rw (serve, b) tt
    | inr b ↦ rw (serve, b) (path-Signed (cut b'/' (trim_slash r.path)) refl)
  ]
