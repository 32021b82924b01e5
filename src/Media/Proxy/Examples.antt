-- ===== src/Media/Proxy/Examples.antt =====
-- internal/media/proxy.go: links that the proxy serves and refuses.
use frigate_notifications.Prelude.{
  ℕ, ◌*◌, ◌-◌, ◌≡◌, refl, lit, text_eq, ◌++◌, Text, leb, arith, if◌then◌else◌, some, none, lookup,
}
use frigate_notifications.Prelude.Int.{pos}
use frigate_notifications.Clock.{second}
use frigate_notifications.Media.{Signer, snapshot, accepts, valid_id, signed_decimal}
use frigate_notifications.Media.Proxy.{
  refused, link_expired, forbidden, serve, serve_verified, vod_file,
}
use frigate_notifications.Media.Proxy.Served.{Signed, serve-Signed}
use frigate_notifications.Media.Proxy.Roundtrip.{ask, serve-ask}

abbrev signer : Signer
signer = record {
  mac = λ t. lit "mac_" ++ t;
  base_url = lit "https://frigate.example.com";
  ttl = 3600 * second;
}

abbrev event : Text
event = lit "1700000000.5-ab12"

abbrev noon : ℕ
noon = 1_700_000_000 * second

abbrev until : ℕ
until = 1_700_003_600

-- Nothing leaves the clip's directory.
no_parent : vod_file (lit "../seg-1.m4s") ≡ none
unfolding vod_file text_eq
no_parent = refl

segment : vod_file (lit "seg-1-v1.m4s") ≡ some (lit "video/iso.segment")
unfolding vod_file text_eq lookup
segment = refl

serve-Signed_example :
    Signed signer noon
      (ask signer snapshot event until)
      (serve signer noon (ask signer snapshot event until))
serve-Signed_example = serve-Signed signer noon (ask signer snapshot event until)

serve-ask_example : serve signer noon (ask signer snapshot event until) ≡ (
    if leb (until * second) noon
    then refused link_expired forbidden
    else serve_verified signer noon snapshot event
        (signed_decimal (pos until))
        (until * second - noon))
unfolding accepts valid_id text_eq
serve-ask_example = serve-ask signer noon event until (omega arith) snapshot (λ e. cc) refl
