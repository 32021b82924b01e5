-- ===== src/Media/Examples.antt =====
-- internal/media/media.go: links and clip ids at work.
use frigate_notifications.Prelude.{◌*◌, ◌≡◌, refl, true, some, lit, text_eq, arith}
use frigate_notifications.Clock.{second}
use frigate_notifications.Media.Links.{parse_clip_id-clip_id}
use frigate_notifications.Media.{
  snapshot, accepts, valid_id, has_dots, Signer, clip_id, parse_clip_id,
}

abbrev plain : Signer
plain = record { mac = λ t. t; base_url = lit "https://m"; ttl = 3600 * second }

e1_accepted : accepts snapshot (lit "e1") ≡ true
unfolding accepts valid_id has_dots text_eq
e1_accepted = refl

parse_clip_id-clip_id_example :
    parse_clip_id (clip_id (lit "front") (1000 * second) (1020 * second))
    ≡ some (lit "front", 998, 1023)
unfolding text_eq
parse_clip_id-clip_id_example =
    parse_clip_id-clip_id (lit "front") (1000 * second) (1020 * second) (λ h. cc) refl (omega arith)
      (omega arith) (omega arith) (omega arith)
