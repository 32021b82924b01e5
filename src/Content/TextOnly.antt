-- ===== src/Content/TextOnly.antt =====
-- internal/notifier/presets.go: the text preset.
use frigate_notifications.Prelude.{
  ℕ, ◌≡◌, refl, true, false, List, [], ◌∷◌, Text, lookup, Option-cases, Bool-cases, inl, inr,
}
use frigate_notifications.Config.{Config, Rule, Preset, text}
use frigate_notifications.Rules.{Phase}
use frigate_notifications.Frigate.{ReviewPayload}
use frigate_notifications.Message.{Message}
use frigate_notifications.Media.{Signer, media_url}
use frigate_notifications.Environment.{Env, Probe, fits, too_large, unavailable}
use frigate_notifications.Content.{
  Attached, Candidate, turn, attach_all, build_content, compose, live, is_clip, media_candidates,
  with_clip_page, attach_link, link_or_empty, is_text, is_liveview,
}

-- A message that carries no picture, no video and no live view.
pub record IsTextOnly (m : Message) : Type 0 where
  pub no_image : m.image ≡ []
  pub no_snapshot : m.snapshot ≡ []
  pub no_video : m.video ≡ []
  pub no_live : m.live_entity ≡ []

text_only : (p : Preset) → p ≡ text → is_text p ≡ true
text_only p e = rw e

no_liveview : (p : Preset) → p ≡ text → is_liveview p ≡ false
no_liveview p e = rw e

module _ {P : Type 0} (env : Env P) (cfg : Config) where
  with_clip_page-IsTextOnly :
      (s : Signer) (now : ℕ) (cand : Candidate) (a : Attached)
      → IsTextOnly a.message
      → IsTextOnly (with_clip_page env cfg s now cand a).message
  unfolding with_clip_page
  with_clip_page-IsTextOnly s now cand a h = elim (Bool-cases (is_clip cand.media)) [
    | inl shown ↦ rw shown (record {
      no_image = h.no_image;
      no_snapshot = h.no_snapshot;
      no_video = h.no_video;
      no_live = h.no_live;
    })
    | inr other ↦ rw other h
  ]

  attach_link-off :
      (cand : Candidate) (url : Text) (a : Attached) → attach_link env cfg false cand url a ≡ a
  unfolding attach_link
  attach_link-off cand [] a = refl
  attach_link-off cand (c ∷ url) a = refl

  turn-IsTextOnly :
      (s : Signer) (now : ℕ) (cand : Candidate) (p : Probe) (a : Attached)
      → IsTextOnly a.message
      → IsTextOnly (turn env cfg s now false cand p a).message
  turn-IsTextOnly s now cand unavailable a h = h
  turn-IsTextOnly s now cand too_large a h = with_clip_page-IsTextOnly s now cand a h
  turn-IsTextOnly s now cand fits a h =
      rw
        (attach_link-off cand (link_or_empty env cfg (media_url s cand.media cand.id now))
          (with_clip_page env cfg s now cand a))
        (with_clip_page-IsTextOnly s now cand a h)

  attach_all-IsTextOnly :
      (s : Signer) (now : ℕ) (cands : List Candidate) (a : Attached)
      → IsTextOnly a.message
      → IsTextOnly (attach_all env cfg s now false cands a).message
  unfolding attach_all
  attach_all-IsTextOnly s now [] a h = h
  attach_all-IsTextOnly s now (cand ∷ rest) a h = elim (Bool-cases (is_clip cand.media)) [
    | inl goes_on ↦ rw goes_on (
        attach_all-IsTextOnly s now rest _
          (turn-IsTextOnly s now cand (env.probe cand.media cand.id) a h))
    | inr stops ↦ rw stops h
  ]

  live-IsTextOnly :
      (rule : Rule) (review : ReviewPayload) (m : Message)
      → is_liveview rule.preset ≡ false
      → IsTextOnly m
      → IsTextOnly (live env cfg rule review m)
  unfolding live
  live-IsTextOnly rule review m other h = elim (Option-cases (lookup review.camera cfg.cameras)) [
    | inl unknown ↦ rw (unknown, live) h
    | inr (camera, e) ↦ rw (e, live, other) h
  ]

  compose-IsTextOnly :
      (review : ReviewPayload) (phase : Phase) (tag description : Text)
      → IsTextOnly (compose env cfg review phase tag description)
  unfolding compose
  compose-IsTextOnly review phase tag description = record {
    no_image = refl;
    no_snapshot = refl;
    no_video = refl;
    no_live = refl;
  }

  -- Under the text preset a notification carries no picture, no video and no live view, in any phase and
  -- whatever media there are.
  pub build_content-IsTextOnly :
      (now : ℕ) (review : ReviewPayload) (rule : Rule) (phase : Phase)
      (tag event_id description : Text)
      → rule.preset ≡ text
      → IsTextOnly (build_content env cfg now review rule phase tag event_id description).0
  unfolding build_content
  build_content-IsTextOnly now review rule phase tag event_id description h =
      let c = live env cfg rule review (compose env cfg review phase tag description) in
      let plain =
        live-IsTextOnly rule review _ (no_liveview rule.preset h)
          (compose-IsTextOnly review phase tag description) in
      elim (Option-cases env.signer) [
        | inl unsigned ↦ rw unsigned plain
        | inr (s, e) ↦
            rw (e, text_only rule.preset h)
              (attach_all-IsTextOnly s now (media_candidates review phase event_id) _ plain)
      ]
