-- ===== src/Content/Kept.antt =====
-- internal/notifier/presets.go: what attaching media leaves alone.
use frigate_notifications.Prelude.{
  ℕ, ◌≡◌, ◌∙◌, refl, Bool, not, ◌&&◌, List, [], ◌∷◌, Text, Option-cases, Bool-cases, inl, inr,
  arith,
}
use frigate_notifications.Config.{Config, Rule}
use frigate_notifications.Rules.{Phase}
use frigate_notifications.Frigate.{ReviewPayload}
use frigate_notifications.Message.{Message}
use frigate_notifications.Media.{Signer}
use frigate_notifications.Environment.{Env, Probe, fits, too_large, unavailable}
use frigate_notifications.Content.{
  Attached, Candidate, turn, attach_all, build_content, compose, live, is_clip, media_candidates,
}

module _ {P : Type 0} (env : Env P) (cfg : Config) where
  turn-tag :
      (s : Signer) (now : ℕ) (attach : Bool) (cand : Candidate) (p : Probe) (a : Attached)
      → (turn env cfg s now attach cand p a).message.tag ≡ a.message.tag
  unfolding attach_all
  turn-tag s now attach cand unavailable a = refl
  turn-tag s now attach cand too_large a = ground arith
  turn-tag s now attach cand fits a = ground arith

  attach_all-tag :
      (s : Signer) (now : ℕ) (attach : Bool) (cands : List Candidate) (a : Attached)
      → (attach_all env cfg s now attach cands a).message.tag ≡ a.message.tag
  unfolding attach_all
  attach_all-tag s now attach [] a = refl
  attach_all-tag s now attach (cand ∷ rest) a =
      let next = turn env cfg s now attach cand (env.probe cand.media cand.id) a in
      elim (Bool-cases (not attach && not (is_clip cand.media))) [
        | inl stops ↦ rw stops
        | inr goes_on ↦ rw goes_on (
            attach_all-tag s now attach rest next
            ∙ turn-tag s now attach cand (env.probe cand.media cand.id) a)
      ]

  live-tag :
      (rule : Rule) (review : ReviewPayload) (m : Message)
      → (live env cfg rule review m).tag ≡ m.tag
  unfolding live
  live-tag rule review m = ground arith

  compose-tag :
      (review : ReviewPayload) (phase : Phase) (tag description : Text)
      → (compose env cfg review phase tag description).tag ≡ tag
  unfolding compose
  compose-tag review phase tag description = refl

  -- A notification is under the tag that it was asked for.
  pub build_content-tag :
      (now : ℕ) (review : ReviewPayload) (rule : Rule) (phase : Phase)
      (tag event_id description : Text)
      → (build_content env cfg now review rule phase tag event_id description).0.tag ≡ tag
  unfolding build_content
  build_content-tag now review rule phase tag event_id description =
      let c = compose env cfg review phase tag description in
      let tags = live-tag rule review c ∙ compose-tag review phase tag description in
      elim (Option-cases env.signer) [
        | inl unsigned ↦ rw unsigned tags
        | inr (s, e) ↦
            rw e (attach_all-tag s now _ (media_candidates review phase event_id) _ ∙ tags)
      ]
