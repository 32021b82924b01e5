-- ===== src/Content.antt =====
-- internal/notifier/presets.go: what a notification says and what it carries.
pub mod Kept
pub mod TextOnly
mod Examples
use frigate_notifications.Prelude.{
  ℕ, Bool, true, false, not, ◌&&◌, ◌||◌, Option, none, some, List, [], ◌∷◌, ◌++◌, Text, lit, lookup,
  is_empty, ltb, ◌==◌, if◌then◌else◌, Result, ok, err,
}
use frigate_notifications.Prelude.Int.{ℤ, pos, negsuc}
use frigate_notifications.Unicode.{trim_space}
use frigate_notifications.Config.{Config, Rule, Preset, text, liveview, camera_name, review_url}
use frigate_notifications.Rules.{Phase, end, update, is_end}
use frigate_notifications.Frigate.{ReviewPayload, ReviewMetadata, gen_ai}
use frigate_notifications.Message.{Message, Stage, started, updated, ended}
use frigate_notifications.Media.{Kind, snapshot, clip, preview, play, Signer, clip_id, media_url}
use frigate_notifications.Phrase.{
  build_headline, build_subject, first_sentence, truncate_words, normalize_objects, humanize_all,
}
use frigate_notifications.Environment.{
  Env, Moment, Effect, media_selected, Selected, off, no_media, kind, Probe, fits, too_large,
  unavailable,
}

pub record Candidate : Type 0 where
  pub media : Kind
  pub id : Text

abbrev clip_candidate : ReviewPayload → Option ℕ → List Candidate
clip_candidate review none = []
clip_candidate review (some stop) =
    record { media = clip; id = clip_id review.camera review.start_time stop } ∷ []

-- Best first; clips exist only after the end.
unfoldable pub media_candidates : ReviewPayload → Phase → Text → List Candidate
media_candidates review phase event_id =
    let snapshots : List Candidate =
      if is_empty event_id then [] else record { media = snapshot; id = event_id } ∷ [] in
    if is_end phase
    then clip_candidate review review.end_time
      ++ (record { media = preview; id = review.id } ∷ snapshots)
    else snapshots

abbrev pub stage_for : Phase → Stage
stage_for end = ended
stage_for update = updated
stage_for _ = started

abbrev threat_prefix : ℤ → Text
threat_prefix (pos n) =
    if n == 1 then lit "Needs review: " else if n == 2 then lit "Security concern: " else []
threat_prefix (negsuc n) = []

abbrev pub or_else : Text → Text → Text
or_else [] t = t
or_else (c ∷ s) t = c ∷ s

abbrev is_some : {A : Type 0} → Option A → Bool
is_some none = false
is_some (some _) = true

abbrev is_clip : Kind → Bool
is_clip clip = true
is_clip _ = false

abbrev is_snapshot : Kind → Bool
is_snapshot snapshot = true
is_snapshot _ = false

abbrev is_text : Preset → Bool
is_text text = true
is_text _ = false

abbrev is_liveview : Preset → Bool
is_liveview liveview = true
is_liveview _ = false

-- The message so far, and the kind that was selected.
pub record Attached : Type 0 where
  pub message : Message
  pub selected : Selected

module _ {P : Type 0} (env : Env P) (cfg : Config) where
  -- The headline, the detail and the threat.
  phrased : ReviewPayload → Text → Option ReviewMetadata → Text × Text × ℤ
  phrased review detail none = (build_headline env.unicode review, detail, pos 0)
  phrased review detail (some m) =
      let title = trim_space env.unicode m.title in
      let summary = trim_space env.unicode m.short_summary in
      let headline =
        if is_empty title
        then build_headline env.unicode review
        else truncate_words env.unicode title 120 in
      (
        threat_prefix m.potential_threat_level ++ headline,
        if is_empty summary then detail else truncate_words env.unicode summary 200,
        m.potential_threat_level,
      )

  unfoldable pub compose : ReviewPayload → Phase → Text → Text → Message
  unfolding phrased
  compose review phase tag description =
      let d = review.review_data in
      let meta = gen_ai env.decode_metadata d in
      let (headline, detail, threat) =
        phrased review (first_sentence env.unicode description 140) meta in
      let body =
        if is_empty detail
        then headline
        else if is_some meta
        then headline ++ (lit "\n" ++ detail)
        else detail in
      record {
        camera = review.camera;
        title = camera_name cfg review.camera;
        who = if is_empty d.sub_labels then [] else build_subject env.unicode d;
        headline = headline;
        detail = detail;
        body = trim_space env.unicode body;
        objects = normalize_objects d.objects;
        zones = humanize_all env.unicode d.zones;
        severity = review.severity;
        threat = threat;
        stage = stage_for phase;
        start = review.start_time;
        end = elim review.end_time [ none ↦ 0 | some t ↦ t ];
        tag = tag;
        image = [];
        snapshot = [];
        video = [];
        clip_url = [];
        click_url = review_url env.query_escape cfg review.id;
        live_entity = [];
        critical = false;
        update = false;
      }

  -- A link that cannot be signed is empty.
  link_or_empty : Result Text → Text
  link_or_empty err = []
  link_or_empty (ok url) = url

  abbrev first_selected : Selected → Kind → Selected
  first_selected no_media k = kind k
  first_selected s k = s

  -- What the candidate's link becomes: the clip is the video, the first other the image.
  place : Candidate → Text → Attached → Attached
  place cand url a =
      let m = a.message in
      let shown =
        if is_clip cand.media
        then record m { video = url }
        else if is_empty m.image
        then record m { image = url }
        else m in
      record {
        message = if is_snapshot cand.media then record shown { snapshot = url } else shown;
        selected = first_selected a.selected cand.media;
      }

  attach_link : Bool → Candidate → Text → Attached → Attached
  unfolding place
  attach_link attach cand [] a = a
  attach_link attach cand (c ∷ url) a = if attach then place cand (c ∷ url) a else a

  with_clip_page : Signer → ℕ → Candidate → Attached → Attached
  unfolding link_or_empty
  with_clip_page s now cand a =
      let m = a.message in
      if is_clip cand.media
      then record a {
        message = record m { clip_url = link_or_empty (media_url s play cand.id now) };
      }
      else a

  -- One turn of the loop over the candidates.
  abbrev turn : Signer → ℕ → Bool → Candidate → Probe → Attached → Attached
  turn s now attach cand unavailable a = a
  turn s now attach cand too_large a = with_clip_page s now cand a
  turn s now attach cand fits a =
      attach_link attach cand (link_or_empty (media_url s cand.media cand.id now))
        (with_clip_page s now cand a)

  -- The text preset stops at the first candidate that is no clip.
  unfoldable pub attach_all : Signer → ℕ → Bool → List Candidate → Attached → Attached
  unfolding attach_link with_clip_page
  attach_all s now attach [] a = a
  attach_all s now attach (cand ∷ rest) a =
      let next =
        attach_all s now attach rest (turn s now attach cand (env.probe cand.media cand.id) a) in
      if not attach && not (is_clip cand.media) then a else next

  live : Rule → ReviewPayload → Message → Message
  live rule review c = elim (lookup review.camera cfg.cameras) [
    | none ↦ c
    | some cam ↦
        if is_liveview rule.preset then record c { live_entity = cam.live_view_entity } else c
  ]

  abbrev with_media : Signer → ℕ → Rule → ReviewPayload → Phase → Text → Message → Attached
  with_media s now rule review phase event_id c =
      let attach = not (is_text rule.preset) in
      attach_all s now attach (media_candidates review phase event_id)
        (record { message = c; selected = if attach then no_media else off })

  -- The message, and what `MediaSelected` counts of it.
  unfoldable pub build_content :
      ℕ → ReviewPayload → Rule → Phase → Text → Text → Text → Message × List Effect
  unfolding compose live attach_all
  build_content now review rule phase tag event_id description =
      let c = live rule review (compose review phase tag description) in
      elim env.signer [
        | none ↦ (c, [])
        | some s ↦
            let a = with_media s now rule review phase event_id c in
            (a.message, media_selected phase a.selected ∷ [])
      ]
