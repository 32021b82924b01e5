-- ===== src/Delivery.antt =====
-- internal/notifier/notifier.go: who gets a notification, first sends and updates in place.
pub mod Reach
pub mod Edits
pub mod First
pub mod Begin
pub mod Failed
pub mod Saved
pub mod Carried
mod Examples
use frigate_notifications.Prelude.{
  ℕ, zero, suc, Bool, true, false, not, ◌&&◌, ◌||◌, Option, none, some, List, [], ◌∷◌, ◌++◌, map,
  Text, lit, text_eq, lookup, length, get_elem?, is_empty, any, ltb, ◌==◌, if◌then◌else◌,
}
use frigate_notifications.Prelude.Int.{ℤ, pos, ltb_ℤ}
use frigate_notifications.Config.{
  Config, Recipient, Rule, Target, CooldownScope, global_scope, rule_scope, camera_scope,
}
use frigate_notifications.Rules.{Phase, end}
use frigate_notifications.Frigate.{ReviewPayload, primary_event_id}
use frigate_notifications.Message.{Message}
use frigate_notifications.Content.{build_content, or_else}
use frigate_notifications.Policy.{Verdict, send, held, apply_policy}
use frigate_notifications.Store.{
  Store, Delivery, ReviewState, recipients, acquire_cooldown, release_cooldown, save_review,
  description,
}
use frigate_notifications.Environment.{Env, Moment, Effect, suppressed, SuppressReason, cooldown}
use frigate_notifications.State.{State, Job, SendResult, emit, emit_all, deliver_to}

-- cooldownKey
unfoldable pub scope_key : Rule → Text → Text
scope_key rule camera = elim rule.cooldown_scope [
  | global_scope ↦ lit "global"
  | rule_scope ↦ rule.name
  | camera_scope ↦ rule.name ++ (lit ":" ++ camera)
]

-- The same recipient and target.
abbrev pub same_place : Delivery → Delivery → Bool
same_place d e = text_eq d.recipient e.recipient && d.target == e.target

-- The loop over the earlier deliveries; `reached` are those of the escalation.
unfoldable pub carry_from : List Delivery → Text → List Delivery → List Delivery
carry_from reached tag [] = []
carry_from reached tag (d ∷ rest) =
    let later = carry_from reached tag rest in
    if any (same_place d) reached then later else record d { tag = or_else d.tag tag } ∷ later

unfoldable pub carry_over : List Delivery → ReviewState → List Delivery
unfolding carry_from
carry_over delivered prior = delivered ++ carry_from delivered prior.tag prior.deliveries

-- The successful ones of `results`, whose targets count from `t`.
unfoldable pub delivered_from : Text → ℕ → List SendResult → List Delivery
delivered_from name t [] = []
delivered_from name t (r ∷ rest) =
    let later = delivered_from name (suc t) rest in
    if r.sent then record { recipient = name; target = t; ref = r.ref; tag = [] } ∷ later else later

-- One job to each of `n` targets, from `t` on.
unfoldable pub jobs_from : ℕ → List Target → List Job
jobs_from t [] = []
jobs_from t (_ ∷ rest) = record { target = t; prev = []; tag = [] } ∷ jobs_from (suc t) rest

-- The jobs of an update: the deliveries to `name` at a target that is still there, with their places
-- in the list, which count from `i`.
unfoldable pub update_jobs : Text → ℕ → ℕ → List Delivery → List (ℕ × Job)
update_jobs name targets i [] = []
update_jobs name targets i (d ∷ rest) =
    let later = update_jobs name targets (suc i) rest in
    if text_eq d.recipient name && ltb d.target targets
    then (i, record { target = d.target; prev = d.ref; tag = d.tag }) ∷ later
    else later

abbrev set_ref : ℕ → Text → List Delivery → List Delivery
set_ref i ref [] = []
set_ref zero ref (d ∷ rest) = record d { ref = ref } ∷ rest
set_ref (suc i) ref (d ∷ rest) = d ∷ set_ref i ref rest

-- The refs that the results changed, and whether any did.
unfoldable pub note_refs : List (ℕ × Job) → List SendResult → List Delivery → List Delivery × Bool
note_refs [] rs ds = (ds, false)
note_refs (j ∷ js) [] ds = (ds, false)
note_refs ((i, j) ∷ js) (r ∷ rs) ds =
    let new = r.sent && not (text_eq r.ref j.prev) in
    let (ds', changed) = note_refs js rs (if new then set_ref i r.ref ds else ds) in
    (ds', new || changed)

abbrev job_of : ℕ × Job → Job
job_of (i, j) = j

module _ {P : Type 0} (env : Env P) (cfg : Config) (at : Moment) where
  -- The GenAI description cached for an event.
  unfoldable pub cached_description : Text → State P → Text × State P
  cached_description [] s = ([], s)
  cached_description (c ∷ id) s =
      let (desc, store') = description env.backend env.codecs (c ∷ id) at.instant s.store in
      (desc, record s { store = store' })

  after_policy :
      ReviewPayload
      → Rule
      → Message
      → Phase
      → Text
      → Text
      → Recipient
      → Verdict
      → State P
      → List Delivery × State P
  unfolding emit
  after_policy review rule c phase event_id name recipient (held reason) s =
      ([], emit (suppressed reason rule.name name) s)
  after_policy review rule c phase event_id name recipient (send critical) s =
      let (rs, s') =
        deliver_to env cfg at review.id event_id name recipient (jobs_from 0 recipient.targets) c
          critical false rule phase s in
      (delivered_from name 0 rs, s')

  abbrev skips : Rule → Bool → Recipient → Bool
  skips rule escalation recipient = escalation && not (rule.critical && recipient.allow_critical)

  -- One recipient of a rule.
  unfoldable pub notify :
      ReviewPayload
      → Rule
      → Message
      → Phase
      → Text
      → Bool
      → Text
      → Recipient
      → State P
      → List Delivery × State P
  unfolding after_policy
  notify review rule c phase event_id escalation name recipient s =
      let (verdict, s') = apply_policy env cfg at name recipient rule review s in
      if skips rule escalation recipient
      then ([], s)
      else after_policy review rule c phase event_id name recipient verdict s'

  abbrev notify_known :
      ReviewPayload
      → Rule
      → Message
      → Phase
      → Text
      → Bool
      → Text
      → Option Recipient
      → State P
      → List Delivery × State P
  notify_known review rule c phase event_id escalation name none s = ([], s)
  notify_known review rule c phase event_id escalation name (some recipient) s =
      notify review rule c phase event_id escalation name recipient s

  unfoldable pub fan_out_to :
      List Text
      → ReviewPayload
      → Rule
      → Message
      → Phase
      → Text
      → Bool
      → State P
      → List Delivery × State P
  fan_out_to [] review rule c phase event_id escalation s = ([], s)
  fan_out_to (name ∷ rest) review rule c phase event_id escalation s =
      let (ds, s') =
        notify_known review rule c phase event_id escalation name (lookup name cfg.recipients) s in
      let (later, s'') = fan_out_to rest review rule c phase event_id escalation s' in
      (ds ++ later, s'')

  unfoldable pub fan_out :
      ReviewPayload → Rule → Message → Phase → Text → Bool → State P → List Delivery × State P
  unfolding fan_out_to
  fan_out review rule c phase event_id escalation s =
      fan_out_to rule.to review rule c phase event_id escalation s

  -- An update reaches one recipient where the notification is.
  unfoldable pub redeliver_to :
      Text
      → Text
      → ReviewState
      → Message
      → Rule
      → Phase
      → Text
      → Recipient
      → List Delivery
      → State P
      → (List Delivery × Bool) × State P
  redeliver_to review_id event_id prior c rule phase name recipient ds s =
      let jobs = update_jobs name (length recipient.targets) 0 prior.deliveries in
      let (rs, s') =
        deliver_to env cfg at review_id event_id name recipient (map job_of jobs) c
          (recipient.allow_critical && rule.critical) true rule phase s in
      (note_refs jobs rs ds, s')

  abbrev redeliver_known :
      Text
      → Text
      → ReviewState
      → Message
      → Rule
      → Phase
      → Text
      → Option Recipient
      → List Delivery
      → State P
      → (List Delivery × Bool) × State P
  redeliver_known review_id event_id prior c rule phase name none ds s = ((ds, false), s)
  redeliver_known review_id event_id prior c rule phase name (some recipient) ds s =
      redeliver_to review_id event_id prior c rule phase name recipient ds s

  unfoldable pub redeliver_all :
      Text
      → Text
      → ReviewState
      → Message
      → Rule
      → Phase
      → List Text
      → List Delivery
      → State P
      → (List Delivery × Bool) × State P
  redeliver_all review_id event_id prior c rule phase [] ds s = ((ds, false), s)
  redeliver_all review_id event_id prior c rule phase (name ∷ rest) ds s =
      let (r, s') =
        redeliver_known review_id event_id prior c rule phase name (lookup name cfg.recipients) ds
          s in
      let (r', s'') = redeliver_all review_id event_id prior c rule phase rest r.0 s' in
      ((r'.0, r.1 || r'.1), s'')

  unfoldable pub redeliver :
      Text → Text → ReviewState → Message → Rule → Phase → State P → (ReviewState × Bool) × State P
  unfolding redeliver_all
  redeliver review_id event_id prior c rule phase s =
      let (r, s') =
        redeliver_all review_id event_id prior c rule phase (recipients prior) prior.deliveries s in
      ((record prior { deliveries = r.0 }, r.1), s')

  unfoldable pub save : Text → ReviewState → State P → State P
  save review_id st s = record s {
    store = save_review env.backend env.codecs review_id st at.instant s.store;
  }

  -- A higher-priority rule is remembered; else the state keeps its rule.
  abbrev under_rule : ℕ → Rule → ReviewState → ReviewState
  under_rule idx rule st =
      if idx == st.rule_index then st else record st { rule_index = idx; rule_name = rule.name }

  -- The newest payload always encodes, so the state is always saved.
  unfoldable pub refresh :
      ReviewPayload → Phase → Phase → ReviewState → ℕ → Rule → State P → State P
  unfolding save emit_all
  refresh review content_phase label prior idx rule s =
      let event_id = or_else prior.event_id (primary_event_id review) in
      let (desc, s1) = cached_description event_id s in
      let (content, selected) =
        build_content env cfg at.instant review rule content_phase prior.tag event_id desc in
      let (r, s2) = redeliver review.id event_id prior content rule label (emit_all selected s1) in
      save review.id (record (under_rule idx rule r.0) { payload = env.review_codec.encode review })
        s2

  -- Under the rule that it was sent with, if the rule list still has it.
  unfoldable pub send_update : ReviewPayload → ReviewState → Phase → State P → State P
  send_update review prior label s = elim (get_elem? cfg.rules prior.rule_index) [
    | none ↦ s
    | some rule ↦ refresh review end label prior prior.rule_index rule s
  ]

  abbrev pub is_escalation : Option ReviewState → Bool
  is_escalation none = false
  is_escalation (some _) = true

  abbrev pub tag_of : ReviewPayload → Option ReviewState → Text
  tag_of review none = lit "fn-" ++ review.id
  tag_of review (some _) = lit "fn-" ++ (review.id ++ lit "-esc")

  abbrev carried : List Delivery → Option ReviewState → List Delivery
  carried ds none = ds
  carried ds (some prior) = carry_over ds prior

  -- Nothing went out: the cooldown that was started for it ends.
  give_back : Rule → ReviewPayload → Bool → State P → State P
  give_back rule review cooling s =
      if cooling
      then record s {
        store =
            release_cooldown env.backend env.codecs (scope_key rule review.camera) at.instant
              s.store;
      }
      else s

  abbrev conclude :
      ReviewPayload
      → ℕ
      → Rule
      → Text
      → Option ReviewState
      → Text
      → List Delivery
      → State P
      → State P
  conclude review idx rule event_id escalating tag [] s =
      give_back rule review (not (is_escalation escalating) && ltb_ℤ (pos 0) rule.cooldown) s
  conclude review idx rule event_id escalating tag (d ∷ ds) s =
      save review.id
        (record {
          rule_index = idx;
          rule_name = rule.name;
          tag = tag;
          deliveries = carried (d ∷ ds) escalating;
          critical = rule.critical;
          event_id = event_id;
          payload = env.review_codec.encode review;
        })
        s

  -- The part of `sendNew` behind the cooldown.
  unfoldable pub deliver_new :
      ReviewPayload → Phase → ℕ → Rule → Option ReviewState → State P → State P
  unfolding save give_back emit_all
  deliver_new review phase idx rule escalating s =
      let tag = tag_of review escalating in
      let event_id = primary_event_id review in
      let (desc, s1) = cached_description event_id s in
      let (content, selected) =
        build_content env cfg at.instant review rule phase tag event_id desc in
      let (ds, s2) =
        fan_out review rule content phase event_id (is_escalation escalating)
          (emit_all selected s1) in
      conclude review idx rule event_id escalating tag ds s2

  -- A first send waits for its cooldown; an escalation does not.
  unfoldable pub send_new :
      ReviewPayload → Phase → ℕ → Rule → Option ReviewState → State P → State P
  unfolding emit
  send_new review phase idx rule (some prior) s = deliver_new review phase idx rule (some prior) s
  send_new review phase idx rule none s =
      let (free, store') =
        acquire_cooldown env.backend env.codecs (scope_key rule review.camera) rule.cooldown
          at.instant s.store in
      let s' : State P = record s { store = store' } in
      if not free
      then emit (suppressed cooldown rule.name []) s'
      else deliver_new review phase idx rule none s'
