-- ===== src/Scene.antt =====
-- A house to run examples in: one camera at the front, one recipient, three rules, and a world in which
-- every call succeeds and Home Assistant does not answer.
use frigate_notifications.Prelude.{
  ℕ, ◌*◌, true, false, Option, none, some, [], ◌∷◌, Text, lit, ok, err,
}
use frigate_notifications.Prelude.Int.{pos}
use frigate_notifications.Clock.{second}
use frigate_notifications.Unicode.{ascii}
use frigate_notifications.Config.{
  Config, Recipient, Rule, RuleConditions, Target, hass, auto, camera_scope,
}
use frigate_notifications.Rules.{new}
use frigate_notifications.Frigate.{ReviewPayload, ReviewEvent, TrackedObjectUpdate, description}
use frigate_notifications.Environment.{Env, Moment, fits}
use frigate_notifications.Store.{Store, Codecs, ReviewState, DigestEntry}
use frigate_notifications.Store.Memory.{Mem, mem_backend}
use frigate_notifications.Store.Exact.{review_state}
use frigate_notifications.State.{State}

abbrev number_of : Text → Option ℕ
number_of [] = none
number_of (n ∷ t) = some n

abbrev entry_of : Text → Option DigestEntry
entry_of (count ∷ since ∷ t) = some (record { count = count; since = since })
entry_of _ = none

abbrev pub codecs : Codecs
codecs = record {
  int = record { encode = λ n. n ∷ []; decode = number_of };
  review_state = review_state;
  digest = record { encode = λ e. e.count ∷ e.since ∷ []; decode = entry_of };
}

abbrev pub phone : Target
phone = record {
  type = hass;
  service = lit "notify.phone";
  channel = [];
  topic = [];
  webhook_url = [];
}

abbrev pub ana : Recipient
ana = record {
  targets = phone ∷ [];
  allow_critical = true;
  active_hours = none;
  max_per_hour = pos 0;
  skip_when_only = [];
}

abbrev pub anything : RuleConditions
anything = record {
  cameras = [];
  labels = [];
  zones = [];
  sub_labels = [];
  exclude_sub_labels = [];
  severity = [];
  hours = none;
  min_dwell = pos 0;
  entity_state = [];
}

abbrev pub quiet_rule : Rule
quiet_rule = record {
  name = lit "all";
  when = anything;
  unless = [];
  holdoff = none;
  cooldown = pos 0;
  cooldown_scope = camera_scope;
  to = lit "ana" ∷ [];
  preset = auto;
  critical = false;
  location = none;
}

-- For alerts at once.
abbrev pub loud_rule : Rule
loud_rule = record quiet_rule {
  name = lit "alerts";
  when = record anything { severity = lit "alert" ∷ [] };
  critical = true;
}

-- For cars, after ten seconds.
abbrev pub slow_rule : Rule
slow_rule = record quiet_rule {
  name = lit "cars";
  when = record anything { labels = lit "car" ∷ [] };
  holdoff = some (pos (10 * second));
}

abbrev pub house : Config
house = record {
  frigate_ui_url = lit "https://f";
  dry_run = false;
  recipients = (lit "ana", ana) ∷ [];
  cameras = (lit "front", record { friendly_name = lit "Front"; live_view_entity = [] }) ∷ [];
  rules = loud_rule ∷ slow_rule ∷ quiet_rule ∷ [];
  location = λ t. pos 0;
}

-- A car at the front.
abbrev pub car : ReviewPayload
car = record {
  id = lit "r1";
  camera = lit "front";
  start_time = 1000 * second;
  end_time = none;
  severity = lit "detection";
  thumb_path = lit "";
  review_data = record {
    detections = lit "e1" ∷ [];
    objects = lit "car" ∷ [];
    sub_labels = [];
    zones = [];
    audio = [];
    metadata = [];
  };
}

abbrev pub car_gone : ReviewPayload
car_gone = record car { end_time = some (1020 * second) }

abbrev pub car_seen : ReviewEvent
car_seen = record { type = new; after = car }

abbrev pub told : TrackedObjectUpdate
told = record { type = description; id = lit "e1"; description_text = lit "A red car." }

abbrev pub world : Env Mem
world = record {
  unicode = ascii;
  query_escape = λ t. t;
  backend = mem_backend codecs.int;
  codecs = codecs;
  review_codec = record { encode = λ r. r.id; decode = λ t. some car_gone };
  decode_metadata = λ t. none;
  hash = λ t. t;
  signer = none;
  probe = λ k id. fits;
  has_sender = λ t. true;
  send = λ done t m prev. ok (lit "ref");
}

abbrev pub at_noon : Moment
at_noon = record {
  instant = 43200 * second;
  entity_state = λ id. err;
  solar = err;
  cancelled = false;
}

abbrev pub empty_store : Store Mem
empty_store = record { primary = none; fallback = []; fallbacks = 0 }

abbrev pub start : State Mem
start = record {
  store = empty_store;
  pending = [];
  next_token = 0;
  unconfigured = [];
  effects = [];
}

-- The car was notified about under the last rule.
abbrev pub sent_before : ReviewState
sent_before = record {
  rule_index = 2;
  rule_name = lit "all";
  tag = lit "fn-r1";
  deliveries = record { recipient = lit "ana"; target = 0; ref = lit "ref"; tag = [] } ∷ [];
  critical = false;
  event_id = lit "e1";
  payload = lit "r1";
}
