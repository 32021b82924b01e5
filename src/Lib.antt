-- ===== src/Lib.antt =====
-- Frigate notifications: which camera reviews become phone notifications, for whom, and when. Frigate
-- publishes reviews over MQTT; the notifier matches each against an ordered list of rules, waits out a
-- holdoff where the rule asks for it, applies every recipient's policy, sends, and later edits what it sent.
--
-- The files, and the code that they are about:
--   Prelude, Unicode, Clock: helpers; Go's strings and times as the program uses them.
--   Window: internal/config/window.go. Windows of the day, solar endpoints (`resolve`, `within` is
--     Contains), and `Window/Parse` is ParseEndpoint with its regular expressions by clauses.
--   Config: the loaded types of internal/config/config.go and their derived values. `Config/File` has the
--     types as written, the environment's variables (`env_for`) and `apply_defaults`; `Config/Problems`,
--     `Config/RuleProblems` and `Config/Validate` are validate and its checks, with the problems it joins
--     as values, and `Config/Read` is Read with the conversion to the loaded types.
--   Rules: internal/rules/rules.go. `match_rules` is Match, and returns the trace too.
--   Store: internal/store/store.go. `run` is Store.do, on a primary that may fail and the memory of
--     `Store/Memory` (internal/store/backend_mem.go); `Store/Interface` is the type Backend.
--   Frigate: internal/frigate/events.go. Media: the ids and links of internal/media/media.go.
--     `Media/Keys` is NewSigner and SignerFor beside them, `Media/Proxy` answers the requests of
--     internal/media/proxy.go and play.go, and `Media/Probe` is what internal/media/probe.go accepts.
--   Message, Sender: internal/sender/sender.go. `Sender/Hass`, `Sender/Ntfy`, `Sender/Slack` and
--     `Sender/Discord` are the files of those names beside it: the layout that Render builds, and the
--     calls (`Sender/Slack/Calls`, `Sender/Discord/Calls`) with what each answer leads to.
--   HassCache: internal/hasscache/hasscache.go, with `HassCache/Matching` on rules that ask through it.
--   Database: KindOf and retryUntil of internal/db/db.go.
--   Records: internal/eventstore/eventstore.go. Report: cmd/events/main.go, whose figures are values here.
--   Replay: the flags and checks of cmd/replay/main.go.
--   Phrase, Content: internal/notifier/presets.go.
--   Environment: what the notifier is given, and its effects. State: the notifier's own state and the
--     sends, Policy: internal/notifier/policy.go, Delivery, Fingerprint, Notifier:
--     internal/notifier/notifier.go, from the fan-out up to HandleReview, HandleTrackedObjectUpdate and
--     the timer of a holdoff.
--   Scene and the modules named Examples: data to run, and the theorems applied to it.
-- Rules, Policy and Delivery are called by Notifier; every one of them that remembers anything does so in
-- the Store, and everything that leaves the process is an effect in `State.effects`, newest first.
-- `Extends` and `Adds` say what a part of a handler adds to the effects; `OfPush R` holds of an effect
-- that is no call of a backend, and of one that `R` allows.
--
-- How the model stands to the code:
--   Texts are lists of code points. Durations are nanoseconds in ℤ and instants nanoseconds in ℕ, with 0
--   for Go's zero time; the overflow of int64 is not modelled. A location is a function from instants to
--   offsets. Every loop is structural recursion, but for the digits of a number, which take the number as
--   fuel: each digit divides it by ten; the calls of Slack for one message, which take the fuel 3, since a
--   call drops the picture once and waits once (`Sender/Slack/Ends` proves it enough); and the retries of
--   the schema, which the source makes until one succeeds, with any fuel.
--   Parameters: the Unicode tables, time.ParseDuration, time.LoadLocation, url.Parse, url.QueryEscape, the
--   decoding of YAML and of the environment, the JSON codecs, SHA-256, HMAC, the primary backend, what a
--   sender and what a service answers, what Frigate says of a medium, and what Home Assistant answers at
--   the moment of a call. No parameter is assumed to succeed.
--   Handlers run one at a time, at one instant each, and sends that the source makes concurrently are
--   made in the order of their lists. The event store is attached, a review's payload always encodes, a
--   stored rule index is a natural number, and a state that decodes in part decodes not at all.
--   The target types are the four that validation allows: `Config/Typed` converts what was accepted, and
--   `Config/Workable` is about what Read then gives. The time budget of media probes is left out.
-- Not modelled: the queries of the databases, the Redis, MQTT and HTTP clients and the HTTP server, which
-- are calls of their libraries; the streaming of media and the player's page; the checks that each
-- backend makes at the start; metrics and logging; the commands
-- but for what `Report` and `Replay` have, which leave out flags, queries and printing.
pub mod Prelude
pub mod Unicode
pub mod Clock
pub mod Window
pub mod Database
pub mod Config
pub mod Rules
pub mod Sender
pub mod Store
pub mod Frigate
pub mod Message
pub mod Phrase
pub mod HassCache
pub mod Media
pub mod Environment
pub mod Content
pub mod State
pub mod Policy
pub mod Delivery
pub mod Fingerprint
pub mod Notifier
pub mod Scene
pub mod Records
pub mod Report
pub mod Replay
