-- ===== src/Store/Examples.antt =====
-- internal/store/store.go: the guards, the saved reviews and an outage at work.
use frigate_notifications.Prelude.{
  ◌*◌, ◌+◌, ◌≡◌, ◌≢◌, refl, true, false, ◌&&◌, none, some, [], lit, text_eq, lookup, insert, ltb,
  if◌then◌else◌, ok, err, arith,
}
use frigate_notifications.Prelude.Int.{pos}
use frigate_notifications.Clock.{second, minute, Time, unix}
use frigate_notifications.Scene.{codecs, empty_store, sent_before}
use frigate_notifications.Store.Interface.{Backend}
use frigate_notifications.Store.Memory.{Mem, mem_backend, set_nx, get_locked, sweep_locked}
use frigate_notifications.Store.Memory.View.{view, until, is_none, set_nx-view}
use frigate_notifications.Store.Guards.{first_delivery-again}
use frigate_notifications.Store.Reviews.{load-save-by_event}
use frigate_notifications.Store.Exact.{review_state-IsLossless}
use frigate_notifications.Store.Outage.{IsDown, AsInMemory, down-AsInMemory, add_to_digest-twice}
use frigate_notifications.Store.{
  Store, run, on_fallback, store_set_nx, first_delivery, acquire_cooldown, save_review, load_review,
  load_review_by_event, seen_key, set_nx_op, get_op, set_op, del_op, incr_op, load_op, digest_op,
  add_to_digest,
}

abbrev local : Backend Mem
local = mem_backend codecs.int

-- A backend of which no call succeeds, and one that can only be read and holds nothing.
abbrev dead : Backend (Unit {0})
dead = record {
  set_nx = λ k v ttl now p. (err, p);
  get = λ k now p. (err, p);
  set = λ k v ttl now p. (err, p);
  del = λ k now p. (err, p);
  incr = λ k ttl now p. (err, p);
}

abbrev read_only : Backend (Unit {0})
read_only = record dead { get = λ k now p. (ok none, p) }

abbrev over_dead : Store (Unit {0})
over_dead = record { primary = some tt; fallback = []; fallbacks = 0 }

abbrev noon : Time
noon = record { instant = 43200 * second; location = λ t. pos 0 }

set_nx-view_example : view 3 (set_nx (lit "k") (lit "1") 5 2 []).1 (lit "k") ≡ (
    if is_none (view 2 [] (lit "k")) && text_eq (lit "k") (lit "k")
    then until 7 3 (lit "1")
    else view 3 [] (lit "k"))
set_nx-view_example =
    set_nx-view [] tt (lit "k") (lit "1") 5 2 3 (lit "k") (omega arith) (omega arith)

abbrev taken : Store Mem
taken = (first_delivery local codecs (lit "r1") (lit "new") 1 empty_store).1

taken_once : (first_delivery local codecs (lit "r1") (lit "new") 1 empty_store).0 ≡ true
unfolding first_delivery store_set_nx run on_fallback set_nx get_locked lookup
taken_once = refl

first_delivery-again_example :
    (first_delivery local codecs (lit "r1") (lit "new") 2 taken).0 ≡ ltb (1 + 10 * minute) 2
first_delivery-again_example =
    first_delivery-again local codecs (lit "r1") (lit "new") 1 2 empty_store refl tt (omega arith)
      taken_once

taken_again : (first_delivery local codecs (lit "r1") (lit "new") 2 taken).0 ≡ false
unfolding first_delivery store_set_nx run on_fallback set_nx get_locked lookup insert sweep_locked
    text_eq seen_key
taken_again = refl

cooling : (acquire_cooldown local codecs (lit "all") (pos 60) 1 empty_store).0 ≡ true
unfolding acquire_cooldown store_set_nx run on_fallback set_nx get_locked lookup
cooling = refl

load-save-by_event_example :
    ((load_review local codecs
        (lit "r1")
        2
        (save_review local codecs (lit "r1") sent_before 1 empty_store)).0
      ≡ some sent_before)
    × (sent_before.event_id ≢ []
        → (load_review_by_event local codecs
            (lit "e1")
            2
            (save_review local codecs (lit "r1") sent_before 1 empty_store)).0
          ≡ some (lit "r1", sent_before))
load-save-by_event_example =
    load-save-by_event local codecs review_state-IsLossless (lit "r1") sent_before 1 2 empty_store
      refl (omega arith)

dead-IsDown : IsDown dead
dead-IsDown = record {
  set_nx_fails = λ k v ttl now p. refl;
  get_fails = λ k now p. refl;
  set_fails = λ k v ttl now p. refl;
  del_fails = λ k now p. refl;
  incr_fails = λ k ttl now p. refl;
}

down-AsInMemory_example :
    AsInMemory dead codecs (set_nx_op (lit "k") 5 1) true over_dead
    × AsInMemory dead codecs (get_op (lit "k") 1) none over_dead
    × AsInMemory dead codecs (set_op (lit "k") (lit "v") 5 1) tt over_dead
    × AsInMemory dead codecs (del_op (lit "k") 1) tt over_dead
    × AsInMemory dead codecs (incr_op (lit "k") 5 1) 0 over_dead
    × AsInMemory dead codecs (load_op codecs.review_state (lit "k") 1) none over_dead
    × AsInMemory dead codecs
        (digest_op codecs.digest (lit "k") 1)
        (record { count = 0; since = 0 })
        over_dead
down-AsInMemory_example =
    down-AsInMemory dead codecs dead-IsDown over_dead 1 (lit "k") (lit "v") 5 none none
      (record { count = 0; since = 0 })

add_to_digest-twice_example :
    (add_to_digest read_only codecs (lit "ana") (lit "front") noon over_dead).0
    ≡ record { count = 2; since = unix noon }
unfolding view lookup
add_to_digest-twice_example =
    add_to_digest-twice read_only codecs (lit "ana") (lit "front") noon over_dead tt refl
      (λ k t q. refl) (λ k v ttl t q. refl) refl
