-- ===== src/Store/Alone.antt =====
-- internal/store/store.go: a store with no primary.
use frigate_notifications.Prelude.{◌≡◌, none, Text, ℕ, arith, suc, zero, [], ◌∷◌, some, Option}
use frigate_notifications.Prelude.Int.{ℤ, pos, negsuc}
use frigate_notifications.Clock.{Time}
use frigate_notifications.Store.Interface.{Backend}
use frigate_notifications.Store.{
  Store, Codecs, Op, ReviewState, run, store_get, store_set, first_delivery, acquire_cooldown,
  release_cooldown, save_event, save_review, load_review, found_review, load_review_by_event,
  count_for_hour, add_to_digest, clear_digest, set_description, description,
}

module _ {P : Type 0} (pb : Backend P) (cs : Codecs) where
  pub run-alone :
      {C : Type 0} (op : Op C) (c : C) (s : Store P)
      → s.primary ≡ none
      → (run pb cs op c s).1.primary ≡ none
  unfolding run
  run-alone op c s h = ground arith

  module _ (s : Store P) (h : s.primary ≡ none) where
    pub acquire_cooldown-alone :
        (scope : Text) (ttl : ℤ) (now : ℕ)
        → (acquire_cooldown pb cs scope ttl now s).1.primary ≡ none
    unfolding acquire_cooldown
    acquire_cooldown-alone scope (pos (suc ttl)) now = run-alone _ _ s h
    acquire_cooldown-alone scope (pos zero) now = h
    acquire_cooldown-alone scope (negsuc ttl) now = h

    pub release_cooldown-alone :
        (scope : Text) (now : ℕ) → (release_cooldown pb cs scope now s).primary ≡ none
    unfolding release_cooldown
    release_cooldown-alone scope now = run-alone _ _ s h

    pub first_delivery-alone :
        (review_id phase : Text) (now : ℕ)
        → (first_delivery pb cs review_id phase now s).1.primary ≡ none
    unfolding first_delivery
    first_delivery-alone review_id phase now = run-alone _ _ s h

    pub store_set-alone :
        (key val : Text) (ttl now : ℕ) → (store_set pb cs key val ttl now s).primary ≡ none
    unfolding store_set
    store_set-alone key val ttl now = run-alone _ _ s h

    pub store_get-alone : (key : Text) (now : ℕ) → (store_get pb cs key now s).1.primary ≡ none
    unfolding store_get
    store_get-alone key now = run-alone _ _ s h

    pub load_review-alone : (id : Text) (now : ℕ) → (load_review pb cs id now s).1.primary ≡ none
    unfolding load_review
    load_review-alone id now = run-alone _ _ s h

    pub count_for_hour-alone :
        (name : Text) (now : Time) → (count_for_hour pb cs name now s).1.primary ≡ none
    unfolding count_for_hour
    count_for_hour-alone name now = run-alone _ _ s h

    pub add_to_digest-alone :
        (name camera : Text) (now : Time) → (add_to_digest pb cs name camera now s).1.primary ≡ none
    unfolding add_to_digest
    add_to_digest-alone name camera now = run-alone _ _ s h

    pub clear_digest-alone :
        (name camera : Text) (now : ℕ) → (clear_digest pb cs name camera now s).primary ≡ none
    unfolding clear_digest
    clear_digest-alone name camera now = run-alone _ _ s h

    pub set_description-alone :
        (id desc : Text) (now : ℕ) → (set_description pb cs id desc now s).primary ≡ none
    unfolding set_description
    set_description-alone id desc now = run-alone _ _ s h

    pub description-alone : (id : Text) (now : ℕ) → (description pb cs id now s).1.primary ≡ none
    unfolding description
    description-alone id now = run-alone _ _ s h

  pub save_event-alone :
      (event_id id : Text) (now : ℕ) (s : Store P)
      → s.primary ≡ none
      → (save_event pb cs event_id id now s).primary ≡ none
  unfolding save_event
  save_event-alone [] id now s h = h
  save_event-alone (c ∷ event_id) id now s h = store_set-alone s h _ _ _ _

  pub save_review-alone :
      (id : Text) (st : ReviewState) (now : ℕ) (s : Store P)
      → s.primary ≡ none
      → (save_review pb cs id st now s).primary ≡ none
  unfolding save_review
  save_review-alone id st now s h =
      save_event-alone st.event_id id now _ (store_set-alone s h _ _ _ _)

  found_review-alone :
      (o : Option Text) (now : ℕ) (s : Store P)
      → s.primary ≡ none
      → (found_review pb cs o now s).1.primary ≡ none
  unfolding found_review
  found_review-alone none now s h = h
  found_review-alone (some id) now s h = ground (arith, load_review-alone s h id now)

  pub load_review_by_event-alone :
      (event_id : Text) (now : ℕ) (s : Store P)
      → s.primary ≡ none
      → (load_review_by_event pb cs event_id now s).1.primary ≡ none
  unfolding load_review_by_event
  load_review_by_event-alone event_id now s h = found_review-alone _ now _ (store_get-alone s h _ _)
