-- ===== src/Store/Reviews.antt =====
-- internal/store/store.go: saving a review, and loading it by its id and by the id of its event.
use frigate_notifications.Prelude.{
  ℕ, ◌+◌, ◌≤◌, ◌<◌, ◌≡◌, ◌≢◌, refl, false, Option, none, some, [], ◌∷◌, Text, text_eq, text_eq_refl,
  insert, if◌then◌else◌, arith,
}
use frigate_notifications.Store.Interface.{Backend, IsLossless}
use frigate_notifications.Store.Memory.{get, set}
use frigate_notifications.Store.Memory.View.{
  view, view-insert, until, get_locked-value, get_locked-view,
}
use frigate_notifications.Store.{
  Store, Codecs, ReviewState, run, store_get, store_set, save_event, save_review, load_review,
  load_review_by_event, review_key, event_key, review_ttl,
}

keys_differ :
    (review_id event_id : Text) → text_eq (event_key event_id) (review_key review_id) ≡ false
unfolding event_key review_key text_eq
keys_differ review_id event_id = refl

module _ {P : Type 0} (pb : Backend P) (cs : Codecs) where
  store_set-alone :
      (key val : Text) (ttl now : ℕ) (s : Store P)
      → s.primary ≡ none
      → ((store_set pb cs key val ttl now s).primary ≡ none)
        × ((store_set pb cs key val ttl now s).fallback
            ≡ insert key (record { val = val; expires = now + ttl }) s.fallback)
  unfolding store_set run set
  store_set-alone key val ttl now s alone = ground arith

  -- A write in memory, as a reader sees it.
  store_set-view :
      (key val : Text) (ttl now t : ℕ) (s : Store P) (j : Text)
      → s.primary ≡ none
      → 0 < ttl
      → view t (store_set pb cs key val ttl now s).fallback j
        ≡ (if text_eq key j then until (now + ttl) t val else view t s.fallback j)
  store_set-view key val ttl now t s j alone p =
      rw ((store_set-alone key val ttl now s alone).1)
        (view-insert s.fallback key val (now + ttl) t j (omega arith))

  save_event-alone :
      (event_id review_id : Text) (now : ℕ) (s : Store P)
      → s.primary ≡ none
      → (save_event pb cs event_id review_id now s).primary ≡ none
  unfolding save_event
  save_event-alone [] review_id now s alone = alone
  save_event-alone (c ∷ event_id) review_id now s alone =
      (store_set-alone (event_key (c ∷ event_id)) review_id review_ttl now s alone).0

  -- The entry of the event stands beside that of the review.
  save_event-view_review :
      (event_id review_id : Text) (now t : ℕ) (s : Store P) (id : Text)
      → s.primary ≡ none
      → view t (save_event pb cs event_id review_id now s).fallback (review_key id)
        ≡ view t s.fallback (review_key id)
  unfolding save_event
  save_event-view_review [] review_id now t s id alone = refl
  save_event-view_review (c ∷ event_id) review_id now t s id alone = ground (
    arith,
    store_set-view (event_key (c ∷ event_id)) review_id review_ttl now t s (review_key id) alone,
    keys_differ id (c ∷ event_id),
  )

  save_review-alone :
      (review_id : Text) (st : ReviewState) (now : ℕ) (s : Store P)
      → s.primary ≡ none
      → (save_review pb cs review_id st now s).primary ≡ none
  unfolding save_review
  save_review-alone review_id st now s alone =
      save_event-alone st.event_id review_id now _ (store_set-alone _ _ review_ttl now s alone).0

  abbrev decoded : Option Text → Option ReviewState
  decoded none = none
  decoded (some raw) = cs.review_state.decode raw

  load_review-alone :
      (review_id : Text) (t : ℕ) (s : Store P)
      → s.primary ≡ none
      → (load_review pb cs review_id t s).0 ≡ decoded (view t s.fallback (review_key review_id))
  unfolding load_review run get
  load_review-alone review_id t s alone =
      ground (arith, get_locked-value t s.fallback (review_key review_id))

  load-save :
      IsLossless cs.review_state
      → (review_id : Text) (st : ReviewState) (now t : ℕ) (s : Store P) → s.primary ≡ none
      → t ≤ now + review_ttl
      → (load_review pb cs review_id t (save_review pb cs review_id st now s)).0 ≡ some st
  unfolding save_review
  load-save exact review_id st now t s alone fresh =
      let raw = cs.review_state.encode st in
      let s' = store_set pb cs (review_key review_id) raw review_ttl now s in
      let alone' = (store_set-alone (review_key review_id) raw review_ttl now s alone).0 in
      ground (
        arith,
        load_review-alone review_id t (save_event pb cs st.event_id review_id now s')
            (save_event-alone st.event_id review_id now s' alone'),
        save_event-view_review st.event_id review_id now t s' review_id alone',
        store_set-view (review_key review_id) raw review_ttl now t s (review_key review_id) alone,
        text_eq_refl (review_key review_id),
        exact.decode-encode st,
      )

  store_get-alone :
      (key : Text) (t : ℕ) (s : Store P)
      → s.primary ≡ none
      → ((store_get pb cs key t s).0 ≡ view t s.fallback key)
        × ((store_get pb cs key t s).1.primary ≡ none)
        × ((j : Text) → view t (store_get pb cs key t s).1.fallback j ≡ view t s.fallback j)
  unfolding store_get run get
  store_get-alone key t s alone = (
    ground (arith, get_locked-value t s.fallback key),
    ground arith,
    λ j. ground (arith, get_locked-view t s.fallback key t j (omega arith)),
  )

  save_review-view_event :
      (review_id : Text) (st : ReviewState) (now t : ℕ) (s : Store P)
      → s.primary ≡ none
      → t ≤ now + review_ttl
      → st.event_id ≢ []
      → view t (save_review pb cs review_id st now s).fallback (event_key st.event_id)
        ≡ some review_id
  unfolding save_review
  save_review-view_event review_id st now t s alone fresh named =
      let s' =
        store_set pb cs (review_key review_id) (cs.review_state.encode st) review_ttl now s in
      go st.event_id named s' (store_set-alone _ _ review_ttl now s alone).0
    where
      go :
          (event_id : Text)
          → event_id ≢ []
          → (s' : Store P) → s'.primary ≡ none
          → view t (save_event pb cs event_id review_id now s').fallback (event_key event_id)
            ≡ some review_id
      go [] named s' alone = absurd (named refl)
      go (c ∷ id) named s' alone =
          unfold save_event in
          ground (
            arith,
            store_set-view (event_key (c ∷ id)) review_id review_ttl now t s' (event_key (c ∷ id))
                alone,
            text_eq_refl (event_key (c ∷ id)),
          )

  -- With no primary and a codec that loses nothing, what is saved for a review is loaded for six
  -- hours, by the review's id, and, if the state has an event id, by that with the review's id.
  pub load-save-by_event :
      IsLossless cs.review_state
      → (review_id : Text) (st : ReviewState) (now t : ℕ) (s : Store P) → s.primary ≡ none
      → t ≤ now + review_ttl
      → ((load_review pb cs review_id t (save_review pb cs review_id st now s)).0 ≡ some st)
        × (st.event_id ≢ []
            → (load_review_by_event pb cs st.event_id t (save_review pb cs review_id st now s)).0
              ≡ some (review_id, st))
  unfolding load_review_by_event
  load-save-by_event exact review_id st now t s alone fresh =
      let s' = save_review pb cs review_id st now s in
      let alone' = save_review-alone review_id st now s alone in
      let loaded = load-save exact review_id st now t s alone fresh in
      let (value, still, same) = store_get-alone (event_key st.event_id) t s' alone' in
      (
        loaded,
        λ named. ground (
          arith,
          value,
          save_review-view_event review_id st now t s alone fresh named,
          load_review-alone review_id t (store_get pb cs (event_key st.event_id) t s').1 still,
          load_review-alone review_id t s' alone',
          same (review_key review_id),
          loaded,
        ),
      )
