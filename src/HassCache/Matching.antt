-- ===== src/HassCache/Matching.antt =====
-- internal/hasscache/hasscache.go under internal/rules/rules.go: rules that ask through the cache.
use frigate_notifications.Prelude.{
  ℕ, ◌+◌, ◌≤◌, ◌<◌, ◌≡◌, ◌⊎◌, inl, inr, sym, ap, ◌∙◌, refl, true, some, List, [], ◌∷◌, All, Text,
  Result, ok, err, arith,
}
use mathlib.Core.Path.{subst}
use mathlib.Core.List.{Memᴰ}
use frigate_notifications.Unicode.{Unicode}
use frigate_notifications.Config.{Rule}
use frigate_notifications.Rules.{MatchContext, match_one}
use frigate_notifications.Rules.Outage.{outage_never_silences}
use frigate_notifications.HassCache.{Cache, Call, Decoders, state, fetch_state, ttl_of, entity_ttl}
use frigate_notifications.HassCache.Entities.{Read, Reached, state-IsRecent}

module _ (ds : Decoders) (call : Call) where
  -- A read that is as old as the cache keeps any, failed, or gave what Home Assistant says now.
  abbrev pub IsCurrent : Read → Type 0
  IsCurrent r =
      (r.over + entity_ttl ≤ call.asked)
      ⊎ ((r.answer ≡ err) ⊎ (r.answer ≡ fetch_state ds call r.entity))

  -- The context that asks Home Assistant itself, and the one that asks the cache.
  abbrev pub live : MatchContext → MatchContext
  live mc = record mc { entity_state = some (λ id. fetch_state ds call id) }

  abbrev pub cached : Cache → MatchContext → MatchContext
  cached c mc = record mc { entity_state = some (λ id. (state ds call id c).0) }

  ttl_of-most : (r : Result Text) → ttl_of r ≤ entity_ttl
  unfolding ttl_of
  ttl_of-most (ok s) = omega arith
  ttl_of-most err = omega arith

  member : (log : List Read) (r : Read) → All IsCurrent log → Memᴰ r log → IsCurrent r
  member [] r h m = elim m [ ]
  member (q ∷ log) r h (Memᴰ.head e) = subst IsCurrent (sym e) h.0
  member (q ∷ log) r h (Memᴰ.tail m) = member log r h.1 m

  remembered :
      (a : Result Text) (r : Read) (entity : Text)
      → IsCurrent r
      → r.entity ≡ entity
      → a ≡ r.answer
      → call.asked < r.over + ttl_of r.answer
      → (a ≡ err) ⊎ (a ≡ fetch_state ds call entity)
  remembered a r entity (inl old) same e fresh =
      let most = ttl_of-most r.answer in absurd (omega arith)
  remembered a r entity (inr (inl failed)) same e fresh = inl (e ∙ failed)
  remembered a r entity (inr (inr now)) same e fresh =
      inr (e ∙ (now ∙ ap (λ id. fetch_state ds call id) same))

  state-Degrades :
      (c : Cache) (log : List Read) (entity : Text)
      → Reached ds c log
      → All IsCurrent log
      → ((state ds call entity c).0 ≡ err)
        ⊎ ((state ds call entity c).0 ≡ fetch_state ds call entity)
  state-Degrades c log entity reached current = elim (state-IsRecent ds c log call entity reached) [
    | inl now ↦ inr now
    | inr (r, m, same, e, fresh) ↦
        remembered (state ds call entity c).0 r entity (member log r current m) same e fresh
  ]

  -- Where each read that the cache remembers is ten seconds old, failed, or gave what Home Assistant
  -- says now, a rule that matches by what Home Assistant says now matches through the cache too.
  pub cache_never_silences :
      (u : Unicode) (mc : MatchContext) (i : ℕ) (rule : Rule) (c : Cache) (log : List Read)
      → Reached ds c log
      → All IsCurrent log
      → (match_one u i rule (live mc)).matched ≡ true
      → (match_one u i rule (cached c mc)).matched ≡ true
  cache_never_silences u mc i rule c log reached current h =
      outage_never_silences u (live mc) (some (λ id. (state ds call id c).0)) mc.solar
        (record { states = λ id. state-Degrades c log id reached current; solar = inr refl }) i rule
        h
