-- ===== src/HassCache/Sun.antt =====
-- internal/hasscache/hasscache.go: the solar times, of one fetch or of the last that succeeded.
use frigate_notifications.Prelude.{
  ◌<◌, ◌≡◌, ◌⊎◌, inl, inr, refl, true, false, ◌&&◌, List, [], ◌∷◌, All, lit, Bool-cases,
  Result-cases, Result, ok, err, arith,
}
use frigate_notifications.Clock.{Location, Time, at_location}
use frigate_notifications.Window.{SolarTimes}
use frigate_notifications.Window.Cycle.{InDay, clock_of_bound}
use frigate_notifications.HassCache.{
  Cache, Call, Decoders, Attributes, new, solar, refresh_solar, last_solar, fetch_solar,
  solar_times, note_solar, time_of_day, lacking, have_last, recent, solar_ttl, fail_ttl,
}

-- Times of day, all four.
pub record IsSunlit (s : SolarTimes) : Type 0 where
  pub sunrise_in_day : InDay s.sunrise_at
  pub sunset_in_day : InDay s.sunset_at
  pub dawn_in_day : InDay s.dawn_at
  pub dusk_in_day : InDay s.dusk_at

-- The answers of calls, one after another.
unfoldable pub solars : Decoders → List Call → Cache → List (Result SolarTimes)
solars ds [] c = []
solars ds (call ∷ calls) c = let (answer, c') = solar ds call c in answer ∷ solars ds calls c'

abbrev pub IsGood : Result SolarTimes → Type 0
IsGood err = ⊥
IsGood (ok s) = IsSunlit s

time_of_day-InDay : (loc : Location) (t : Time) → InDay (time_of_day loc t)
unfolding time_of_day
time_of_day-InDay loc t =
    let b = clock_of_bound (at_location t loc) in
    record { from_midnight = omega arith; before_midnight = grind (arith, b) }

solar_times-cases :
    (loc : Location) (a : Attributes) → (solar_times loc a ≡ err) ⊎ IsGood (solar_times loc a)
unfolding solar_times
solar_times-cases loc a = elim (Bool-cases (lacking a)) [
  | inl b ↦ inl (rw b refl)
  | inr b ↦ inr (
      rw b (record {
        sunrise_in_day = time_of_day-InDay loc a.next_rising;
        sunset_in_day = time_of_day-InDay loc a.next_setting;
        dawn_in_day = time_of_day-InDay loc a.next_dawn;
        dusk_in_day = time_of_day-InDay loc a.next_dusk;
      }))
]

-- A good answer stays a good one: an error, or an answer of times of day and only such answers.
pub IsLasting : List (Result SolarTimes) → Type 0
IsLasting [] = Unit
IsLasting (err ∷ rs) = IsLasting rs
IsLasting (ok s ∷ rs) = IsSunlit s × All IsGood rs

module _ (ds : Decoders) where
  fetch_solar-cases :
      (call : Call) (loc : Location)
      → (fetch_solar ds call loc ≡ err) ⊎ IsGood (fetch_solar ds call loc)
  unfolding fetch_solar
  fetch_solar-cases call loc = elim (Result-cases (call.response (lit "sun.sun"))) [
    | inl e ↦ inl (rw (e, fetch_solar) refl)
    | inr (body, e) ↦ elim (Result-cases (ds.decode_sun body)) [
      | inl f ↦ inl (rw (e, f, fetch_solar) refl)
      | inr (a, f) ↦ rw (e, f, fetch_solar) (solar_times-cases loc a)
    ]
  ]

  solar-outcome :
      (Q : Result SolarTimes × Cache → Type 0) (call : Call) (c : Cache)
      → (have_last c ≡ true → Q (ok c.solar, c))
      → Q (last_solar c, c)
      → ((r : Result SolarTimes) → (r ≡ err) ⊎ IsGood r → Q (note_solar call c r))
      → Q (solar ds call c)
  unfolding solar refresh_solar
  solar-outcome Q call c kept last noted =
      elim (Bool-cases (have_last c && recent c.solar_at solar_ttl call.asked)) [
        | inl b ↦ rw b (kept (ground arith))
        | inr b ↦ elim (Bool-cases (c.solar_err && recent c.solar_err_at fail_ttl call.asked)) [
          | inl d ↦ rw (b, d) last
          | inr d ↦ rw (b, d) (noted _ (fetch_solar-cases call c.location))
        ]
      ]

-- A cache whose value, where it has one, is of times of day.
record IsLit (c : Cache) : Type 0 where
  lit_up : have_last c ≡ true → IsSunlit c.solar

-- What a call answers and leaves: a good answer with a good cache, or an error where there was no value.
record Settles (c : Cache) (out : Result SolarTimes × Cache) : Type 0 where
  lit_after : IsLit out.1
  good : ((out.0 ≡ err) × (have_last c ≡ false)) ⊎ (IsGood out.0 × (have_last out.1 ≡ true))

last_solar-IsGood :
    (c : Cache)
    → IsLit c
    → ((last_solar c ≡ err) × (have_last c ≡ false))
      ⊎ (IsGood (last_solar c) × (have_last c ≡ true))
unfolding last_solar
last_solar-IsGood c h = elim (Bool-cases (have_last c)) [
  | inl b ↦ inr (rw b (h.lit_up b), b)
  | inr b ↦ inl (rw b refl, b)
]

note_solar-Settles :
    (call : Call) (c : Cache) (r : Result SolarTimes)
    → 0 < call.over
    → IsLit c
    → (r ≡ err) ⊎ IsGood r
    → Settles c (note_solar call c r)
unfolding note_solar
note_solar-Settles call c err over h k = elim (Bool-cases call.cancelled) [
  | inl b ↦ rw b (record { lit_after = h; good = last_solar-IsGood c h })
  | inr b ↦ rw b (record { lit_after = record { lit_up = h.lit_up }; good = last_solar-IsGood c h })
]
note_solar-Settles call c (ok s) over h (inl e) = absurd cc
note_solar-Settles call c (ok s) over h (inr l) = record {
  lit_after = record { lit_up = λ b. l };
  good = inr (l, ground arith);
}

IsLasting-err :
    (r : Result SolarTimes) (rs : List (Result SolarTimes))
    → r ≡ err
    → IsLasting rs
    → IsLasting (r ∷ rs)
unfolding IsLasting
IsLasting-err r rs e h = rw e h

IsLasting-good :
    (r : Result SolarTimes) (rs : List (Result SolarTimes))
    → IsGood r
    → All IsGood rs
    → IsLasting (r ∷ rs)
unfolding IsLasting
IsLasting-good err rs g h = absurd g
IsLasting-good (ok s) rs g h = (g, h)

module _ (ds : Decoders) where
  solar-Settles : (call : Call) (c : Cache) → 0 < call.over → IsLit c → Settles c (solar ds call c)
  solar-Settles call c over h =
      solar-outcome ds (Settles c) call c
        (λ b. record { lit_after = h; good = inr (h.lit_up b, b) })
        (record { lit_after = h; good = last_solar-IsGood c h })
        (λ r. note_solar-Settles call c r over h)

  solars-IsGood :
      (calls : List Call) (c : Cache)
      → All (λ call. 0 < call.over) calls
      → IsLit c
      → have_last c ≡ true
      → All IsGood (solars ds calls c)
  unfolding solars
  solars-IsGood [] c over h b = tt
  solars-IsGood (call ∷ calls) c over h b =
      let done = solar-Settles call c over.0 h in
      elim done.good [
        | inl e ↦ absurd cc
        | inr (g, d) ↦ (g, solars-IsGood calls (solar ds call c).1 over.1 done.lit_after d)
      ]

  lit-IsLasting :
      (calls : List Call) (c : Cache)
      → All (λ call. 0 < call.over) calls
      → IsLit c
      → IsLasting (solars ds calls c)
  unfolding solars IsLasting
  lit-IsLasting [] c over h = tt
  lit-IsLasting (call ∷ calls) c over h =
      let done = solar-Settles call c over.0 h in
      let rest = solars ds calls (solar ds call c).1 in
      elim done.good [
        | inl (e, no_last) ↦
            IsLasting-err _ rest e (lit-IsLasting calls (solar ds call c).1 over.1 done.lit_after)
        | inr (g, d) ↦
            IsLasting-good _ rest g
              (solars-IsGood calls (solar ds call c).1 over.1 done.lit_after d)
      ]

  -- From a new cache on, whatever Home Assistant answers: once one call has given solar times, every
  -- later one gives some, and all that are given are times of day.
  pub solars-IsLasting :
      (loc : Location) (calls : List Call)
      → All (λ call. 0 < call.over) calls
      → IsLasting (solars ds calls (new loc))
  unfolding new
  solars-IsLasting loc calls over =
      lit-IsLasting calls (new loc) over (record { lit_up = λ b. absurd cc })
