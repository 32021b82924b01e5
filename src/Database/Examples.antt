-- ===== src/Database/Examples.antt =====
-- internal/db/db.go: the kinds of databases, and retries.
use frigate_notifications.Prelude.{
  ℕ, ◌≡◌, refl, Bool, true, false, ◌==◌, some, [], ◌∷◌, lit, text_eq, ok, err, arith,
}
use frigate_notifications.Unicode.{ascii}
use frigate_notifications.Database.{
  kind_of, postgres, retry_until, schema_retry_min, schema_retry_max,
}
use frigate_notifications.Database.Retries.{Reports, retry_until-Reports}

upper_case : kind_of ascii (lit "PostgreSQL://db/frigate") ≡ ok postgres
unfolding kind_of text_eq
upper_case = refl

no_scheme : kind_of ascii (lit "db/frigate") ≡ err
unfolding kind_of text_eq
no_scheme = refl

-- The database comes up before the seventh attempt.
abbrev seventh : ℕ → Bool
seventh k = k == 6

abbrev never : ℕ → Bool
never k = false

-- 2, 4, 8, 16, 32 seconds, then a minute each.
waits : retry_until schema_retry_max never seventh 10 schema_retry_min ≡ (
  some true,
  2_000_000_000 ∷ 4_000_000_000 ∷ 8_000_000_000 ∷ 16_000_000_000 ∷ 32_000_000_000 ∷ 60_000_000_000
      ∷ 60_000_000_000 ∷ [],
)
unfolding retry_until
waits = refl

retry_until-Reports_example :
    Reports schema_retry_min schema_retry_max 7 true
      (retry_until schema_retry_max never seventh 10 schema_retry_min)
retry_until-Reports_example =
    retry_until-Reports schema_retry_min schema_retry_max (omega arith) never seventh 6 10
      (omega arith) (λ i l. refl) refl
