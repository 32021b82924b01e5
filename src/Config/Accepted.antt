-- ===== src/Config/Accepted.antt =====
-- internal/config/config.go: which configurations `validate` accepts, and what is then so.
use frigate_notifications.Prelude.{◌≡◌, ◌↔◌, [], Text, Result}
use frigate_notifications.Unicode.{Unicode}
use frigate_notifications.Config.File.{FileConfig}
use frigate_notifications.Config.Validate.{Url, validate}
use frigate_notifications.Config.Quiet.{Quiet-both, Quiet-weaken, Quiet-each}
use frigate_notifications.Config.Valid.{IsValid, IsValidRecipient}
use frigate_notifications.Config.Accepts.Values.{Quiet-NonEmpty, Quiet-not_negative}
use frigate_notifications.Config.Accepts.Rules.{Unseen-none}
use frigate_notifications.Config.Accepts.Named.{validate_rules_iff}
use frigate_notifications.Config.Accepts.Recipients.{
  validate_db_url_iff, validate_recipient_iff, validate_ui_url_iff,
}

module _ (parse : Text → Result Url) (u : Unicode) where
  -- `validate` finds no problem exactly in a valid configuration, as described by `IsValid`: it has
  -- recipients, cameras and rules; every rule has a name of its own, known recipients without
  -- repetition, known cameras and severities, complete windows, durations that are not negative, and a
  -- live view wherever it shows one; every target has what its backend needs.
  pub validate-iff-IsValid : (c : FileConfig) → (validate parse u c ≡ []) ↔ IsValid parse u c
  unfolding validate
  validate-iff-IsValid c =
      Quiet-weaken
        (Quiet-both (validate_db_url_iff u c.db_url) (
          Quiet-both (Quiet-NonEmpty c.recipients _) (
            Quiet-both (Quiet-NonEmpty c.cameras _) (
              Quiet-both (Quiet-not_negative c.media.link_ttl _) (
                Quiet-both
                  (Quiet-each _ (λ e. IsValidRecipient parse c e.1) c.recipients
                    (validate_recipient_iff parse c))
                  (Quiet-both (validate_ui_url_iff parse c.frigate_ui_url) (
                    Quiet-both (Quiet-NonEmpty c.rules _)
                      (validate_rules_iff c.recipients c.cameras 0 [] c.rules))))))))
        (
          λ (d, (r, (k, (t, (rs, (ui, (n, (names, (distinct, (unseen, rules)))))))))). record {
            database = d;
            has_recipients = r;
            has_cameras = k;
            link_ttl = t;
            recipients = rs;
            ui_url = ui;
            has_rules = n;
            named = names;
            distinct_names = distinct;
            rules = rules;
          },
          λ v. (
            v.database,
            (
              v.has_recipients,
              (
                v.has_cameras,
                (
                  v.link_ttl,
                  (
                    v.recipients,
                    (
                      v.ui_url,
                      (v.has_rules, (v.named, (v.distinct_names, (Unseen-none _, v.rules)))),
                    ),
                  ),
                ),
              ),
            ),
          ),
        )
