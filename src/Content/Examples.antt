-- ===== src/Content/Examples.antt =====
-- internal/notifier/presets.go: the text preset with media at hand.
use frigate_notifications.Prelude.{refl, some, lit, [], ◌*◌}
use frigate_notifications.Clock.{second}
use frigate_notifications.Config.{Rule, text}
use frigate_notifications.Rules.{end}
use frigate_notifications.Environment.{Env}
use frigate_notifications.Store.Memory.{Mem}
use frigate_notifications.Scene.{world, house, car_gone, quiet_rule}
use frigate_notifications.Content.TextOnly.{IsTextOnly, build_content-IsTextOnly}
use frigate_notifications.Content.{build_content}

abbrev signing : Env Mem
signing = record world {
  signer = some (record { mac = λ t. t; base_url = lit "https://m"; ttl = 3600 * second });
}

abbrev plain_rule : Rule
plain_rule = record quiet_rule { preset = text }

build_content-IsTextOnly_example :
    IsTextOnly (build_content signing house 0 car_gone plain_rule end (lit "fn-r1") (lit "e1") []).0
build_content-IsTextOnly_example =
    build_content-IsTextOnly signing house 0 car_gone plain_rule end (lit "fn-r1") (lit "e1") []
      refl
