-- ===== src/Cmd/AlertRules/Tests.antt =====
-- The theorems about cmd/alerts.go, tried on a configuration of two rules.
use logtailr.Base.{◌≡◌, refl, false, List, [], inl, inr}
use logtailr.Base.Int.{pos}
use logtailr.Base.Text.{has_prefix}
use logtailr.Base.Result.{ok}
use logtailr.Alert.{Rule}
use logtailr.Alert.Engine.{Engine, new_engine}
use logtailr.Ssrf.{validate_external_url, is_disallowed_ip}
use logtailr.Config.Alerts.{validate_alerts_config, validate_rule}
use logtailr.Config.Samples.{checkers, alerts, pattern_rule}
use logtailr.Cmd.AlertRules.{convert_alert_rules}
use logtailr.Cmd.AlertRules.Start.{engine_library, convert_alert_rules-new_engine}

accepted : validate_alerts_config checkers alerts false ≡ ok tt
unfolding validate_alerts_config validate_external_url has_prefix is_disallowed_ip
accepted = refl

convert_alert_rules-new_engine_example :
    (rules : List Rule) × (e : Engine (engine_library checkers (λ d. "a while") (λ s. s)))
    × (convert_alert_rules checkers alerts ≡ ok rules)
    × (new_engine (engine_library checkers (λ d. "a while") (λ s. s)) rules ≡ ok e)
convert_alert_rules-new_engine_example =
    convert_alert_rules-new_engine checkers (λ d. "a while") (λ s. s) alerts false accepted
      (inl refl, (inr (pos 300000000000, refl), tt))

accepted_rule : validate_rule checkers 0 [] pattern_rule ≡ ok tt
unfolding validate_rule
accepted_rule = refl
