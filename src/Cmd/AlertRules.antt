-- ===== src/Cmd/AlertRules.antt =====
-- cmd/alerts.go: from the configuration of the alerts to the rules of the engine.
pub mod Start
mod Tests
use logtailr.Base.{String, List, [], ◌∷◌, if◌then◌else◌, str_eq}
use logtailr.Base.Text.{to_lower}
use logtailr.Base.Int.{ℤ, pos}
use logtailr.Base.Result.{Result, ok, err, ◌>>=◌}
use logtailr.Alert.{Rule}
use logtailr.Config.{AlertRuleConfig, AlertsConfig, Checkers}

abbrev pub default_cooldown : ℤ
default_cooldown = pos 300000000000

pub data ConvertError (D : Type 0) : Type 0 where
  invalid_default_cooldown : D → ConvertError D
  invalid_cooldown : String → D → ConvertError D
  invalid_window : String → D → ConvertError D

abbrev pub rule_of : AlertRuleConfig → ℤ → ℤ → Rule
rule_of rc window cooldown = record {
  name = rc.name;
  kind = rc.kind;
  severity = to_lower rc.severity;
  pattern = rc.pattern;
  level = rc.level;
  source = rc.source;
  threshold = rc.threshold;
  window = window;
  cooldown = cooldown;
}

module _ (lib : Checkers) where
  open lib use {DurationError, parse_duration}

  abbrev pub Failure : Type 0
  Failure = ConvertError DurationError

  abbrev pub rethrow : (DurationError → Failure) → Result DurationError ℤ → Result Failure ℤ
  rethrow f (ok d) = ok d
  rethrow f (err e) = err (f e)

  -- a duration, or what stands for one that is left out
  unfoldable pub duration_or : ℤ → (DurationError → Failure) → String → Result Failure ℤ
  duration_or default f text =
      if str_eq text "" then ok default else rethrow f (parse_duration text)

  -- the body of the loop of convertAlertRules
  unfoldable pub convert_rule : ℤ → AlertRuleConfig → Result Failure Rule
  unfolding duration_or
  convert_rule default rc = do
    cooldown ← duration_or default (invalid_cooldown rc.name) rc.cooldown
    window ← duration_or (pos 0) (invalid_window rc.name) rc.window
    ok (rule_of rc window cooldown)

  unfoldable pub convert_rules : ℤ → List AlertRuleConfig → Result Failure (List Rule)
  unfolding convert_rule
  convert_rules default [] = ok []
  convert_rules default (rc ∷ rest) = do
    r ← convert_rule default rc
    rs ← convert_rules default rest
    ok (r ∷ rs)

  unfoldable pub convert_alert_rules : AlertsConfig → Result Failure (List Rule)
  unfolding convert_rules duration_or
  convert_alert_rules cfg = do
    default ← duration_or default_cooldown invalid_default_cooldown cfg.default_cooldown
    convert_rules default cfg.rules
