-- ===== src/Config/Alerts.antt =====
-- internal/config/config.go: the checks of the alert rules.
pub mod Checked
use logtailr.Base.{
  ℕ, ◌+◌, String, Bool, true, false, not, ◌||◌, ◌&&◌, Option, none, some, List, [], ◌∷◌, leb,
  if◌then◌else◌, str_eq, is_some, length,
}
use logtailr.Base.Int.{ℤ, pos, leb_ℤ}
use logtailr.Base.Result.{Result, ok, err, ◌>>◌}
use logtailr.Logline.{level_of}
use logtailr.Ssrf.{UrlError, validate_external_url}
use logtailr.Config.{AlertRuleConfig, AlertsConfig, Checkers, check, one_of}

pub data AlertError (D R E I : Type 0) : Type 0 where
  invalid_default_cooldown : D → AlertError D R E I
  missing_url : AlertError D R E I
  invalid_url : UrlError E I → AlertError D R E I
  no_rules : AlertError D R E I
  missing_rule_name : ℕ → AlertError D R E I
  duplicate_rule : String → AlertError D R E I
  invalid_rule_type : String → String → AlertError D R E I
  invalid_severity : String → String → AlertError D R E I
  invalid_cooldown : String → D → AlertError D R E I
  missing_pattern : String → AlertError D R E I
  invalid_rule_pattern : String → R → AlertError D R E I
  missing_level : String → AlertError D R E I
  invalid_rule_level : String → String → AlertError D R E I
  threshold_not_positive : String → AlertError D R E I
  missing_window : String → AlertError D R E I
  invalid_window : String → D → AlertError D R E I

unfoldable pub valid_alert_rule_types : List String
valid_alert_rule_types = "pattern" ∷ "level" ∷ "error_rate" ∷ "health_change" ∷ []

unfoldable pub valid_alert_severities : List String
valid_alert_severities = "warning" ∷ "critical" ∷ []

module _ (lib : Checkers) where
  open lib use {
    DurationError,
    parse_duration,
    regexp.{Pattern, Error as PatternError, compile},
    network.{Error as NetworkError, Ip},
  }

  abbrev pub Failure : Type 0
  Failure = AlertError DurationError PatternError NetworkError Ip

  -- the error of a call, where there is one
  abbrev pub rethrow : {E A : Type 0} → (E → Failure) → Result E A → Result Failure Unit
  rethrow f (ok a) = ok tt
  rethrow f (err e) = err (f e)

  -- a duration that may be left out
  unfoldable pub check_duration : (DurationError → Failure) → String → Result Failure Unit
  check_duration f text = if str_eq text "" then ok tt else rethrow f (parse_duration text)

  check_pattern : AlertRuleConfig → Result Failure Unit
  check_pattern r =
      check (str_eq r.pattern "") (missing_pattern r.name)
      >> rethrow (invalid_rule_pattern r.name) (compile r.pattern)

  check_level : AlertRuleConfig → Result Failure Unit
  check_level r =
      check (str_eq r.level "") (missing_level r.name)
      >> check (not (is_some (level_of r.level))) (invalid_rule_level r.name r.level)

  check_error_rate : AlertRuleConfig → Result Failure Unit
  check_error_rate r =
      check (leb_ℤ r.threshold (pos 0)) (threshold_not_positive r.name)
      >> check (str_eq r.window "") (missing_window r.name)
      >> rethrow (invalid_window r.name) (parse_duration r.window)

  -- the switch on the type of a rule
  unfoldable pub check_kind : AlertRuleConfig → Result Failure Unit
  unfolding check_pattern check_level check_error_rate
  check_kind r =
      if str_eq r.kind "pattern"
      then check_pattern r
      else if str_eq r.kind "level"
      then check_level r
      else if str_eq r.kind "error_rate"
      then check_error_rate r
      else ok tt

  unfoldable pub validate_rule : ℕ → List String → AlertRuleConfig → Result Failure Unit
  unfolding check_duration check_kind valid_alert_rule_types valid_alert_severities
  validate_rule i seen r =
      check (str_eq r.name "") (missing_rule_name i)
      >> check (one_of seen r.name) (duplicate_rule r.name)
      >> check (not (one_of valid_alert_rule_types r.kind)) (invalid_rule_type r.name r.kind)
      >> check (not (one_of valid_alert_severities r.severity)) (invalid_severity r.name r.severity)
      >> check_duration (invalid_cooldown r.name) r.cooldown
      >> check_kind r

  unfoldable pub validate_rules : ℕ → List String → List AlertRuleConfig → Result Failure Unit
  unfolding validate_rule
  validate_rules i seen [] = ok tt
  validate_rules i seen (r ∷ rest) =
      validate_rule i seen r >> validate_rules (i + 1) (r.name ∷ seen) rest

  check_notify : Bool → Option String → Result Failure Unit
  check_notify allow_local none = ok tt
  check_notify allow_local (some url) =
      check (str_eq url "") missing_url
      >> (if allow_local
          then ok tt
          else rethrow invalid_url (validate_external_url lib.network url))

  unfoldable pub validate_alerts_config : AlertsConfig → Bool → Result Failure Unit
  unfolding check_duration check_notify validate_rules
  validate_alerts_config alerts allow_local =
      check_duration invalid_default_cooldown alerts.default_cooldown
      >> check_notify allow_local alerts.notify_url
      >> check (leb (length alerts.rules) 0) no_rules
      >> validate_rules 0 [] alerts.rules
