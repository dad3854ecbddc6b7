-- ===== src/Cmd/AlertRules/Start.antt =====
-- cmd/alerts.go: a checked configuration of the alerts starts an engine.
use logtailr.Base.{
  ℕ, ◌∙◌, String, ◌≡◌, refl, Bool, false, List, [], ◌∷◌, str_eq, Bool-cases, inl, inr, All,
}
use logtailr.Base.Int.{ℤ, pos}
use logtailr.Base.Result.{ok, err}
use logtailr.Alert.{Rule}
use logtailr.Alert.Evaluator.{Library}
use logtailr.Alert.Evaluator.Compiled.{compile_rule-Compiles}
use logtailr.Alert.Engine.{Engine, new_engine}
use logtailr.Alert.Engine.Start.{CanCompile, new_engine-CanCompile}
use logtailr.Config.{AlertRuleConfig, AlertsConfig, Checkers}
use logtailr.Config.Alerts.{validate_alerts_config, validate_rule}
use logtailr.Config.Alerts.Checked.{
  IsDuration, IsReady, validate_alerts_config-IsReady, validate_rule-IsReady, validate_rule-window,
}
use logtailr.Cmd.AlertRules.{
  Failure, duration_or, rule_of, convert_rule, convert_rules, convert_alert_rules, default_cooldown,
  invalid_default_cooldown, invalid_cooldown, invalid_window,
}

module _ (lib : Checkers) (duration_text : ℤ → String) (quoted : String → String) where
  open lib use {DurationError, parse_duration}

  -- what the engine uses, with the regular expressions of the checks
  abbrev pub engine_library : Library
  engine_library = record { regexp = lib.regexp; duration_text = duration_text; quoted = quoted }

  abbrev pub HasDuration : AlertRuleConfig → Type 0
  HasDuration rc = IsDuration lib rc.window

  duration_or-IsDuration :
      (text : String) (default : ℤ) (f : DurationError → Failure lib)
      → IsDuration lib text
      → (d : ℤ) × (duration_or lib default f text ≡ ok d)
  unfolding duration_or
  duration_or-IsDuration text default f (inl h) = (default, rw h refl)
  duration_or-IsDuration text default f (inr (d, h)) = elim (Bool-cases (str_eq text "")) [
    | inl e ↦ (default, rw e refl)
    | inr e ↦ (d, rw (e, h) refl)
  ]

  convert_rule-IsReady :
      (default : ℤ) (rc : AlertRuleConfig)
      → IsReady lib rc
      → HasDuration rc
      → (r : Rule) × (convert_rule lib default rc ≡ ok r) × CanCompile engine_library r
  unfolding convert_rule
  convert_rule-IsReady default rc (cooldown, compiles) window =
      let (c, hc) =
        duration_or-IsDuration rc.cooldown default (invalid_cooldown rc.name) cooldown in
      let (w, hw) = duration_or-IsDuration rc.window (pos 0) (invalid_window rc.name) window in
      let r = rule_of rc w c in
      (r, rw (hc, hw) refl, compile_rule-Compiles engine_library r compiles)

  convert_rules-IsReady :
      (default : ℤ) (rcs : List AlertRuleConfig)
      → All (IsReady lib) rcs
      → All HasDuration rcs
      → (rs : List Rule) × (convert_rules lib default rcs ≡ ok rs)
        × All (CanCompile engine_library) rs
  unfolding convert_rules
  convert_rules-IsReady default [] h w = ([], refl, tt)
  convert_rules-IsReady default (rc ∷ rcs) (h, hs) (w, ws) =
      let (r, e, c) = convert_rule-IsReady default rc h w in
      let (rs, es, cs) = convert_rules-IsReady default rcs hs ws in
      (r ∷ rs, rw (e, es) refl, (c, cs))

  -- A configuration of the alerts that passes the checks, and whose windows are durations where they
  -- are written, is converted to rules, and an engine starts with them.
  pub convert_alert_rules-new_engine :
      (alerts : AlertsConfig) (allow_local : Bool)
      → validate_alerts_config lib alerts allow_local ≡ ok tt
      → All HasDuration alerts.rules
      → (rules : List Rule) × (e : Engine engine_library) × (convert_alert_rules lib alerts
          ≡ ok rules)
        × (new_engine engine_library rules ≡ ok e)
  unfolding convert_alert_rules
  convert_alert_rules-new_engine alerts allow_local h windows =
      let (d, ready) = validate_alerts_config-IsReady lib alerts allow_local h in
      let (default, hd) =
        duration_or-IsDuration alerts.default_cooldown default_cooldown invalid_default_cooldown
          d in
      let (rules, hr, compile) = convert_rules-IsReady default alerts.rules ready windows in
      let (e, he) = new_engine-CanCompile engine_library rules compile in
      (rules, e, rw (hd, hr) refl, he)

  -- The checks pass over the window of a rule of another type than error_rate: with a window that is
  -- no duration such a rule still passes them, and then its conversion fails.
  pub convert_rule-invalid_window :
      (i : ℕ) (seen : List String) (rc : AlertRuleConfig) (w : String) (e : DurationError)
      (default : ℤ)
      → str_eq rc.kind "error_rate" ≡ false
      → validate_rule lib i seen rc ≡ ok tt
      → str_eq w "" ≡ false
      → parse_duration w ≡ err e
      → (validate_rule lib i seen (record rc { window = w }) ≡ ok tt)
        × (convert_rule lib default (record rc { window = w }) ≡ err (invalid_window rc.name e))
  unfolding convert_rule duration_or
  convert_rule-invalid_window i seen rc w e default kind valid set h =
      let (cooldown, _) = validate_rule-IsReady lib i seen rc valid in
      let (c, hc) =
        duration_or-IsDuration rc.cooldown default (invalid_cooldown rc.name) cooldown in
      (validate_rule-window lib i seen rc w kind ∙ valid, rw (hc, set, h) refl)
