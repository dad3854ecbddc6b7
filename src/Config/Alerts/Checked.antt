-- ===== src/Config/Alerts/Checked.antt =====
-- internal/config/config.go: what the checks of the alert rules leave.
use logtailr.Base.{
  ℕ, ◌+◌, String, ◌≡◌, refl, Bool, true, false, not, some, List, [], ◌∷◌, leb, length, str_eq,
  arith, Bool-cases, Option-cases, inl, inr, All, is_some, ◌⊎◌, eq_iff,
}
use logtailr.Base.Int.{ℤ}
use logtailr.Base.Result.{Result, ok, err, ◌>>◌}
use logtailr.Logline.{level_of}
use logtailr.Alert.Evaluator.Compiled.{Compiles}
use logtailr.Config.{AlertRuleConfig, AlertsConfig, Checkers, check, one_of, passed, unchecked}
use logtailr.Config.Alerts.{
  Failure, rethrow, check_duration, check_pattern, check_level, check_kind, validate_rule,
  validate_rules, check_notify, validate_alerts_config, valid_alert_rule_types,
  valid_alert_severities, invalid_rule_pattern, missing_pattern, invalid_rule_level, missing_level,
  invalid_cooldown, invalid_default_cooldown, no_rules, missing_rule_name, duplicate_rule,
  invalid_rule_type, invalid_severity,
}

is_true_of : (b : Bool) → not b ≡ false → b ≡ true
is_true_of true h = refl
is_true_of false h = ground arith

module _ (lib : Checkers) where
  open lib use {DurationError, parse_duration, regexp.{Pattern, Error as PatternError, compile}}

  -- a duration, or none
  abbrev pub IsDuration : String → Type 0
  IsDuration text = (str_eq text "" ≡ true) ⊎ ((d : ℤ) × (parse_duration text ≡ ok d))

  rethrow-ok :
      {E A : Type 0} (f : E → Failure lib) (r : Result E A)
      → rethrow lib f r ≡ ok tt
      → (a : A) × (r ≡ ok a)
  rethrow-ok f (ok a) h = (a, refl)
  rethrow-ok f (err e) h = ground arith

  check_duration-IsDuration :
      (f : DurationError → Failure lib) (text : String)
      → check_duration lib f text ≡ ok tt
      → IsDuration text
  unfolding check_duration
  check_duration-IsDuration f text h = elim (Bool-cases (str_eq text "")) [
    | inl e ↦ inl e
    | inr e ↦ inr (rethrow-ok f (parse_duration text) (simp e at h))
  ]

  check_pattern-compile :
      (rc : AlertRuleConfig)
      → check_pattern lib rc ≡ ok tt
      → (p : Pattern) × (compile rc.pattern ≡ ok p)
  unfolding check_pattern
  check_pattern-compile rc h =
      let compiled = rethrow lib (invalid_rule_pattern rc.name) (compile rc.pattern) in
      let (_, c) = passed (check (str_eq rc.pattern "") (missing_pattern rc.name)) compiled h in
      rethrow-ok (invalid_rule_pattern rc.name) (compile rc.pattern) c

  check_level-level_of :
      (rc : AlertRuleConfig) → check_level lib rc ≡ ok tt → (n : ℕ) × (level_of rc.level ≡ some n)
  unfolding check_level
  check_level-level_of rc h = elim (Option-cases (level_of rc.level)) [
    | inl unknown ↦
        let e = invalid_rule_level rc.name rc.level in
        let bad = not (is_some (level_of rc.level)) in
        let (_, c) = passed (check (str_eq rc.level "") (missing_level rc.name)) (check bad e) h in
        let d = unchecked bad e c in ground arith
    | inr (n, e) ↦ (n, e)
  ]

  last_kind :
      (kind : String)
      → one_of valid_alert_rule_types kind ≡ true
      → str_eq kind "pattern" ≡ false
      → str_eq kind "level" ≡ false
      → str_eq kind "error_rate" ≡ false
      → kind ≡ "health_change"
  unfolding valid_alert_rule_types
  last_kind kind known p l e = (eq_iff kind "health_change").0 (ground arith)

  check_kind-Compiles :
      (rc : AlertRuleConfig)
      → one_of valid_alert_rule_types rc.kind ≡ true
      → check_kind lib rc ≡ ok tt
      → Compiles lib.regexp rc.kind rc.pattern rc.level
  unfolding check_kind valid_alert_rule_types
  check_kind-Compiles rc known h = elim (Bool-cases (str_eq rc.kind "pattern")) [
    | inl k ↦
        let (p, c) = check_pattern-compile rc (simp k at h) in
        inl ((eq_iff rc.kind "pattern").0 k, p, c)
    | inr k ↦ elim (Bool-cases (str_eq rc.kind "level")) [
      | inl l ↦
          let (n, c) = check_level-level_of rc (simp (k, l) at h) in
          inr (inl ((eq_iff rc.kind "level").0 l, n, c))
      | inr l ↦ elim (Bool-cases (str_eq rc.kind "error_rate")) [
        | inl e ↦ inr (inr (inl ((eq_iff rc.kind "error_rate").0 e)))
        | inr e ↦ inr (inr (inr (last_kind rc.kind known k l e)))
      ]
    ]
  ]

  check_kind-window :
      (rc : AlertRuleConfig) (w : String)
      → str_eq rc.kind "error_rate" ≡ false
      → check_kind lib (record rc { window = w }) ≡ check_kind lib rc
  unfolding check_kind check_pattern check_level
  check_kind-window rc w e = rw e refl

  -- a rule of another type than error_rate is checked whatever its window
  pub validate_rule-window :
      (i : ℕ) (seen : List String) (rc : AlertRuleConfig) (w : String)
      → str_eq rc.kind "error_rate" ≡ false
      → validate_rule lib i seen (record rc { window = w }) ≡ validate_rule lib i seen rc
  unfolding validate_rule
  validate_rule-window i seen rc w e = rw (check_kind-window rc w e) refl

  -- what a rule of the configuration must be for the engine to take it
  abbrev pub IsReady : AlertRuleConfig → Type 0
  IsReady rc = IsDuration rc.cooldown × Compiles lib.regexp rc.kind rc.pattern rc.level

  pub validate_rule-IsReady :
      (i : ℕ) (seen : List String) (rc : AlertRuleConfig)
      → validate_rule lib i seen rc ≡ ok tt
      → IsReady rc
  unfolding validate_rule
  validate_rule-IsReady i seen rc h =
      let name : Result (Failure lib) Unit = check (str_eq rc.name "") (missing_rule_name i) in
      let fresh : Result (Failure lib) Unit =
        check (one_of seen rc.name) (duplicate_rule rc.name) in
      let known : Result (Failure lib) Unit =
        check (not (one_of valid_alert_rule_types rc.kind)) (invalid_rule_type rc.name rc.kind) in
      let severe : Result (Failure lib) Unit =
        check (not (one_of valid_alert_severities rc.severity))
          (invalid_severity rc.name rc.severity) in
      let rested = check_duration lib (invalid_cooldown rc.name) rc.cooldown in
      let (h5, kind) = passed (name >> fresh >> known >> severe >> rested) (check_kind lib rc) h in
      let (h4, cooldown) = passed (name >> fresh >> known >> severe) rested h5 in
      let (h3, _) = passed (name >> fresh >> known) severe h4 in
      let (_, k) = passed (name >> fresh) known h3 in
      let u =
        unchecked (not (one_of valid_alert_rule_types rc.kind)) (invalid_rule_type rc.name rc.kind)
          k in
      (
        check_duration-IsDuration (invalid_cooldown rc.name) rc.cooldown cooldown,
        check_kind-Compiles rc (is_true_of (one_of valid_alert_rule_types rc.kind) u) kind,
      )

  pub validate_rules-IsReady :
      (i : ℕ) (seen : List String) (rcs : List AlertRuleConfig)
      → validate_rules lib i seen rcs ≡ ok tt
      → All IsReady rcs
  unfolding validate_rules
  validate_rules-IsReady i seen [] h = tt
  validate_rules-IsReady i seen (rc ∷ rest) h =
      let (first, others) = passed (validate_rule lib i seen rc) _ h in
      (
        validate_rule-IsReady i seen rc first,
        validate_rules-IsReady (i + 1) (rc.name ∷ seen) rest others,
      )

  pub validate_alerts_config-IsReady :
      (alerts : AlertsConfig) (allow_local : Bool)
      → validate_alerts_config lib alerts allow_local ≡ ok tt
      → IsDuration alerts.default_cooldown × All IsReady alerts.rules
  unfolding validate_alerts_config
  validate_alerts_config-IsReady alerts allow_local h =
      let default = check_duration lib invalid_default_cooldown alerts.default_cooldown in
      let notify = check_notify lib allow_local alerts.notify_url in
      let some_rules : Result (Failure lib) Unit = check (leb (length alerts.rules) 0) no_rules in
      let (h3, rules) =
        passed (default >> notify >> some_rules) (validate_rules lib 0 [] alerts.rules) h in
      let (h2, _) = passed (default >> notify) some_rules h3 in
      let (d, _) = passed default notify h2 in
      (
        check_duration-IsDuration invalid_default_cooldown alerts.default_cooldown d,
        validate_rules-IsReady 0 [] alerts.rules rules,
      )
