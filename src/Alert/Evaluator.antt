-- ===== src/Alert/Evaluator.antt =====
-- The evaluators of internal/alert/engine.go: when a rule of each kind raises an event for a line.
-- `now` is what `time.Now` returns.
pub mod ErrorRate
pub mod Compiled
pub mod Fired
mod Tests
use logtailr.Base.{
  ℕ, ◌+◌, String, Bool, true, false, ◌&&◌, not, Option, none, some, List, [], ◌∷◌, ◌++◌, str_eq,
  ltb, leb, if◌then◌else◌, length,
}
use logtailr.Base.Int.{ℤ, pos, sub_ℕ, leb_ℤ, ltb_ℤ}
use logtailr.Base.Text.{to_lower, to_upper, decimal}
use logtailr.Base.Result.{Result, ok, err}
use logtailr.Logline.{LogLine, level_of}
use logtailr.Filter.{Regexp}
use logtailr.Aggregator.{◌⊕◌}
use logtailr.Alert.{Rule, Event}

-- What the standard library does that the program only calls: regular expressions, the text of a
-- `time.Duration`, and `%q` of a text.
pub record Library : Type 1 where
  pub regexp : Regexp
  pub duration_text : ℤ → String
  pub quoted : String → String

pub data RuleError (E : Type 0) : Type 0 where
  invalid_pattern : E → RuleError E
  invalid_level : String → RuleError E
  unknown_rule_type : String → RuleError E

-- r.Source == "" || r.Source == source
abbrev pub covers : Rule → String → Bool
covers r source = if str_eq r.source "" then true else str_eq r.source source

abbrev pub event : Rule → String → String → ℕ → ℕ → Event
event r message source now count = record {
  rule = r.name;
  severity = r.severity;
  message = message;
  source = source;
  timestamp = now;
  count = count;
}

abbrev pub is_at_least : ℕ → Option ℕ → Bool
is_at_least min none = false
is_at_least min (some level) = leb min level

-- logline.LogLevels["error"]
abbrev pub error_level : ℕ
error_level = 3

-- the loop that skips the timestamps before the cutoff, `now - window`
drop_before : ℕ → ℤ → List ℕ → List ℕ
drop_before now window [] = []
drop_before now window (t ∷ ts) =
    let rest = drop_before now window ts in if ltb_ℤ window (sub_ℕ now t) then rest else t ∷ ts

module _ (lib : Library) where
  open lib use {regexp.{Pattern, Error, compile, match_string}, duration_text}

  pub data Evaluator : Type 0 where
    pattern_evaluator : Rule → Pattern → Evaluator
    level_evaluator : Rule → ℕ → Evaluator
    error_rate_evaluator : Rule → List ℕ → Evaluator
    health_change_evaluator : Rule → Evaluator

  unfoldable pub rule : Evaluator → Rule
  rule (pattern_evaluator r p) = r
  rule (level_evaluator r min) = r
  rule (error_rate_evaluator r ts) = r
  rule (health_change_evaluator r) = r

  compiled_pattern : Rule → Result Error Pattern → Result (RuleError Error) Evaluator
  compiled_pattern r (ok p) = ok (pattern_evaluator r p)
  compiled_pattern r (err e) = err (invalid_pattern e)

  known_level : Rule → Option ℕ → Result (RuleError Error) Evaluator
  known_level r none = err (invalid_level r.level)
  known_level r (some level) = ok (level_evaluator r level)

  unfoldable pub compile_rule : Rule → Result (RuleError Error) Evaluator
  unfolding compiled_pattern known_level
  compile_rule r =
      if str_eq r.kind "pattern"
      then compiled_pattern r (compile r.pattern)
      else if str_eq r.kind "level"
      then known_level r (level_of r.level)
      else if str_eq r.kind "error_rate"
      then ok (error_rate_evaluator r [])
      else if str_eq r.kind "health_change"
      then ok (health_change_evaluator r)
      else err (unknown_rule_type r.kind)

  -- patternEvaluator.evaluate
  evaluate_pattern : ℕ → LogLine → Rule → Pattern → Option Event
  evaluate_pattern now line r p =
      if covers r line.source && match_string p line.message
      then some (event r ("Pattern matched: " ⊕ line.message) line.source now 0)
      else none

  -- levelEvaluator.evaluate
  evaluate_level : ℕ → LogLine → Rule → ℕ → Option Event
  evaluate_level now line r min =
      if covers r line.source && is_at_least min (level_of line.level)
      then some (event r ("[" ⊕ to_upper line.level ⊕ "] " ⊕ line.message) line.source now 0)
      else none

  -- the part of errorRateEvaluator.evaluate under the lock: the event, and the timestamps left
  count_error : ℕ → LogLine → Rule → List ℕ → Option Event × List ℕ
  unfolding drop_before
  count_error now line r timestamps =
      let recent = drop_before now r.window (timestamps ++ now ∷ []) in
      let count = length recent in
      if leb_ℤ r.threshold (pos count)
      then (
        some (
            event r
              ("Error rate exceeded: " ⊕ decimal count ⊕ " errors in " ⊕ duration_text r.window)
              line.source now count),
        [],
      )
      else (none, recent)

  -- errorRateEvaluator.evaluate
  unfoldable pub evaluate_error_rate : ℕ → LogLine → Rule → List ℕ → Option Event × List ℕ
  unfolding count_error
  evaluate_error_rate now line r timestamps =
      if covers r line.source && is_at_least error_level (level_of line.level)
      then count_error now line r timestamps
      else (none, timestamps)

  unfoldable pub evaluate : ℕ → LogLine → Evaluator → Option Event × Evaluator
  unfolding evaluate_pattern evaluate_level evaluate_error_rate
  evaluate now line (pattern_evaluator r p) = (evaluate_pattern now line r p, pattern_evaluator r p)
  evaluate now line (level_evaluator r min) = (evaluate_level now line r min, level_evaluator r min)
  evaluate now line (error_rate_evaluator r ts) =
      let (fired, ts') = evaluate_error_rate now line r ts in (fired, error_rate_evaluator r ts')
  evaluate now line (health_change_evaluator r) = (none, health_change_evaluator r)
