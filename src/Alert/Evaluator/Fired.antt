-- ===== src/Alert/Evaluator/Fired.antt =====
-- The events that the evaluators of internal/alert/engine.go raise.
use logtailr.Base.{ℕ, ◌≡◌, refl, some, arith}
use logtailr.Logline.{LogLine}
use logtailr.Base.Result.{ok}
use logtailr.Alert.{Event, Rule}
use logtailr.Alert.Evaluator.{
  Library, Evaluator, pattern_evaluator, level_evaluator, error_rate_evaluator,
  health_change_evaluator, rule, compile_rule, evaluate,
}

module _ (lib : Library) where
  -- an event names the evaluator's rule and the time of the evaluation
  pub evaluate-rule :
      (now : ℕ) (line : LogLine) (ev : Evaluator lib) (e : Event)
      → (evaluate lib now line ev).0 ≡ some e
      → (e.rule ≡ (rule lib ev).name) × (e.timestamp ≡ now)
  unfolding evaluate rule
  evaluate-rule now line (pattern_evaluator r p) e h = ground arith
  evaluate-rule now line (level_evaluator r min) e h = ground arith
  evaluate-rule now line (error_rate_evaluator r ts) e h = ground arith
  evaluate-rule now line (health_change_evaluator r) e h = ground arith

  -- an evaluator keeps its rule
  pub rule-evaluate :
      (now : ℕ) (line : LogLine) (ev : Evaluator lib)
      → rule lib (evaluate lib now line ev).1 ≡ rule lib ev
  unfolding evaluate rule
  rule-evaluate now line (pattern_evaluator r p) = refl
  rule-evaluate now line (level_evaluator r min) = refl
  rule-evaluate now line (error_rate_evaluator r ts) = refl
  rule-evaluate now line (health_change_evaluator r) = refl

  -- a rule that compiles gives an evaluator of that rule
  pub rule-compile_rule :
      (r : Rule) (ev : Evaluator lib) → compile_rule lib r ≡ ok ev → rule lib ev ≡ r
  unfolding compile_rule rule
  rule-compile_rule r ev h = ground arith
