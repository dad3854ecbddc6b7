-- ===== src/Alert/Evaluator/Tests.antt =====
-- The evaluators of internal/alert/engine.go at work.
use logtailr.Base.{ℕ, ◌*◌, ◌≡◌, refl, none, some, [], ◌∷◌, ◌&&◌, arith, length, if◌then◌else◌}
use logtailr.Base.Int.{pos, leb_ℤ}
use logtailr.Base.Text.{decimal}
use logtailr.Base.Dict.{get, put}
use logtailr.Logline.{level_of}
use logtailr.Aggregator.{second, ◌⊕◌}
use logtailr.Alert.RateLimit.{Call, fires, Spaced, fires-Spaced}
use logtailr.Alert.Samples.{sample, rate_rule, failure}
use logtailr.Alert.Evaluator.{evaluate_error_rate, covers, is_at_least, error_level, event}
use logtailr.Alert.Evaluator.ErrorRate.{within, evaluate_error_rate-within}

second_error :
    (evaluate_error_rate sample (12 * second) (failure "b") rate_rule ((5 * second) ∷ [])).1 ≡ []
unfolding evaluate_error_rate level_of
second_error = refl

evaluate_error_rate-within_example :
    evaluate_error_rate sample (12 * second) (failure "b") rate_rule ((5 * second) ∷ []) ≡ (
      if covers rate_rule "app" && is_at_least error_level (level_of "ERROR")
      then (if leb_ℤ (pos 2) (
            pos (
              length
                (within (12 * second) (pos (10 * second)) ((5 * second) ∷ (12 * second) ∷ []))))
          then (
            some (
                event rate_rule
                  ("Error rate exceeded: "
                    ⊕ decimal (
                        length (
                          within
                            (12 * second)
                            (pos (10 * second))
                            ((5 * second) ∷ (12 * second) ∷ [])))
                    ⊕ " errors in "
                    ⊕ "a while")
                  "app"
                  (12 * second)
                  (length (
                    within (12 * second) (pos (10 * second)) ((5 * second) ∷ (12 * second) ∷ [])))),
            [],
          )
          else (none, within (12 * second) (pos (10 * second)) ((5 * second) ∷ (12 * second) ∷ [])))
      else (none, (5 * second) ∷ []))
evaluate_error_rate-within_example =
    evaluate_error_rate-within sample (12 * second) (failure "b") rate_rule ((5 * second) ∷ [])
      (omega arith, tt, tt)

abbrev call : ℕ → Call
call now = record { now = now; rule = "errors"; cooldown = pos 60 }

fires-Spaced_example : Spaced (pos 60) none (fires "errors" (call 10 ∷ call 50 ∷ call 70 ∷ []) [])
unfolding fires get
fires-Spaced_example =
    fires-Spaced "errors" (pos 60) (call 10 ∷ call 50 ∷ call 70 ∷ []) [] (omega arith)
      ((λ _. refl), ((λ _. refl), ((λ _. refl), tt)))

fires_at : fires "errors" (call 10 ∷ call 50 ∷ call 70 ∷ []) [] ≡ 10 ∷ 70 ∷ []
unfolding fires get put
fires_at = refl
