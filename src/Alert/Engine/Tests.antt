-- ===== src/Alert/Engine/Tests.antt =====
-- Engines of internal/alert/engine.go at work.
use logtailr.Base.{String, ◌*◌, ◌≡◌, refl, none, some, false, List, [], ◌∷◌, if◌then◌else◌}
use logtailr.Base.Int.{pos}
use logtailr.Base.Dict.{get, put}
use logtailr.Base.Result.{ok, err}
use logtailr.Health.{healthy, failed}
use logtailr.Aggregator.{second}
use logtailr.Alert.Evaluator.{error_rate_evaluator, health_change_evaluator, invalid_pattern}
use logtailr.Alert.Samples.{sample, rate_rule, health_rule, broken_rule, failure}
use logtailr.Alert.Engine.{Engine, zero_state, new_engine, reload_rules, recent_events, rules}
use logtailr.Alert.Engine.Reload.{names, state_or_zero, reload_rules_lem}
use logtailr.Alert.Engine.History.{HasHistory, latest}
use logtailr.Alert.Engine.Runs.{
  Op, line, round, health_change, reload, run, run-HasHistory, asked, recent_events-run,
}

abbrev fresh : Engine sample
fresh = record {
  evaluators = error_rate_evaluator rate_rule [] ∷ health_change_evaluator health_rule ∷ [];
  limiter = [];
  recent = [];
  rule_stats = ("errors", zero_state) ∷ ("health", zero_state) ∷ [];
  process_ch = [];
  persisting = false;
  stored = [];
  notified = [];
}

new_fresh : new_engine sample (rate_rule ∷ health_rule ∷ []) ≡ ok fresh
unfolding new_engine put
new_fresh = refl

abbrev ops : List (Op)
ops =
    line (failure "a")
    ∷ line (failure "b")
    ∷ round (1 * second)
    ∷ round (2 * second)
    ∷ health_change (3 * second) "app" healthy failed
    ∷ reload (broken_rule ∷ [])
    ∷ reload (rate_rule ∷ [])
    ∷ []

run-HasHistory_example : HasHistory sample (run sample ops fresh)
run-HasHistory_example = run-HasHistory sample (rate_rule ∷ health_rule ∷ []) ops fresh new_fresh

recent_events-run_example :
    recent_events sample (pos 1) (run sample ops fresh)
    ≡ latest (asked (pos 1)) (run sample ops fresh).notified
recent_events-run_example =
    recent_events-run sample (rate_rule ∷ health_rule ∷ []) ops (pos 1) fresh new_fresh

abbrev fewer : Engine sample
fewer = record fresh {
  evaluators = error_rate_evaluator rate_rule [] ∷ [];
  rule_stats = ("errors", zero_state) ∷ [];
}

reload_fewer : reload_rules sample (rate_rule ∷ []) fresh ≡ ok fewer
unfolding reload_rules put get
reload_fewer = refl

reload_rules_lem_example :
    (rules sample fewer ≡ rate_rule ∷ [])
    × ((k : String)
        → get fewer.rule_stats k ≡ (
            if names k (rate_rule ∷ [])
            then some (state_or_zero (get fresh.rule_stats k))
            else none))
    × (fewer.limiter ≡ fresh.limiter)
    × (fewer.recent ≡ fresh.recent)
    × (fewer.process_ch ≡ fresh.process_ch)
    × (fewer.notified ≡ fresh.notified)
reload_rules_lem_example = reload_rules_lem sample (rate_rule ∷ []) fresh fewer reload_fewer

-- a rule whose pattern does not compile fails the reload
reload_broken :
    reload_rules sample (rate_rule ∷ broken_rule ∷ []) fresh
    ≡ err ("broken", invalid_pattern "missing )")
unfolding reload_rules
reload_broken = refl
