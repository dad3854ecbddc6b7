-- ===== src/Alert/Engine/Start.antt =====
-- internal/alert/engine.go: an engine starts with any rules that compile.
use logtailr.Base.{◌≡◌, refl, false, List, [], ◌∷◌, All}
use logtailr.Base.Result.{ok}
use logtailr.Alert.{Rule}
use logtailr.Alert.Evaluator.{Library, Evaluator, compile_rule}
use logtailr.Alert.Engine.{Engine, compile_rules, named_error, new_engine, fresh_stats}

module _ (lib : Library) where
  abbrev pub CanCompile : Rule → Type 0
  CanCompile r = (ev : Evaluator lib) × (compile_rule lib r ≡ ok ev)

  compile_rules-CanCompile :
      (rules : List Rule)
      → All CanCompile rules
      → (evs : List (Evaluator lib)) × (compile_rules lib rules ≡ ok evs)
  unfolding compile_rules named_error
  compile_rules-CanCompile [] h = ([], refl)
  compile_rules-CanCompile (r ∷ rs) ((ev, h), hs) =
      let (evs, e) = compile_rules-CanCompile rs hs in (ev ∷ evs, rw (h, e) refl)

  pub new_engine-CanCompile :
      (rules : List Rule) → All CanCompile rules → (e : Engine lib) × (new_engine lib rules ≡ ok e)
  unfolding new_engine
  new_engine-CanCompile rules h =
      let (evs, e) = compile_rules-CanCompile rules h in
      let engine : Engine lib = record {
        evaluators = evs;
        limiter = [];
        recent = [];
        rule_stats = fresh_stats rules [];
        process_ch = [];
        persisting = false;
        stored = [];
        notified = [];
      } in
      (engine, rw e refl)
