-- ===== src/Alert/Evaluator/Compiled.antt =====
-- internal/alert/engine.go: which rules `compileRule` takes.
use logtailr.Base.{ℕ, String, ◌≡◌, refl, some, [], inl, inr, ◌⊎◌}
use logtailr.Base.Result.{ok}
use logtailr.Logline.{level_of}
use logtailr.Alert.{Rule}
use logtailr.Alert.Evaluator.{
  Library, Evaluator, compile_rule, compiled_pattern, known_level, pattern_evaluator,
  level_evaluator, error_rate_evaluator, health_change_evaluator,
}
use logtailr.Filter.{Regexp}

-- a rule of one of the four types, with the pattern or the level that it needs
abbrev pub Compiles : Regexp → String → String → String → Type 0
Compiles re kind pattern level =
    ((kind ≡ "pattern") × (p : re.Pattern) × (re.compile pattern ≡ ok p))
    ⊎ (((kind ≡ "level") × (n : ℕ) × (level_of level ≡ some n))
        ⊎ ((kind ≡ "error_rate") ⊎ (kind ≡ "health_change")))

module _ (lib : Library) where
  pub compile_rule-Compiles :
      (r : Rule)
      → Compiles lib.regexp r.kind r.pattern r.level
      → (ev : Evaluator lib) × (compile_rule lib r ≡ ok ev)
  unfolding compile_rule compiled_pattern known_level
  compile_rule-Compiles r (inl (k, p, h)) = (pattern_evaluator r p, rw (k, h) refl)
  compile_rule-Compiles r (inr (inl (k, n, h))) = (level_evaluator r n, rw (k, h) refl)
  compile_rule-Compiles r (inr (inr (inl k))) = (error_rate_evaluator r [], rw k refl)
  compile_rule-Compiles r (inr (inr (inr k))) = (health_change_evaluator r, rw k refl)
