-- ===== src/Alert/Engine/Reload.antt =====
-- `ReloadRules` of internal/alert/engine.go.
use logtailr.Base.{
  String, ◌≡◌, refl, ap, ◌∙◌, ◌↔◌, Bool, true, false, Option, none, some, List, [], ◌∷◌, map, arith,
  str_eq, eq_iff, if◌then◌else◌, Bool-cases, inl, inr, any,
}
use logtailr.Base.Dict.{Dict, get, put, get-put}
use logtailr.Base.Result.{ok, err, Result-cases}
use logtailr.Alert.{Rule}
use logtailr.Alert.Evaluator.{Library, Evaluator, rule, compile_rule}
use logtailr.Alert.Evaluator.Fired.{rule-compile_rule}
use logtailr.Alert.Engine.{
  Engine, Failure, RuleState, zero_state, compile_rules, fresh_stats, kept_state, preserve_stats,
  new_engine, reload_rules, rules,
}

-- a rule of this name is among them
abbrev pub names : String → List Rule → Bool
names k rs = any (λ r. str_eq r.name k) rs

pub get-fresh_stats :
    (rs : List Rule) (m : Dict RuleState) (k : String)
    → get (fresh_stats rs m) k ≡ (if names k rs then some zero_state else get m k)
unfolding fresh_stats
get-fresh_stats [] m k = refl
get-fresh_stats (r ∷ rs) m k =
    ground (arith, get-fresh_stats rs (put m r.name zero_state) k, get-put m r.name k zero_state)

kept : Option RuleState → Option RuleState → Option RuleState
kept old none = none
kept old (some st) = some (kept_state old st)

get-preserve_stats :
    (old m : Dict RuleState) (k : String)
    → get (preserve_stats old m) k ≡ kept (get old k) (get m k)
unfolding preserve_stats get kept
get-preserve_stats old [] k = refl
get-preserve_stats old ((name, st) ∷ m) k = elim (Bool-cases (str_eq name k)) [
  | inl same ↦ rw (same, (eq_iff name k).0 same)
  | inr other ↦ rw (other, get-preserve_stats old m k)
]

abbrev pub state_or_zero : Option RuleState → RuleState
state_or_zero none = zero_state
state_or_zero (some st) = st

kept_zero : (o : Option RuleState) → kept o (some zero_state) ≡ some (state_or_zero o)
unfolding kept kept_state
kept_zero none = refl
kept_zero (some st) = refl

pub get-reloaded :
    (old : Dict RuleState) (rs : List Rule) (k : String)
    → get (preserve_stats old (fresh_stats rs [])) k
      ≡ (if names k rs then some (state_or_zero (get old k)) else none)
unfolding get
get-reloaded old rs k =
    get-preserve_stats old (fresh_stats rs []) k
    ∙ ap (kept (get old k)) (get-fresh_stats rs [] k)
    ∙ spread (names k rs)
  where
    spread :
        (b : Bool)
        → kept (get old k) (if b then some zero_state else none)
          ≡ (if b then some (state_or_zero (get old k)) else none)
    spread true = kept_zero (get old k)
    spread false = unfold kept in refl

module _ (lib : Library) where
  rules-compile_rules :
      (rs : List Rule) (evs : List (Evaluator lib))
      → compile_rules lib rs ≡ ok evs
      → map (rule lib) evs ≡ rs
  unfolding compile_rules
  rules-compile_rules [] evs h = ground arith
  rules-compile_rules (r ∷ rs) evs h = elim (Result-cases (compile_rule lib r)) [
    | inl (ev, e) ↦ elim (Result-cases (compile_rules lib rs)) [
      | inl (rest, f) ↦ ground (arith, rule-compile_rule lib r ev e, rules-compile_rules rs rest f)
      | inr (e', f) ↦ ground arith
    ]
    | inr (e', f) ↦ ground arith
  ]

  -- A reload that succeeds installs the rules, in their order, and keeps of the counts those of the
  -- names that stay; a new name starts at zero, and a name that is gone has none. The limiter and
  -- the recent events stay.
  pub reload_rules_lem :
      (rs : List Rule) (e e' : Engine lib)
      → reload_rules lib rs e ≡ ok e'
      → (rules lib e' ≡ rs)
        × ((k : String)
            → get e'.rule_stats k
              ≡ (if names k rs then some (state_or_zero (get e.rule_stats k)) else none))
        × (e'.limiter ≡ e.limiter)
        × (e'.recent ≡ e.recent)
        × (e'.process_ch ≡ e.process_ch)
        × (e'.notified ≡ e.notified)
  unfolding reload_rules rules
  reload_rules_lem rs e e' h = elim (Result-cases (compile_rules lib rs)) [
    | inl (evs, f) ↦ (
      ground (arith, rules-compile_rules rs evs f),
      λ k. ground (arith, get-reloaded e.rule_stats rs k),
      ground arith,
      ground arith,
      ground arith,
      ground arith,
    )
    | inr (err', f) ↦ ground arith
  ]

  -- A rule that does not compile fails the reload, and with it the creation of an engine: the
  -- caller keeps the engine that it had.
  pub reload_rules-new_engine :
      (rs : List Rule) (e : Engine lib) (f : Failure lib)
      → (reload_rules lib rs e ≡ err f) ↔ (new_engine lib rs ≡ err f)
  unfolding reload_rules new_engine
  reload_rules-new_engine rs e f = ground arith
