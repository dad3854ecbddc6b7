-- ===== src/Alert/Engine.antt =====
-- internal/alert/engine.go: the engine that evaluates lines, limits and records the events. The
-- goroutines are operations on one state, which the engine's locks and channel put in an order.
pub mod Reload
pub mod Start
pub mod History
pub mod Runs
mod Tests
use logtailr.Base.{
  ℕ, ◌+◌, ◌-◌, String, Bool, true, false, ◌&&◌, not, Option, none, some, List, [], ◌∷◌, ◌++◌, map,
  str_eq, ltb, leb, if◌then◌else◌, length, drop,
}
use logtailr.Base.Int.{ℤ, pos, negsuc, pos_part, leb_ℤ, ltb_ℤ}
use logtailr.Base.Dict.{Dict, get, put}
use logtailr.Base.Result.{Result, ok, err, ◌>>=◌}
use logtailr.Logline.{LogLine}
use logtailr.Aggregator.{◌⊕◌}
use logtailr.Health.{Status}
use logtailr.Alert.{Rule, Event}
use logtailr.Alert.RateLimit.{RateLimiter, allow}
use logtailr.Alert.Evaluator.{
  Library, RuleError, covers, event, Evaluator, rule, compile_rule, evaluate,
}

abbrev pub max_recent_events : ℕ
max_recent_events = 100

abbrev pub process_queue_size : ℕ
process_queue_size = 512

pub record RuleState : Type 0 where
  pub fire_count : ℕ
  pub last_fired : ℕ

abbrev pub zero_state : RuleState
zero_state = record { fire_count = 0; last_fired = 0 }

status_text : Status → String
status_text Status.unset = ""
status_text Status.healthy = "healthy"
status_text Status.degraded = "degraded"
status_text Status.failed = "failed"
status_text Status.stopped = "stopped"
status_text Status.starting = "starting"

-- the loop that gives each name its own state
pub fresh_stats : List Rule → Dict RuleState → Dict RuleState
fresh_stats [] m = m
fresh_stats (r ∷ rs) m = fresh_stats rs (put m r.name zero_state)

count_fire : String → ℕ → Option RuleState → Dict RuleState → Dict RuleState
count_fire name now none m = m
count_fire name now (some st) m =
    put m name (record { fire_count = st.fire_count + 1; last_fired = now })

abbrev pub push_recent : Event → List Event → List Event
push_recent ev recent =
    (if leb max_recent_events (length recent) then drop 1 recent else recent) ++ ev ∷ []

-- the rules of `ProcessHealthChange` that are of its kind and about the source
abbrev pub health_rule : Rule → String → Bool
health_rule r source = str_eq r.kind "health_change" && covers r source

kept_state : Option RuleState → RuleState → RuleState
kept_state none st = st
kept_state (some old) st = old

-- the loop that preserves the states of the names that stay
pub preserve_stats : Dict RuleState → Dict RuleState → Dict RuleState
unfolding kept_state
preserve_stats old [] = []
preserve_stats old ((name, st) ∷ m) = (name, kept_state (get old name) st) ∷ preserve_stats old m

module _ (lib : Library) where
  abbrev pub Failure : Type 0
  Failure = String × RuleError lib.regexp.Error

  -- `stored` are the events handed to the event store, which is set if `persisting`; `notified`
  -- those handed to every notifier.
  pub record Engine : Type 0 where
    pub evaluators : List (Evaluator lib)
    pub limiter : RateLimiter
    pub recent : List Event
    pub rule_stats : Dict RuleState
    pub process_ch : List LogLine
    pub persisting : Bool
    pub stored : List Event
    pub notified : List Event

  named_error :
      Rule → Result (RuleError lib.regexp.Error) (Evaluator lib) → Result Failure (Evaluator lib)
  named_error r (ok ev) = ok ev
  named_error r (err e) = err (r.name, e)

  -- the loop that compiles the rules, up to the first that fails
  pub compile_rules : List Rule → Result Failure (List (Evaluator lib))
  unfolding compile_rule named_error
  compile_rules [] = ok []
  compile_rules (r ∷ rs) = do
    ev ← named_error r (compile_rule lib r)
    evs ← compile_rules rs
    ok (ev ∷ evs)

  unfoldable pub new_engine : List Rule → Result Failure Engine
  unfolding compile_rules fresh_stats
  new_engine rules = do
    evs ← compile_rules rules
    ok (record {
      evaluators = evs;
      limiter = [];
      recent = [];
      rule_stats = fresh_stats rules [];
      process_ch = [];
      persisting = false;
      stored = [];
      notified = [];
    })

  unfoldable pub set_event_store : Engine → Engine
  set_event_store e = record e { persisting = true }

  -- a line is dropped when the channel is full
  unfoldable pub process_line : LogLine → Engine → Engine
  process_line line e =
      if ltb (length e.process_ch) process_queue_size
      then record e { process_ch = e.process_ch ++ line ∷ [] }
      else e

  unfoldable pub fire_event : ℕ → Rule → Event → Engine → Engine
  unfolding count_fire
  fire_event now r ev e =
      let (allowed, limiter') = allow now r.name r.cooldown e.limiter in
      if not allowed then record e { limiter = limiter' } else record e {
        limiter = limiter';
        rule_stats = count_fire r.name ev.timestamp (get e.rule_stats r.name) e.rule_stats;
        recent = push_recent ev e.recent;
        stored = (if e.persisting then e.stored ++ ev ∷ [] else e.stored);
        notified = e.notified ++ ev ∷ [];
      }

  fire_if : ℕ → Rule → Option Event → Engine → Engine
  fire_if now r none e = e
  fire_if now r (some ev) e = fire_event now r ev e

  -- the inner loop of `processLoop`: the evaluators as the line leaves them
  evaluate_all : ℕ → LogLine → List (Evaluator lib) → Engine → List (Evaluator lib) × Engine
  unfolding evaluate fire_if fire_event
  evaluate_all now line [] e = ([], e)
  evaluate_all now line (ev ∷ evs) e =
      let (fired, ev') = evaluate lib now line ev in
      let e' = fire_if now (rule lib ev) fired e in
      let (evs', e'') = evaluate_all now line evs e' in (ev' ∷ evs', e'')

  process_next : ℕ → List LogLine → Engine → Engine
  process_next now [] e = e
  process_next now (line ∷ lines) e =
      let (evs, e') = evaluate_all now line e.evaluators (record e { process_ch = lines }) in
      record e' { evaluators = evs }

  -- one round of `processLoop`
  unfoldable pub process_round : ℕ → Engine → Engine
  unfolding process_next evaluate_all
  process_round now e = process_next now e.process_ch e

  health_message : String → Status → Status → String
  unfolding status_text
  health_message source old new =
      "Source "
      ⊕ lib.quoted source
      ⊕ " health changed: "
      ⊕ status_text old
      ⊕ " -> "
      ⊕ status_text new

  fire_health : ℕ → String → Status → Status → List (Evaluator lib) → Engine → Engine
  unfolding health_message
  fire_health now source old new [] e = e
  fire_health now source old new (ev ∷ evs) e =
      let r = rule lib ev in
      fire_health now source old new evs (
        if health_rule r source
        then fire_event now r (event r (health_message source old new) source now 0) e
        else e)

  unfoldable pub process_health_change : ℕ → String → Status → Status → Engine → Engine
  unfolding fire_health fire_event
  process_health_change now source old new e = fire_health now source old new e.evaluators e

  -- `limit <= 0 || limit > len(recent)` asks for all of them
  unfoldable pub recent_events : ℤ → Engine → List Event
  recent_events limit e =
      if leb_ℤ limit (pos 0)
      then e.recent
      else if ltb_ℤ (pos (length e.recent)) limit
      then e.recent
      else drop (length e.recent - pos_part limit) e.recent

  unfoldable pub rules : Engine → List Rule
  unfolding rule
  rules e = map (rule lib) e.evaluators

  unfoldable pub reload_rules : List Rule → Engine → Result Failure Engine
  unfolding compile_rules fresh_stats preserve_stats
  reload_rules rs e = do
    evs ← compile_rules rs
    ok (record e { evaluators = evs; rule_stats = preserve_stats e.rule_stats (fresh_stats rs []) })
