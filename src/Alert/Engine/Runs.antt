-- ===== src/Alert/Engine/Runs.antt =====
-- Runs of the engine of internal/alert/engine.go: what holds after any calls, in any order.
use mathlib.Core.Path.{subst}
use logtailr.Base.{
  ℕ, zero, suc, ◌+◌, ◌-◌, ◌≤◌, String, ◌≡◌, refl, sym, ap, ◌∙◌, Bool, Option, none, some, List, [],
  ◌∷◌, arith, if◌then◌else◌, length, drop, length-drop, Bool-cases, inl, inr, leb, ltb,
}
use logtailr.Base.Int.{ℤ, pos, pos_part, leb_ℤ, ltb_ℤ}
use logtailr.Base.Dict.{get}
use logtailr.Base.Result.{Result, ok, err, Result-cases}
use logtailr.Logline.{LogLine}
use logtailr.Health.{Status}
use logtailr.Alert.{Rule, Event}
use logtailr.Alert.Evaluator.{Library}
use logtailr.Alert.Engine.{
  Engine, Failure, RuleState, max_recent_events, process_queue_size, process_line, process_round,
  process_health_change, recent_events, new_engine, compile_rules, reload_rules, set_event_store,
}
use logtailr.Alert.Engine.Reload.{names, get-fresh_stats, state_or_zero, reload_rules_lem}
use logtailr.Alert.Engine.History.{
  HasHistory, latest, count_rule, process_round-HasHistory, process_health_change-HasHistory,
}

drop-nil {ℓ} : {A : Type ℓ} (n : ℕ) → drop {A = A} n [] ≡ []
drop-nil zero = refl
drop-nil (suc n) = refl

drop-drop {ℓ} : {A : Type ℓ} (m n : ℕ) (xs : List A) → drop m (drop n xs) ≡ drop (n + m) xs
drop-drop m zero xs = ap (λ k. drop k xs) (omega arith)
drop-drop m (suc n) [] = drop-nil m ∙ sym (drop-nil (suc n + m))
drop-drop m (suc n) (x ∷ xs) =
    let e : suc (n + m) ≡ suc n + m = omega arith in drop-drop m n xs ∙ ap (λ k. drop k (x ∷ xs)) e

-- how many events a limit asks for
abbrev pub asked : ℤ → ℕ
asked limit =
    if leb_ℤ limit (pos 0)
    then max_recent_events
    else if leb max_recent_events (pos_part limit)
    then max_recent_events
    else pos_part limit

abbrev limited : ℤ → List Event → List Event
limited limit recent =
    if leb_ℤ limit (pos 0)
    then recent
    else if ltb_ℤ (pos (length recent)) limit
    then recent
    else drop (length recent - pos_part limit) recent

recent_events_lem :
    (limit : ℤ) (recent history : List Event)
    → recent ≡ latest max_recent_events history
    → limited limit recent ≡ latest (asked limit) history
recent_events_lem limit recent history h =
    let size = ap length h ∙ length-drop (length history - max_recent_events) history in
    let old = length history - max_recent_events in
    elim (Bool-cases (leb_ℤ limit (pos 0))) [
      | inl all ↦ rw all h
      | inr some_limit ↦ elim (Bool-cases (ltb_ℤ (pos (length recent)) limit)) [
        | inl more ↦
            let same : old ≡ length history - asked limit = ground (arith, size) in
            rw (some_limit, more) (h ∙ ap (λ k. drop k history) (same ∙ rw some_limit))
        | inr fewer ↦
            let same : old + (length recent - pos_part limit) ≡ length history - asked limit =
              ground (arith, size) in
            rw (some_limit, fewer)
              (ap (drop (length recent - pos_part limit)) h
                ∙ drop-drop _ old history
                ∙ ap (λ k. drop k history) (same ∙ rw some_limit))
      ]
    ]

pub data Op : Type 0 where
  line : LogLine → Op
  round : ℕ → Op
  health_change : ℕ → String → Status → Status → Op
  reload : List Rule → Op
  with_store : Op

module _ (lib : Library) where
  reloaded : Engine lib → Result (Failure lib) (Engine lib) → Engine lib
  reloaded e (ok e') = e'
  reloaded e (err f) = e

  pub step : Op → Engine lib → Engine lib
  unfolding reloaded
  step (line l) e = process_line lib l e
  step (round now) e = process_round lib now e
  step (health_change now source old new) e = process_health_change lib now source old new e
  step (reload rs) e = reloaded e (reload_rules lib rs e)
  step with_store e = set_event_store lib e

  pub run : List Op → Engine lib → Engine lib
  run [] e = e
  run (op ∷ ops) e = run ops (step op e)

  process_line-HasHistory :
      (l : LogLine) (e : Engine lib) → HasHistory lib e → HasHistory lib (process_line lib l e)
  unfolding process_line
  process_line-HasHistory l e h = elim (Bool-cases (ltb (length e.process_ch) process_queue_size)) [
    | inl room ↦ rw room (record { recent = h.recent; counted = h.counted })
    | inr full ↦ rw full h
  ]

  state_or_zero-le :
      (o : Option RuleState) (b : Bool) (st : RuleState) (n : ℕ)
      → ((s : RuleState) → o ≡ some s → s.fire_count ≤ n)
      → (if b then some (state_or_zero o) else none) ≡ some st
      → st.fire_count ≤ n
  state_or_zero-le none b st n h e = ground arith
  state_or_zero-le (some s) b st n h e = ground (arith, h s refl)

  reload-HasHistory :
      (rs : List Rule) (e : Engine lib)
      → HasHistory lib e
      → HasHistory lib (reloaded e (reload_rules lib rs e))
  unfolding reloaded
  reload-HasHistory rs e h = elim (Result-cases (reload_rules lib rs e)) [
    | inl (e', f) ↦
        let (_, stats, _, recent, _, notified) = reload_rules_lem lib rs e e' f in
        rw f (record {
          recent = recent ∙ h.recent ∙ ap (latest max_recent_events) (sym notified);
          counted = λ name st found.
              subst (λ evs. st.fire_count ≤ count_rule name evs) (sym notified)
                (state_or_zero-le (get e.rule_stats name) (names name rs) st _ (h.counted name)
                  (sym (stats name) ∙ found));
        })
    | inr (_, f) ↦ rw f h
  ]

  step-HasHistory : (op : Op) (e : Engine lib) → HasHistory lib e → HasHistory lib (step op e)
  unfolding step set_event_store
  step-HasHistory (line l) e h = process_line-HasHistory l e h
  step-HasHistory (round now) e h = process_round-HasHistory lib now e h
  step-HasHistory (health_change now source old new) e h =
      process_health_change-HasHistory lib now source old new e h
  step-HasHistory (reload rs) e h = reload-HasHistory rs e h
  step-HasHistory with_store e h = record { recent = h.recent; counted = h.counted }

  run-HasHistory_from :
      (ops : List Op) (e : Engine lib) → HasHistory lib e → HasHistory lib (run ops e)
  unfolding run
  run-HasHistory_from [] e h = h
  run-HasHistory_from (op ∷ ops) e h = run-HasHistory_from ops (step op e) (step-HasHistory op e h)

  new_engine-HasHistory :
      (rs : List Rule) (e : Engine lib) → new_engine lib rs ≡ ok e → HasHistory lib e
  unfolding new_engine get
  new_engine-HasHistory rs e h = elim (Result-cases (compile_rules lib rs)) [
    | inl (evs, f) ↦ record {
      recent = ground arith;
      counted = λ name st found. ground (arith, get-fresh_stats rs [] name);
    }
    | inr (_, f) ↦ absurd (ground arith)
  ]

  -- From a new engine, after any lines, rounds, health changes and reloads in any order, the
  -- recent events are the last 100 that fired, and no rule's count is more than the number of its
  -- events that fired.
  pub run-HasHistory :
      (rs : List Rule) (ops : List Op) (e : Engine lib)
      → new_engine lib rs ≡ ok e
      → HasHistory lib (run ops e)
  run-HasHistory rs ops e h = run-HasHistory_from ops e (new_engine-HasHistory rs e h)

  -- From a new engine, after any lines, rounds, health changes and reloads in any order: a request for
  -- recent events returns the latest of all that fired, as many as it asks for and at most 100, oldest
  -- first; a limit that is not positive asks for 100.
  pub recent_events-run :
      (rs : List Rule) (ops : List Op) (limit : ℤ) (e : Engine lib)
      → new_engine lib rs ≡ ok e
      → recent_events lib limit (run ops e) ≡ latest (asked limit) (run ops e).notified
  unfolding recent_events
  recent_events-run rs ops limit e h =
      recent_events_lem limit (run ops e).recent (run ops e).notified
        (run-HasHistory rs ops e h).recent
