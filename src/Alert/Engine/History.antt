-- ===== src/Alert/Engine/History.antt =====
-- The recent events and the counts of internal/alert/engine.go against the history of what fired.
use logtailr.Base.{
  ℕ, ◌+◌, ◌-◌, ◌≤◌, String, ◌≡◌, refl, sym, ap, ◌∙◌, true, Option, none, some, List, [], ◌∷◌, ◌++◌,
  arith, str_eq, eq_iff, if◌then◌else◌, length, drop, length-append, length-drop, Bool-cases,
  Option-cases, inl, inr, zero, suc, leb, leb→le,
}
use logtailr.Base.Dict.{Dict, get, get-put}
use logtailr.Logline.{LogLine}
use logtailr.Health.{Status}
use logtailr.Alert.{Rule, Event}
use logtailr.Alert.RateLimit.{allow}
use logtailr.Alert.Evaluator.{Library, Evaluator, rule, evaluate}
use logtailr.Alert.Evaluator.Fired.{evaluate-rule}
use logtailr.Alert.Engine.{
  Engine, RuleState, health_rule, max_recent_events, push_recent, count_fire, fire_event, fire_if,
  evaluate_all, process_next, process_round, process_health_change, fire_health,
}

-- the last `n` of a list
abbrev pub latest {ℓ} : {A : Type ℓ} → ℕ → List A → List A
latest n xs = drop (length xs - n) xs

drop-append {ℓ} :
    {A : Type ℓ} (n : ℕ) (xs ys : List A) → n ≤ length xs → drop n (xs ++ ys) ≡ drop n xs ++ ys
drop-append zero xs ys h = refl
drop-append (suc n) [] ys h = elim h [ ]
drop-append (suc n) (x ∷ xs) ys h = drop-append n xs ys (omega arith)

drop-drop_one {ℓ} : {A : Type ℓ} (n : ℕ) (xs : List A) → drop 1 (drop n xs) ≡ drop (suc n) xs
drop-drop_one zero xs = refl
drop-drop_one (suc n) [] = refl
drop-drop_one (suc n) (x ∷ xs) = drop-drop_one n xs

push_recent-latest :
    (ev : Event) (history : List Event)
    → push_recent ev (latest max_recent_events history)
      ≡ latest max_recent_events (history ++ ev ∷ [])
push_recent-latest ev history = elim (Bool-cases (leb max_recent_events (length history))) [
  | inl full ↦
      let n = length history - max_recent_events in
      let long : leb max_recent_events (length (drop n history)) ≡ true =
        ground (arith, length-drop n history) in
      let next : length (history ++ ev ∷ []) - max_recent_events ≡ suc n =
        omega (arith, length-append history (ev ∷ []), leb→le _ _ full) in
      rw (long, next, drop-drop_one n history)
        (sym (drop-append (suc n) history (ev ∷ []) (omega (arith, leb→le _ _ full))))
  | inr few ↦
      let start : length history - max_recent_events ≡ 0 = ground arith in
      let next : length (history ++ ev ∷ []) - max_recent_events ≡ 0 =
        ground (arith, length-append history (ev ∷ [])) in
      rw (start, few, next)
]

-- how many of the events are of a rule
pub count_rule : String → List Event → ℕ
count_rule name [] = 0
count_rule name (ev ∷ evs) = (if str_eq ev.rule name then 1 else 0) + count_rule name evs

count_rule-append :
    (name : String) (xs ys : List Event)
    → count_rule name (xs ++ ys) ≡ count_rule name xs + count_rule name ys
unfolding count_rule
count_rule-append name [] ys = omega arith
count_rule-append name (x ∷ xs) ys = omega (arith, count_rule-append name xs ys)

module _ (lib : Library) where
  -- The recent events are the last 100 of those that fired, and no rule's count is more than the
  -- number of its events.
  pub record HasHistory (e : Engine lib) : Type 0 where
    pub recent : e.recent ≡ latest max_recent_events e.notified
    pub counted :
        (name : String) (st : RuleState)
        → get e.rule_stats name ≡ some st
        → st.fire_count ≤ count_rule name e.notified

  counted-fire :
      (r name : String) (now : ℕ) (stats : Dict RuleState) (ev : Event) (history : List Event)
      (st : RuleState)
      → ev.rule ≡ r
      → ((k : String) (s : RuleState) → get stats k ≡ some s → s.fire_count ≤ count_rule k history)
      → get (count_fire r now (get stats r) stats) name ≡ some st
      → st.fire_count ≤ count_rule name (history ++ ev ∷ [])
  unfolding count_fire count_rule
  counted-fire r name now stats ev history st same counted h = elim (Option-cases (get stats r)) [
    | inl absent ↦ omega (
      arith,
      count_rule-append name history (ev ∷ []),
      counted name st (rw (absent, count_fire) at h),
    )
    | inr (old, found) ↦
        let new : RuleState = record { fire_count = old.fire_count + 1; last_fired = now } in
        let h' : (if str_eq r name then some new else get stats name) ≡ some st =
          sym (get-put stats r name new) ∙ (rw (found, count_fire) at h) in
        elim (Bool-cases (str_eq r name)) [
          | inl own ↦
              let e = (eq_iff r name).0 own in
              ground (
                arith,
                count_rule-append name history (ev ∷ []),
                counted r old found,
                eq_iff ev.rule name,
              )
          | inr other ↦
              omega
                (arith, count_rule-append name history (ev ∷ []), counted name st (rw other at h'))
        ]
  ]

  fire_event-HasHistory :
      (now : ℕ) (r : Rule) (ev : Event) (e : Engine lib)
      → ev.rule ≡ r.name
      → HasHistory e
      → HasHistory (fire_event lib now r ev e)
  unfolding fire_event
  fire_event-HasHistory now r ev e same h =
      elim (Bool-cases (allow now r.name r.cooldown e.limiter).0) [
        | inl allowed ↦ rw allowed (record {
          recent = ap (push_recent ev) h.recent ∙ push_recent-latest ev e.notified;
          counted = λ name st.
              counted-fire r.name name ev.timestamp e.rule_stats ev e.notified st same h.counted;
        })
        | inr denied ↦ rw denied (record { recent = h.recent; counted = h.counted })
      ]

  fire_if-HasHistory :
      (now : ℕ) (r : Rule) (fired : Option Event) (e : Engine lib)
      → ((ev : Event) → fired ≡ some ev → ev.rule ≡ r.name)
      → HasHistory e
      → HasHistory (fire_if lib now r fired e)
  unfolding fire_if
  fire_if-HasHistory now r none e same h = h
  fire_if-HasHistory now r (some ev) e same h = fire_event-HasHistory now r ev e (same ev refl) h

  evaluate_all-HasHistory :
      (now : ℕ) (line : LogLine) (evs : List (Evaluator lib)) (e : Engine lib)
      → HasHistory e
      → HasHistory (evaluate_all lib now line evs e).1
  unfolding evaluate_all
  evaluate_all-HasHistory now line [] e h = h
  evaluate_all-HasHistory now line (ev ∷ evs) e h =
      let fired = (evaluate lib now line ev).0 in
      evaluate_all-HasHistory now line evs (fire_if lib now (rule lib ev) fired e) (
        fire_if-HasHistory now (rule lib ev) fired e (λ x p. (evaluate-rule lib now line ev x p).0)
          h)

  process_next-HasHistory :
      (now : ℕ) (queue : List LogLine) (e : Engine lib)
      → HasHistory e
      → HasHistory (process_next lib now queue e)
  unfolding process_next
  process_next-HasHistory now [] e h = h
  process_next-HasHistory now (line ∷ lines) e h =
      let h' =
        evaluate_all-HasHistory now line e.evaluators (record e { process_ch = lines })
          (record { recent = h.recent; counted = h.counted }) in
      record { recent = h'.recent; counted = h'.counted }

  fire_health-HasHistory :
      (now : ℕ) (source : String) (old new : Status) (evs : List (Evaluator lib)) (e : Engine lib)
      → HasHistory e
      → HasHistory (fire_health lib now source old new evs e)
  unfolding fire_health
  fire_health-HasHistory now source old new [] e h = h
  fire_health-HasHistory now source old new (ev ∷ evs) e h =
      let r = rule lib ev in
      elim (Bool-cases (health_rule r source)) [
        | inl yes_rule ↦ rw yes_rule (
            fire_health-HasHistory now source old new evs _
              (fire_event-HasHistory now r _ e refl h))
        | inr other ↦ rw other (fire_health-HasHistory now source old new evs e h)
      ]

  -- A line that is processed, whatever rules it fires, keeps this.
  pub process_round-HasHistory :
      (now : ℕ) (e : Engine lib) → HasHistory e → HasHistory (process_round lib now e)
  unfolding process_round
  process_round-HasHistory now e h = process_next-HasHistory now e.process_ch e h

  -- A health change that is reported to the engine keeps this.
  pub process_health_change-HasHistory :
      (now : ℕ) (source : String) (old new : Status) (e : Engine lib)
      → HasHistory e
      → HasHistory (process_health_change lib now source old new e)
  unfolding process_health_change
  process_health_change-HasHistory now source old new e h =
      fire_health-HasHistory now source old new e.evaluators e h
