-- ===== src/Alert/Evaluator/ErrorRate.antt =====
-- The sliding window of errorRateEvaluator in internal/alert/engine.go.
use logtailr.Base.{
  ℕ, ◌≤◌, ◌≡◌, refl, false, ◌&&◌, none, some, List, [], ◌∷◌, ◌++◌, arith, length, All,
  if◌then◌else◌, Bool-cases, inl, inr,
}
use logtailr.Base.Int.{ℤ, pos, sub_ℕ, leb_ℤ, ltb_ℤ, ◌<ℤ◌}
use logtailr.Logline.{LogLine, level_of}
use logtailr.Alert.{Rule}
use logtailr.Aggregator.{◌⊕◌}
use logtailr.Base.Text.{decimal}
use logtailr.Alert.Evaluator.{
  Library, event, covers, is_at_least, error_level, drop_before, evaluate_error_rate,
}

-- in the order of time, and not after `now`
abbrev pub IsSorted : ℕ → List ℕ → Type 0
IsSorted now [] = Unit
IsSorted now (t ∷ ts) = (t ≤ now) × All (λ u. t ≤ u) ts × IsSorted now ts

-- the instants within the window before `now`
abbrev pub within : ℕ → ℤ → List ℕ → List ℕ
within now window [] = []
within now window (t ∷ ts) =
    let rest = within now window ts in if ltb_ℤ window (sub_ℕ now t) then rest else t ∷ rest

within_of_recent :
    (now : ℕ) (window : ℤ) (t : ℕ) (ts : List ℕ)
    → ltb_ℤ window (sub_ℕ now t) ≡ false
    → All (λ u. t ≤ u) ts
    → within now window ts ≡ ts
within_of_recent now window t [] h a = refl
within_of_recent now window t (u ∷ us) h (le, a) =
    let late : ltb_ℤ window (sub_ℕ now u) ≡ false = ground arith in
    rw (late, within_of_recent now window t us h a)

drop_before-within :
    (now : ℕ) (window : ℤ) (ts : List ℕ)
    → IsSorted now ts
    → drop_before now window ts ≡ within now window ts
unfolding drop_before
drop_before-within now window [] s = refl
drop_before-within now window (t ∷ ts) (le, after, s) =
    elim (Bool-cases (ltb_ℤ window (sub_ℕ now t))) [
      | inl old ↦ rw (old, drop_before-within now window ts s)
      | inr recent ↦ rw (recent, within_of_recent now window t ts recent after)
    ]

All-concat_le :
    (u now : ℕ) (ts : List ℕ) → u ≤ now → All (λ t. u ≤ t) ts → All (λ t. u ≤ t) (ts ++ now ∷ [])
All-concat_le u now [] h a = (h, tt)
All-concat_le u now (t ∷ ts) h (le, a) = (le, All-concat_le u now ts h a)

IsSorted-concat : (now : ℕ) (ts : List ℕ) → IsSorted now ts → IsSorted now (ts ++ now ∷ [])
IsSorted-concat now [] s = (omega arith, tt, tt)
IsSorted-concat now (t ∷ ts) (le, a, s) =
    (le, All-concat_le t now ts le a, IsSorted-concat now ts s)

All-within :
    (P : ℕ → Type 0) (now : ℕ) (window : ℤ) (ts : List ℕ) → All P ts → All P (within now window ts)
All-within P now window [] a = tt
All-within P now window (t ∷ ts) (p, a) = elim (Bool-cases (ltb_ℤ window (sub_ℕ now t))) [
  | inl old ↦ rw old (All-within P now window ts a)
  | inr recent ↦ rw recent (p, All-within P now window ts a)
]

IsSorted-within :
    (now : ℕ) (window : ℤ) (ts : List ℕ) → IsSorted now ts → IsSorted now (within now window ts)
IsSorted-within now window [] s = tt
IsSorted-within now window (t ∷ ts) (le, a, s) = elim (Bool-cases (ltb_ℤ window (sub_ℕ now t))) [
  | inl old ↦ rw old (IsSorted-within now window ts s)
  | inr recent ↦
      rw recent (le, All-within (λ u. t ≤ u) now window ts a, IsSorted-within now window ts s)
]

module _ (lib : Library) (now : ℕ) (line : LogLine) (r : Rule) (ts : List ℕ) where
  abbrev recent : List ℕ
  recent = within now r.window (ts ++ now ∷ [])

  -- With the earlier errors in the order of time: an error of the rule's source raises an event
  -- exactly when, with it, at least `threshold` errors lie within the window; the event carries
  -- their number, and the count starts anew. Else the errors within the window are kept. A line
  -- that is no such error raises no event and changes nothing.
  pub evaluate_error_rate-within :
      IsSorted now ts
      → evaluate_error_rate lib now line r ts ≡ (
          if covers r line.source && is_at_least error_level (level_of line.level)
          then (if leb_ℤ r.threshold (pos (length recent))
              then (
                some (
                    event r
                      ("Error rate exceeded: "
                        ⊕ decimal (length recent)
                        ⊕ " errors in "
                        ⊕ lib.duration_text r.window)
                      line.source
                      now
                      (length recent)),
                [],
              )
              else (none, recent))
          else (none, ts))
  unfolding evaluate_error_rate
  evaluate_error_rate-within s =
      rw (drop_before-within now r.window (ts ++ now ∷ []) (IsSorted-concat now ts s))

  -- Timestamps that are in the order of time, up to now, and fewer than the threshold stay so.
  pub evaluate_error_rate-IsSorted :
      IsSorted now ts
      → pos (length ts) <ℤ r.threshold
      → IsSorted now (evaluate_error_rate lib now line r ts).1
        × (pos (length (evaluate_error_rate lib now line r ts).1) <ℤ r.threshold)
  evaluate_error_rate-IsSorted s few =
      rw (evaluate_error_rate-within s)
        (ground (arith, IsSorted-within now r.window (ts ++ now ∷ []) (IsSorted-concat now ts s)))
