-- ===== src/Aggregator/Process.antt =====
-- `Process` and `Flush` of internal/aggregator/aggregator.go.
use mathlib.Core.List.{append-nil}
use text.Mathlib.TextLemmas.{append_assoc}
use logtailr.Base.{
  ℕ, ◌+◌, String, ◌≡◌, refl, sym, ap, ◌∙◌, Bool, true, false, Option, none, some, List, [], ◌∷◌,
  ◌++◌, arith, eq_refl, if◌then◌else◌, str_eq, Option-cases, inl, inr,
}
use logtailr.Base.Int.{ℤ, pos, sub_ℕ, ◌≤ℤ◌, leb_ℤ}
use logtailr.Base.Dict.{Dict, get, put, get-put}
use logtailr.Base.Dict.Distinct.{IsDistinct, sum_by, sum_by-put, sum_by-put_absent, put-IsDistinct}
use logtailr.Logline.{LogLine}
use logtailr.Aggregator.{
  Aggregator, AggregatedLine, Entry, is_expired, collect_expired, record_line, process, flush,
  total, entry_key, ◌⊕◌,
}
use logtailr.Aggregator.Collect.{
  pending, live, get-flush, total-flush, window-collect_expired, IsDistinct-collect_expired,
  get-collect_expired, total-collect_expired, expired_lines, collect_expired-expired_lines,
}

-- the entry of a line's key after the line
abbrev pub merged : ℕ → LogLine → Option Entry → Entry
merged now line none = record { line = line; count = 1; first_seen = now; last_seen = now }
merged now line (some e) = record e { count = e.count + 1; last_seen = now }

live-fits :
    (window : ℤ) (now : ℕ) (o : Option Entry) {e : Entry}
    → live window now o ≡ some e
    → leb_ℤ (sub_ℕ now e.first_seen) window ≡ true
live-fits window now o h = ground arith

-- A line joins the entry of its key if that is within the window, and else starts one.
record_line_lem :
    (now : ℕ) (line : LogLine) (o : Option Entry) (a : Aggregator)
    → ((e : Entry) → o ≡ some e → leb_ℤ (sub_ℕ now e.first_seen) a.window ≡ true)
    → record_line now line o a
      ≡ ([], record a { entries = put a.entries (entry_key line) (merged now line o) })
unfolding record_line
record_line_lem now line none a fits = refl
record_line_lem now line (some e) a fits = rw (fits e refl)

sum_by-merged :
    (now : ℕ) (line : LogLine) (m : Dict Entry) (k : String)
    → sum_by (λ e. e.count) (put m k (merged now line (get m k))) ≡ sum_by (λ e. e.count) m + 1
sum_by-merged now line m k = elim (Option-cases (get m k)) [
  | inl absent ↦ rw absent (sum_by-put_absent (λ (e : Entry). e.count) m k _ absent)
  | inr (e, found) ↦
      rw found
        (omega (arith, sum_by-put (λ (x : Entry). x.count) m k (merged now line (some e)) e found))
]

within_of_live :
    (now : ℕ) (line : LogLine) (window : ℤ) (here : Bool) (o p : Option Entry) {e : Entry}
    → pos 0 ≤ℤ window
    → (if here then some (merged now line (live window now o)) else live window now p) ≡ some e
    → is_expired window now e ≡ false
within_of_live now line window here o p h q = ground arith

pending_of_absent : (m : Dict Entry) → ((k : String) → get m k ≡ none) → sum_by (λ e. e.count) m ≡ 0
unfolding get
pending_of_absent [] h = refl
pending_of_absent ((k, e) ∷ m) h = ground (arith, h k, eq_refl k)

module _ (now : ℕ) (line : LogLine) (a : Aggregator) (d : IsDistinct a.entries) where
  abbrev kept : Aggregator
  kept = (collect_expired now a).1

  abbrev joined : Entry
  joined = merged now line (get kept.entries (entry_key line))

  kept-fits :
      (e : Entry)
      → get kept.entries (entry_key line) ≡ some e
      → leb_ℤ (sub_ℕ now e.first_seen) kept.window ≡ true
  kept-fits e h = rw ((window-collect_expired now a).0) (
      live-fits a.window now (get a.entries (entry_key line))
        (sym (get-collect_expired now a d (entry_key line)) ∙ h))

  process_lem : process now line a ≡ (
    (collect_expired now a).0 ++ [],
    record kept { entries = put kept.entries (entry_key line) joined },
  )
  unfolding process
  process_lem = rw (record_line_lem now line _ kept kept-fits)

  -- `Process` emits the expired entries, each with its count, and nothing else; the branch that
  -- would emit an older entry of the line's own key is never taken.
  pub process-expired_lines :
      (process now line a).0 ≡ expired_lines a.window a.min_count now a.entries
  process-expired_lines =
      ap (λ (r : List AggregatedLine × Aggregator). r.0) process_lem
      ∙ append-nil _
      ∙ collect_expired-expired_lines now a

  -- After `Process` the key of the line holds the line itself with count 1, or the entry that was
  -- there and not expired with one more count; every other key holds what it held, unless expired.
  pub get-process :
      (k : String)
      → get (process now line a).1.entries k ≡ (
          if str_eq (entry_key line) k
          then some (merged now line (live a.window now (get a.entries (entry_key line))))
          else live a.window now (get a.entries k))
  get-process k =
      rw process_lem
        (rw (get-put, get-collect_expired now a d (entry_key line), get-collect_expired now a d k))

  pub IsDistinct-process : IsDistinct (process now line a).1.entries
  IsDistinct-process =
      rw process_lem
        (put-IsDistinct kept.entries (entry_key line) joined (IsDistinct-collect_expired now a d))

  window-process :
      ((process now line a).1.window ≡ a.window) × ((process now line a).1.min_count ≡ a.min_count)
  window-process = rw process_lem (window-collect_expired now a)

  -- One more line is pending or emitted; none is lost and none is counted twice.
  pub process_conserves :
      total (process now line a).0 + pending (process now line a).1 ≡ pending a + 1
  process_conserves =
      rw (process_lem, append-nil)
        (omega (
          arith,
          sum_by-merged now line kept.entries (entry_key line),
          total-collect_expired now a d,
        ))

  -- With a window that is not negative, every entry that `Process` leaves is within the window.
  pub process-within :
      (k : String) {e : Entry}
      → pos 0 ≤ℤ a.window
      → get (process now line a).1.entries k ≡ some e
      → is_expired a.window now e ≡ false
  process-within k h p = within_of_live now line a.window _ _ _ h (sym (get-process k) ∙ p)

-- `Flush` returns every pending line and leaves no entry.
pub flush_conserves :
    (a : Aggregator)
    → IsDistinct a.entries
    → (total (flush a).0 ≡ pending a)
      × (pending (flush a).1 ≡ 0)
      × ((k : String) → get (flush a).1.entries k ≡ none)
flush_conserves a d =
    let none_left = pending_of_absent (flush a).1.entries (get-flush a) in
    (omega (arith, total-flush a d, none_left), none_left, get-flush a)

abbrev prefix : String → String → String → String
prefix s l t = s ⊕ "|" ⊕ l ⊕ "|" ⊕ t

same_key :
    (x y : LogLine) (s l t m : String)
    → x.source ≡ prefix s l t
    → x.level ≡ l
    → x.message ≡ m
    → y.source ≡ s
    → y.level ≡ l
    → y.message ≡ prefix t l m
    → entry_key x ≡ entry_key y
unfolding entry_key
same_key x y s l t m xs xl xm ys yl ym = rw (xs, xl, xm, ys, yl, ym) (simp append_assoc)

-- the entry of a line's own key, one line later
get-process_own :
    (now : ℕ) (line : LogLine) (a : Aggregator) (k : String) (o : Option Entry)
    → IsDistinct a.entries
    → entry_key line ≡ k
    → get a.entries k ≡ o
    → get (process now line a).1.entries k ≡ some (merged now line (live a.window now o))
get-process_own now line a k o d same held = rw (get-process now line a d k, same, held, eq_refl k)

merged_twice :
    (now later : ℕ) (x y : LogLine) (window : ℤ)
    → leb_ℤ (sub_ℕ later now) window ≡ true
    → merged later y (live window later (some (merged now x none)))
      ≡ record { line = x; count = 2; first_seen = now; last_seen = later }
merged_twice now later x y window w = ground arith

-- Two lines of one level have the same key though their sources and their messages differ, where
-- a `|` in a source or a message can be read as the separator. If the key is not held yet, the
-- second line, within the window, is counted as the first one.
pub same_key_lost :
    (now later : ℕ) (a : Aggregator) (x y : LogLine) (s l t m : String)
    → IsDistinct a.entries
    → get a.entries (entry_key x) ≡ none
    → leb_ℤ (sub_ℕ later now) a.window ≡ true
    → x.source ≡ s ⊕ "|" ⊕ l ⊕ "|" ⊕ t
    → x.level ≡ l
    → x.message ≡ m
    → y.source ≡ s
    → y.level ≡ l
    → y.message ≡ t ⊕ "|" ⊕ l ⊕ "|" ⊕ m
    → get (process later y (process now x a).1).1.entries (entry_key y)
      ≡ some (record { line = x; count = 2; first_seen = now; last_seen = later })
same_key_lost now later a x y s l t m d fresh w xs xl xm ys yl ym =
    let same = same_key x y s l t m xs xl xm ys yl ym in
    let first = get-process_own now x a (entry_key x) none d refl fresh in
    get-process_own later y (process now x a).1 (entry_key y) _ (IsDistinct-process now x a d) refl
      (ap (λ k. get (process now x a).1.entries k) (sym same) ∙ first)
    ∙ ap some (rw ((window-process now x a d).0) (merged_twice now later x y a.window w))
