-- ===== src/Aggregator.antt =====
-- internal/aggregator/aggregator.go: repeated lines within a window become one line with a count.
-- Instants are nanoseconds, and `now` is what `nowFunc` returns. A `range` over the entries visits
-- them in the order of the list, which is any order.
pub mod Collect
pub mod Process
pub mod Loop
mod Tests
use Prim.Native.String
use logtailr.Base.{
  ℕ, ◌+◌, ◌*◌, ◌/◌, ◌%◌, String, Bool, Option, none, some, List, [], ◌∷◌, ◌++◌, ltb, leb, ◌==◌,
  if◌then◌else◌, length,
}
use logtailr.Base.Int.{ℤ, pos, negsuc, pos_part, neg_part, sub_ℕ, ltb_ℤ, leb_ℤ}
use logtailr.Base.Text.{decimal}
use logtailr.Base.Dict.{Dict, get, put, remove}
use logtailr.Logline.{LogLine}

pub record AggregatedLine : Type 0 where
  pub line : LogLine
  pub count : ℕ

pub record Entry : Type 0 where
  pub line : LogLine
  pub count : ℕ
  pub first_seen : ℕ
  pub last_seen : ℕ

pub record Aggregator : Type 0 where
  pub window : ℤ
  pub min_count : ℕ
  pub entries : Dict Entry

infixr 65 ◌⊕◌
abbrev pub ◌⊕◌ : String → String → String
s ⊕ t = String.◌++◌ s t

abbrev pub second : ℕ
second = 1000000000

abbrev pub default_window : ℤ
default_window = pos (5 * second)

at_least_two : ℤ → ℕ
at_least_two n = if ltb_ℤ n (pos 2) then 2 else pos_part n

unfoldable pub new : ℤ → ℤ → Aggregator
unfolding at_least_two
new window min_count = record {
  window = if leb_ℤ window (pos 0) then default_window else window;
  min_count = at_least_two min_count;
  entries = [];
}

unfoldable pub entry_key : LogLine → String
entry_key line = line.source ⊕ "|" ⊕ line.level ⊕ "|" ⊕ line.message

format_seconds : ℕ → String
format_seconds secs =
    if ltb secs 60
    then decimal secs ⊕ "s"
    else if secs % 60 == 0
    then decimal (secs / 60) ⊕ "m"
    else decimal (secs / 60) ⊕ "m" ⊕ decimal (secs % 60) ⊕ "s"

-- Below a second `%d` prints whole milliseconds, rounded towards zero.
unfoldable pub format_duration : ℤ → String
unfolding format_seconds decimal
format_duration (pos n) =
    if ltb n second then decimal (n / 1000000) ⊕ "ms" else format_seconds (n / second)
format_duration (negsuc n) =
    if (n + 1) / 1000000 == 0 then "0ms" else "-" ⊕ decimal ((n + 1) / 1000000) ⊕ "ms"

abbrev pub suffix : Entry → String
suffix e =
    " (x" ⊕ decimal e.count ⊕ " in last " ⊕ format_duration (sub_ℕ e.last_seen e.first_seen) ⊕ ")"

unfoldable pub emitted : ℕ → Entry → AggregatedLine
emitted min_count e =
    if leb min_count e.count
    then record { line = record e.line { message = e.line.message ⊕ suffix e }; count = e.count }
    else record { line = e.line; count = e.count }

-- emitEntryLocked
unfoldable pub emit_entry : String → Entry → Aggregator → AggregatedLine × Aggregator
unfolding emitted
emit_entry key e a = (emitted a.min_count e, record a { entries = remove a.entries key })

abbrev pub is_expired : ℤ → ℕ → Entry → Bool
is_expired window now e = ltb_ℤ window (sub_ℕ now e.first_seen)

-- one round of collectExpiredLocked
unfoldable pub visit : ℕ → String → Entry → Aggregator → List AggregatedLine × Aggregator
unfolding emit_entry
visit now key e a =
    let (line, a') = emit_entry key e a in
    if is_expired a.window now e then (line ∷ [], a') else ([], a)

unfoldable pub collect_from : ℕ → Dict Entry → Aggregator → List AggregatedLine × Aggregator
unfolding visit
collect_from now [] a = ([], a)
collect_from now ((key, e) ∷ es) a =
    let (out, a') = visit now key e a in
    let (rest, a'') = collect_from now es a' in (out ++ rest, a'')

-- collectExpiredLocked
unfoldable pub collect_expired : ℕ → Aggregator → List AggregatedLine × Aggregator
unfolding collect_from
collect_expired now a = collect_from now a.entries a

abbrev fresh : LogLine → ℕ → Entry
fresh line now = record { line = line; count = 1; first_seen = now; last_seen = now }

-- the entry of the line's key, after the expired ones are gone
unfoldable pub record_line :
    ℕ → LogLine → Option Entry → Aggregator → List AggregatedLine × Aggregator
unfolding emit_entry entry_key
record_line now line none a =
    ([], record a { entries = put a.entries (entry_key line) (fresh line now) })
record_line now line (some e) a =
    let (old, a') = emit_entry (entry_key line) e a in
    if leb_ℤ (sub_ℕ now e.first_seen) a.window
    then (
      [],
      record a {
        entries =
            put a.entries (entry_key line) (record e { count = e.count + 1; last_seen = now });
      },
    )
    else (old ∷ [], record a' { entries = put a'.entries (entry_key line) (fresh line now) })

unfoldable pub process : ℕ → LogLine → Aggregator → List AggregatedLine × Aggregator
unfolding collect_expired record_line
process now line a =
    let (expired, a') = collect_expired now a in
    let (old, a'') = record_line now line (get a'.entries (entry_key line)) a' in
    (expired ++ old, a'')

flush_from : Dict Entry → Aggregator → List AggregatedLine × Aggregator
unfolding emit_entry
flush_from [] a = ([], a)
flush_from ((key, e) ∷ es) a =
    let (line, a') = emit_entry key e a in let (rest, a'') = flush_from es a' in (line ∷ rest, a'')

-- flushAllLocked
unfoldable pub flush : Aggregator → List AggregatedLine × Aggregator
unfolding flush_from
flush a = flush_from a.entries a

pub total : List AggregatedLine → ℕ
total [] = 0
total (l ∷ ls) = l.count + total ls
