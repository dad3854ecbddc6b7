-- ===== src/Aggregator/Loop/Accounted.antt =====
-- No line that enters the aggregator of internal/aggregator/aggregator.go is lost unnoticed.
use logtailr.Base.{
  ℕ, ◌+◌, ◌≡◌, refl, Bool, true, false, Bool-cases, inl, inr, ltb, length, Option, none, some, List,
  [], ◌∷◌, ◌++◌, arith,
}
use logtailr.Base.Int.{ℤ}
use logtailr.Base.Dict.Distinct.{IsDistinct}
use logtailr.Aggregator.{AggregatedLine, new, collect_expired, process, flush, total}
use logtailr.Aggregator.Collect.{
  pending, total-append, IsDistinct-collect_expired, total-collect_expired, IsDistinct-flush,
  total-flush,
}
use logtailr.Aggregator.Process.{process_conserves, IsDistinct-process}
use logtailr.Aggregator.Loop.{
  System, Event, line, tick, receive, flush_all, stop, start, send, leave, hold, on_tick, on_send,
  on_receive, on_stop, on_leave, output_buffer, step, run,
}

pub totals : List (List AggregatedLine) → ℕ
totals [] = 0
totals (b ∷ bs) = total b + totals bs

abbrev held : Option (List AggregatedLine) → ℕ
held none = 0
held (some b) = total b

-- every line that the system has in hand, wherever it stands
abbrev pub accounted : System → ℕ
accounted s = total s.written + pending s.agg + totals s.output + held s.waiting + total s.lost

abbrev pub lines_in : List Event → ℕ
lines_in [] = 0
lines_in (line now l ∷ es) = lines_in es + 1
lines_in (e ∷ es) = lines_in es

totals-append : (xs ys : List (List AggregatedLine)) → totals (xs ++ ys) ≡ totals xs + totals ys
unfolding totals
totals-append [] ys = omega arith
totals-append (x ∷ xs) ys = omega (arith, totals-append xs ys)

abbrev ticked : Event → ℕ
ticked (line now l) = 1
ticked _ = 0

accounted-hold :
    (b : List AggregatedLine) (s : System)
    → s.waiting ≡ none
    → accounted (hold b s) ≡ accounted s + total b
unfolding hold total
accounted-hold [] s h = omega arith
accounted-hold (l ∷ ls) s h = rw h (omega arith)

accounted-on_tick :
    (now : ℕ) (returned : Bool) (waiting : Option (List AggregatedLine)) (s : System)
    → s.waiting ≡ waiting
    → IsDistinct s.agg.entries
    → accounted (on_tick now returned waiting s) ≡ accounted s
unfolding on_tick
accounted-on_tick now false none s h d =
    let (expired, agg') = collect_expired now s.agg in
    omega
      (arith, accounted-hold expired (record s { agg = agg' }) h, total-collect_expired now s.agg d)
accounted-on_tick now _ waiting s h d = refl

accounted-on_send :
    (waiting : Option (List AggregatedLine)) (s : System)
    → s.waiting ≡ waiting
    → accounted (on_send waiting s) ≡ accounted s
unfolding on_send totals
accounted-on_send none s h = refl
accounted-on_send (some b) s h = elim (Bool-cases (ltb (length s.output) output_buffer)) [
  | inl room ↦ rw (room, h) (omega (arith, totals-append s.output (b ∷ [])))
  | inr full ↦ rw full refl
]

accounted-on_receive :
    (output : List (List AggregatedLine)) (s : System)
    → s.output ≡ output
    → accounted (on_receive output s) ≡ accounted s
unfolding on_receive totals
accounted-on_receive [] s o = refl
accounted-on_receive (b ∷ bs) s o = rw o (omega (arith, total-append s.written b))

accounted-on_leave :
    (stopped returned : Bool) (waiting : Option (List AggregatedLine)) (s : System)
    → s.waiting ≡ waiting
    → accounted (on_leave stopped returned waiting s) ≡ accounted s
unfolding on_leave
accounted-on_leave true false none s h = refl
accounted-on_leave true false (some b) s h = rw h (omega (arith, total-append s.lost b))
accounted-on_leave true true waiting s h = refl
accounted-on_leave false returned waiting s h = refl

accounted-step :
    (e : Event) (s : System)
    → IsDistinct s.agg.entries
    → accounted (step e s) ≡ accounted s + ticked e
unfolding step on_stop
accounted-step (line now l) s d =
    omega (arith, process_conserves now l s.agg d, total-append s.written (process now l s.agg).0)
accounted-step (tick now) s d = omega (arith, accounted-on_tick now s.returned s.waiting s refl d)
accounted-step send s d = omega (arith, accounted-on_send s.waiting s refl)
accounted-step receive s d = omega (arith, accounted-on_receive s.output s refl)
accounted-step flush_all s d =
    omega (arith, total-flush s.agg d, total-append s.written (flush s.agg).0)
accounted-step stop s d = omega arith
accounted-step leave s d = omega (arith, accounted-on_leave s.stopped s.returned s.waiting s refl)

agg-hold : (b : List AggregatedLine) (s : System) → (hold b s).agg ≡ s.agg
unfolding hold
agg-hold [] s = refl
agg-hold (l ∷ ls) s = refl

IsDistinct-on_tick :
    (now : ℕ) (returned : Bool) (waiting : Option (List AggregatedLine)) (s : System)
    → IsDistinct s.agg.entries
    → IsDistinct (on_tick now returned waiting s).agg.entries
unfolding on_tick
IsDistinct-on_tick now false none s d =
    rw (agg-hold (collect_expired now s.agg).0 (record s { agg = (collect_expired now s.agg).1 }))
      (IsDistinct-collect_expired now s.agg d)
IsDistinct-on_tick now _ waiting s d = d

agg-on_send :
    (waiting : Option (List AggregatedLine)) (s : System) → (on_send waiting s).agg ≡ s.agg
unfolding on_send
agg-on_send none s = refl
agg-on_send (some b) s = elim (Bool-cases (ltb (length s.output) output_buffer)) [
  | inl room ↦ rw room refl
  | inr full ↦ rw full refl
]

agg-on_receive :
    (output : List (List AggregatedLine)) (s : System) → (on_receive output s).agg ≡ s.agg
unfolding on_receive
agg-on_receive [] s = refl
agg-on_receive (b ∷ bs) s = refl

agg-on_leave :
    (stopped returned : Bool) (waiting : Option (List AggregatedLine)) (s : System)
    → (on_leave stopped returned waiting s).agg ≡ s.agg
unfolding on_leave
agg-on_leave true false none s = refl
agg-on_leave true false (some b) s = refl
agg-on_leave true true waiting s = refl
agg-on_leave false returned waiting s = refl

IsDistinct-step :
    (e : Event) (s : System) → IsDistinct s.agg.entries → IsDistinct (step e s).agg.entries
unfolding step on_stop
IsDistinct-step (line now l) s d = IsDistinct-process now l s.agg d
IsDistinct-step (tick now) s d = IsDistinct-on_tick now s.returned s.waiting s d
IsDistinct-step send s d = rw (agg-on_send s.waiting s) d
IsDistinct-step receive s d = rw (agg-on_receive s.output s) d
IsDistinct-step flush_all s d = IsDistinct-flush s.agg d
IsDistinct-step stop s d = d
IsDistinct-step leave s d = rw (agg-on_leave s.stopped s.returned s.waiting s) d

lines_in-cons : (e : Event) (es : List Event) → lines_in (e ∷ es) ≡ lines_in es + ticked e
lines_in-cons (line now l) es = refl
lines_in-cons (tick now) es = omega arith
lines_in-cons send es = omega arith
lines_in-cons receive es = omega arith
lines_in-cons flush_all es = omega arith
lines_in-cons stop es = omega arith
lines_in-cons leave es = omega arith

accounted-run :
    (es : List Event) (s : System)
    → IsDistinct s.agg.entries
    → accounted (run es s) ≡ accounted s + lines_in es
unfolding run
accounted-run [] s d = omega arith
accounted-run (e ∷ es) s d = omega (
  arith,
  accounted-run es (step e s) (IsDistinct-step e s d),
  accounted-step e s d,
  lines_in-cons e es,
)

-- Whatever the order of lines, ticks, sends, receptions, flushes, stops and the return of the loop,
-- from a new aggregator each line is accounted for exactly once: written, still pending in an entry,
-- in the channel, in the batch that the loop is about to send, or lost with it when the loop returns.
pub accounted-run-start :
    (window min_count : ℤ) (es : List Event)
    → accounted (run es (start window min_count)) ≡ lines_in es
unfolding new total totals
accounted-run-start window min_count es =
    omega (arith, accounted-run es (start window min_count) tt)
