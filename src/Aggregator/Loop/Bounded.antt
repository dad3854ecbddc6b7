-- ===== src/Aggregator/Loop/Bounded.antt =====
-- The channel `output` of internal/aggregator/aggregator.go.
use logtailr.Base.{
  ℕ, ◌≤◌, ◌≡◌, refl, ap, Bool, true, false, Option, none, some, List, [], ◌∷◌, arith, length,
  length-append, ltb, Bool-cases, inl, inr,
}
use logtailr.Aggregator.{AggregatedLine, collect_expired}
use logtailr.Aggregator.Loop.{
  System, Event, line, tick, send, receive, flush_all, stop, leave, output_buffer, hold, on_tick,
  on_send, on_receive, on_stop, on_leave, step, run,
}

-- at most 16 batches are in the channel
abbrev pub IsBounded : System → Type 0
IsBounded s = length s.output ≤ output_buffer

output-hold : (b : List AggregatedLine) (s : System) → (hold b s).output ≡ s.output
unfolding hold
output-hold [] s = refl
output-hold (l ∷ ls) s = refl

output-on_tick :
    (now : ℕ) (returned : Bool) (waiting : Option (List AggregatedLine)) (s : System)
    → (on_tick now returned waiting s).output ≡ s.output
unfolding on_tick
output-on_tick now false none s = output-hold (collect_expired now s.agg).0 _
output-on_tick now _ waiting s = refl

on_send-IsBounded :
    (waiting : Option (List AggregatedLine)) (s : System)
    → IsBounded s
    → IsBounded (on_send waiting s)
unfolding on_send
on_send-IsBounded none s b = b
on_send-IsBounded (some batch) s b = elim (Bool-cases (ltb (length s.output) output_buffer)) [
  | inl room ↦ rw room (ground (arith, length-append s.output (batch ∷ [])))
  | inr full ↦ rw full b
]

on_receive-IsBounded :
    (output : List (List AggregatedLine)) (s : System)
    → s.output ≡ output
    → IsBounded s
    → IsBounded (on_receive output s)
unfolding on_receive
on_receive-IsBounded [] s o b = b
on_receive-IsBounded (x ∷ bs) s o b = omega (arith, ap length o, b)

output-on_leave :
    (stopped returned : Bool) (waiting : Option (List AggregatedLine)) (s : System)
    → (on_leave stopped returned waiting s).output ≡ s.output
unfolding on_leave
output-on_leave true false none s = refl
output-on_leave true false (some b) s = refl
output-on_leave true true waiting s = refl
output-on_leave false returned waiting s = refl

-- Every step keeps the channel within its capacity.
step-IsBounded : (e : Event) (s : System) → IsBounded s → IsBounded (step e s)
unfolding step on_stop
step-IsBounded (line now l) s b = b
step-IsBounded (tick now) s b = rw (output-on_tick now s.returned s.waiting s) b
step-IsBounded send s b = on_send-IsBounded s.waiting s b
step-IsBounded receive s b = on_receive-IsBounded s.output s refl b
step-IsBounded flush_all s b = b
step-IsBounded stop s b = b
step-IsBounded leave s b = rw (output-on_leave s.stopped s.returned s.waiting s) b

-- From a state within the capacity, after any events, at most 16 batches are in the channel.
pub run-IsBounded : (es : List Event) (s : System) → IsBounded s → IsBounded (run es s)
unfolding run
run-IsBounded [] s b = b
run-IsBounded (e ∷ es) s b = run-IsBounded es (step e s) (step-IsBounded e s b)
