-- ===== src/Aggregator/Loop.antt =====
-- The aggregator of internal/aggregator/aggregator.go beside its flush loop: a ticker emits expired
-- entries into the channel `output`, which the pipeline receives from; `Stop` closes `done`.
pub mod Accounted
pub mod Bounded
use logtailr.Base.{
  ℕ, ◌+◌, ◌≤◌, ◌≡◌, refl, Bool, true, false, Option, none, some, List, [], ◌∷◌, ◌++◌, arith, ltb,
  ◌⊎◌, inl, inr, if◌then◌else◌, length, length-append,
}
use logtailr.Base.Int.{ℤ}
use logtailr.Base.Dict.Distinct.{IsDistinct}
use logtailr.Logline.{LogLine}
use logtailr.Aggregator.{Aggregator, AggregatedLine, new, collect_expired, process, flush, total}
use logtailr.Aggregator.Collect.{
  pending, total-append, IsDistinct-collect_expired, total-collect_expired, IsDistinct-flush,
  total-flush,
}
use logtailr.Aggregator.Process.{process_conserves, IsDistinct-process}

abbrev pub output_buffer : ℕ
output_buffer = 16

-- `output` is the channel, `waiting` the batch that the loop is about to send, `stopped` says that
-- `done` is closed and `returned` that the loop has returned, `written` is what the pipeline was
-- handed, `lost` what the loop held when it returned.
pub record System : Type 0 where
  pub agg : Aggregator
  pub output : List (List AggregatedLine)
  pub waiting : Option (List AggregatedLine)
  pub stopped : Bool
  pub returned : Bool
  pub written : List AggregatedLine
  pub lost : List AggregatedLine

pub data Event : Type 0 where
  line : ℕ → LogLine → Event
  tick : ℕ → Event
  send : Event
  receive : Event
  flush_all : Event
  stop : Event
  leave : Event

abbrev pub start : ℤ → ℤ → System
start window min_count = record {
  agg = new window min_count;
  output = [];
  waiting = none;
  stopped = false;
  returned = false;
  written = [];
  lost = [];
}

unfoldable pub hold : List AggregatedLine → System → System
hold [] s = s
hold (l ∷ ls) s = record s { waiting = some (l ∷ ls) }

-- A tick, for a loop that has not returned and has no batch to send. Where `done` is closed too, the
-- select may still choose the tick.
unfoldable pub on_tick : ℕ → Bool → Option (List AggregatedLine) → System → System
unfolding hold
on_tick now false none s =
    let (expired, agg') = collect_expired now s.agg in hold expired (record s { agg = agg' })
on_tick now returned waiting s = s

-- the send of the loop's batch, while the channel has room
unfoldable pub on_send : Option (List AggregatedLine) → System → System
on_send none s = s
on_send (some batch) s =
    if ltb (length s.output) output_buffer
    then record s { output = s.output ++ batch ∷ []; waiting = none }
    else s

-- the pipeline receives a batch
unfoldable pub on_receive : List (List AggregatedLine) → System → System
on_receive [] s = s
on_receive (batch ∷ rest) s = record s { output = rest; written = s.written ++ batch }

-- Stop
unfoldable pub on_stop : System → System
on_stop s = record s { stopped = true }

-- one of the two selects chooses the closed `done`: the loop returns with the batch that it has
unfoldable pub on_leave : Bool → Bool → Option (List AggregatedLine) → System → System
on_leave true false none s = record s { returned = true }
on_leave true false (some batch) s = record s {
  returned = true;
  waiting = none;
  lost = s.lost ++ batch;
}
on_leave stopped returned waiting s = s

unfoldable pub step : Event → System → System
unfolding on_tick on_send on_receive on_stop on_leave
step (line now l) s =
    let (out, agg') = process now l s.agg in record s { agg = agg'; written = s.written ++ out }
step (tick now) s = on_tick now s.returned s.waiting s
step send s = on_send s.waiting s
step receive s = on_receive s.output s
step flush_all s =
    let (out, agg') = flush s.agg in record s { agg = agg'; written = s.written ++ out }
step stop s = on_stop s
step leave s = on_leave s.stopped s.returned s.waiting s

unfoldable pub run : List Event → System → System
unfolding step
run [] s = s
run (e ∷ es) s = run es (step e s)
