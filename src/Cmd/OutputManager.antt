-- ===== src/Cmd/OutputManager.antt =====
-- cmd/output_manager.go: lines and requests to swap the writer go through one bounded queue, which
-- one goroutine empties.
pub mod Order
mod Tests
use logtailr.Base.{
  ℕ, ◌+◌, Bool, true, false, Option, none, some, List, [], ◌∷◌, ◌++◌, ltb, if◌then◌else◌, length,
}
use logtailr.Base.Result.{Result, ok, err}
use logtailr.Logline.{LogLine}
use logtailr.Output.{Writers}

abbrev pub output_queue_buffer : ℕ
output_queue_buffer = 4096

-- `createWriter` of cmd/writers.go, which may fail.
pub record Outputs : Type 1 where
  pub writers : Writers
  pub open writers use *
  pub Config : Type 0
  pub create_writer : Config → Result Error Writer

module _ (out : Outputs) where
  open out use {Config, create_writer, writers.{Writer, Error, write, close}}

  pub data OutEvent : Type 0 where
    line : LogLine → OutEvent
    swap : Config → OutEvent

  -- what the writer goroutine works on: the writer, and the ones that it has closed
  pub record Sink : Type 0 where
    pub writer : Option Writer
    pub closed : List Writer

  -- `waiting` are the calls of Swap that wait for room in the queue
  pub record Manager : Type 0 where
    pub sink : Sink
    pub queue : List OutEvent
    pub waiting : List Config
    pub dropped : ℕ
    pub cancelled : Bool

  unfoldable pub new_output_manager : Writer → Manager
  new_output_manager w = record {
    sink = record { writer = some w; closed = [] };
    queue = [];
    waiting = [];
    dropped = 0;
    cancelled = false;
  }

  -- OutputManager.Write, with `drop`
  unfoldable pub enqueue_line : LogLine → Manager → Manager
  enqueue_line l m =
      if ltb (length m.queue) output_queue_buffer
      then record m { queue = m.queue ++ line l ∷ [] }
      else record m { dropped = m.dropped + 1 }

  unfoldable pub write_to : LogLine → Option Writer → Option Writer
  write_to l none = none
  write_to l (some w) = some ((write l w).1)

  -- writeOne; an error of the writer is logged
  unfoldable pub write_one : LogLine → Sink → Sink
  unfolding write_to
  write_one l s = record s { writer = write_to l s.writer }

  unfoldable pub replace_writer : Result Error Writer → Option Writer → Sink → Sink
  replace_writer (err e) old s = s
  replace_writer (ok w) none s = record s { writer = some w }
  replace_writer (ok w) (some old) s = record {
    writer = some w;
    closed = s.closed ++ (close old).1 ∷ [];
  }

  unfoldable pub perform_swap : Config → Sink → Sink
  unfolding replace_writer
  perform_swap cfg s = replace_writer (create_writer cfg) s.writer s

  -- one event, as `writerLoop` and `drainQueue` handle it
  unfoldable pub handle : OutEvent → Sink → Sink
  unfolding write_one perform_swap
  handle (line l) s = write_one l s
  handle (swap cfg) s = perform_swap cfg s

  turn_from : List OutEvent → List Config → Manager → Manager
  unfolding handle
  turn_from [] waiting m = m
  turn_from (ev ∷ rest) [] m = record m { sink = handle ev m.sink; queue = rest }
  turn_from (ev ∷ rest) (cfg ∷ cfgs) m = record m {
    sink = handle ev m.sink;
    queue = rest ++ swap cfg ∷ [];
    waiting = cfgs;
  }

  -- one round of `writerLoop`: the first event of the queue leaves it, and the room goes to the call
  -- that waits longest
  unfoldable pub turn : Manager → Manager
  unfolding turn_from
  turn m = turn_from m.queue m.waiting m

  -- Swap: it waits where there is no room
  unfoldable pub enqueue_swap : Config → Manager → Manager
  enqueue_swap cfg m =
      if ltb (length m.queue) output_queue_buffer
      then record m { queue = m.queue ++ swap cfg ∷ [] }
      else record m { waiting = m.waiting ++ cfg ∷ [] }

  unfoldable pub handle_all : List OutEvent → Sink → Sink
  handle_all [] s = s
  handle_all (ev ∷ rest) s = handle_all rest (handle ev s)

  unfoldable pub close_writer : Option Writer → Sink → Sink
  close_writer none s = s
  close_writer (some w) s =
      let w' = (close w).1 in record { writer = some w'; closed = s.closed ++ w' ∷ [] }

  -- Close: the calls that wait give up, the loop drains the queue, and the last writer is closed. No
  -- event comes after it.
  unfoldable pub close_manager : Manager → Manager
  unfolding handle_all close_writer
  close_manager m =
      let s = handle_all m.queue m.sink in
      record m { sink = close_writer s.writer s; queue = []; waiting = []; cancelled = true }
