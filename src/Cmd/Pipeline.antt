-- ===== src/Cmd/Pipeline.antt =====
-- cmd/pipeline.go: runPipeline. The tailers emit lines into the channel until they are stopped; the
-- flush loop of the aggregator puts expired batches into its own. Nothing closes the channels.
pub mod Steps
pub mod Shutdown
mod Tests
use logtailr.Base.{
  ℕ, String, Bool, true, false, not, ◌&&◌, Option, none, some, List, [], ◌∷◌, ◌++◌, map,
  if◌then◌else◌,
}
use logtailr.Base.Result.{Result, ok, err}
use logtailr.Logline.{LogLine}
use logtailr.Filter.{Regexp, RegexFilter, match, by_level}
use logtailr.Aggregator.{Aggregator, AggregatedLine, process, collect_expired, flush}

-- What the pipeline runs with: the parser of the line's source for the format of the command line,
-- the minimum level, and the pattern.
pub record Settings : Type 1 where
  pub regexp : Regexp
  pub ParseError : Type 0
  pub parse : String → String → Result ParseError LogLine
  pub level : String
  pub regex_filter : RegexFilter regexp

-- `alerted` are the lines handed to the alert engine, `written` those handed to the writer and the
-- hub, `agg_chan` the batches that wait for the pipeline
pub record Pipeline : Type 0 where
  pub log_chan : List LogLine
  pub agg : Option Aggregator
  pub agg_chan : List (List AggregatedLine)
  pub alerted : List LogLine
  pub written : List LogLine
  pub draining : Bool
  pub stopped : Bool
  pub finished : Bool

abbrev pub start : Option Aggregator → Pipeline
start agg = record {
  log_chan = [];
  agg = agg;
  agg_chan = [];
  alerted = [];
  written = [];
  draining = false;
  stopped = false;
  finished = false;
}

-- what happens: a tailer emits a line, the aggregator's ticker fires, the context ends, the tailers
-- are all stopped; and what the loop does: it receives a line or a batch, or does its final sweep
pub data Event : Type 0 where
  emit : LogLine → Event
  tick : ℕ → Event
  cancel : Event
  stop_tailers : Event
  receive : ℕ → Event
  receive_batch : Event
  sweep : ℕ → Event

abbrev lines : List AggregatedLine → List LogLine
lines out = map (λ r. r.line) out

-- a batch is sent if it holds a line
send_batch : List AggregatedLine → List (List AggregatedLine) → List (List AggregatedLine)
send_batch [] chan = chan
send_batch (l ∷ ls) chan = chan ++ (l ∷ ls) ∷ []

module _ (settings : Settings) where
  open settings use {parse, level, regex_filter}

  with_source : LogLine → Result settings.ParseError LogLine → LogLine
  with_source raw (ok l) = record l { source = raw.source }
  with_source raw (err e) = raw

  unfoldable pub parsed : LogLine → LogLine
  unfolding with_source
  parsed raw = with_source raw (parse raw.source raw.message)

  unfoldable pub passes : LogLine → Bool
  passes l = by_level l level && match settings.regexp regex_filter l.message

  deliver : ℕ → LogLine → Option Aggregator → Pipeline → Pipeline
  deliver now l none p = record p { written = p.written ++ l ∷ [] }
  deliver now l (some a) p =
      let (out, a') = process now l a in
      record p { agg = some a'; written = p.written ++ lines out }

  -- the function `process` of runPipeline
  unfoldable pub process_raw : ℕ → LogLine → Pipeline → Pipeline
  unfolding deliver parsed passes
  process_raw now raw p =
      let l = parsed raw in
      let p' = record p { alerted = p.alerted ++ l ∷ [] } in
      if passes l then deliver now l p.agg p' else p'

  unfoldable pub process_all : ℕ → List LogLine → Pipeline → Pipeline
  unfolding process_raw
  process_all now [] p = p
  process_all now (raw ∷ raws) p = process_all now raws (process_raw now raw p)

  unfoldable pub flush_agg : Option Aggregator → Pipeline → Pipeline
  flush_agg none p = p
  flush_agg (some a) p =
      let (out, a') = flush a in record p { agg = some a'; written = p.written ++ lines out }

  -- the ticker, until `flush_agg` has stopped the aggregator
  on_tick : ℕ → Option Aggregator → Pipeline → Pipeline
  unfolding send_batch
  on_tick now none p = p
  on_tick now (some a) p =
      let (out, a') = collect_expired now a in
      if p.draining then p else record p { agg = some a'; agg_chan = send_batch out p.agg_chan }

  on_receive_line : ℕ → Bool → List LogLine → Pipeline → Pipeline
  unfolding process_raw
  on_receive_line now false (raw ∷ rest) p = process_raw now raw (record p { log_chan = rest })
  on_receive_line now _ _ p = p

  -- a batch is received only before the draining
  on_receive_batch : Bool → List (List AggregatedLine) → Pipeline → Pipeline
  on_receive_batch false (batch ∷ rest) p = record p {
    agg_chan = rest;
    written = p.written ++ lines batch;
  }
  on_receive_batch _ _ p = p

  unfoldable pub step : Event → Pipeline → Pipeline
  unfolding process_all flush_agg on_tick on_receive_line on_receive_batch
  step (emit raw) p = if p.stopped then p else record p { log_chan = p.log_chan ++ raw ∷ [] }
  step (tick now) p = on_tick now p.agg p
  step cancel p = if p.draining then p else flush_agg p.agg (record p { draining = true })
  step stop_tailers p = record p { stopped = true }
  step (receive now) p = on_receive_line now p.finished p.log_chan p
  step receive_batch p = on_receive_batch p.draining p.agg_chan p
  step (sweep now) p =
      if p.draining && p.stopped && not p.finished
      then record (process_all now p.log_chan (record p { log_chan = [] })) { finished = true }
      else p

  unfoldable pub run : List Event → Pipeline → Pipeline
  unfolding step
  run [] p = p
  run (e ∷ es) p = run es (step e p)
