-- ===== src/Output/OpenSearch.antt =====
-- internal/output/opensearch_writer.go: documents are buffered, sent in bulk, and queued again where
-- the cluster does not take them.
pub mod Flush
mod Tests
use logtailr.Base.{
  ℕ, ◌+◌, ◌-◌, String, Bool, true, false, Option, none, some, List, [], ◌∷◌, ◌++◌, ltb, leb,
  if◌then◌else◌, length, str_eq,
}
use logtailr.Base.Int.{ℤ, pos, ltb_ℤ, leb_ℤ, pos_part}
use logtailr.Base.Result.{Result, ok, err, ◌>>=◌}
use logtailr.Logline.{LogLine}

abbrev pub max_pending_docs : ℕ
max_pending_docs = 10000

abbrev pub max_bulk_size : ℕ
max_bulk_size = 10000

abbrev pub default_bulk_size : ℕ
default_bulk_size = 500

abbrev pub default_max_retries : ℕ
default_max_retries = 3

abbrev pub max_flush_interval : ℕ
max_flush_interval = 60000000000

abbrev pub default_flush_interval : ℕ
default_flush_interval = 5000000000

-- what a bulk request comes back with: no answer, an error status or an answer that does not decode;
-- an answer without errors; an answer with the status of each item
pub data Response (E : Type 0) : Type 0 where
  failure : E → Response E
  accepted : Response E
  items : List ℕ → Response E

-- The cluster, the clock and the encoder, which the source only calls. `wait` is the pause before a
-- new attempt; its test is whether the context was cancelled meanwhile.
pub record Cluster : Type 1 where
  pub Doc : Type 0
  pub Error : Type 0
  pub State : Type 0
  pub marshal : LogLine → Result Error Doc
  pub post : List Doc → State → Response Error × State
  pub wait : ℤ → State → Bool × State
  pub parse_duration : String → Result Error ℤ

pub record OpenSearchConfig : Type 0 where
  pub hosts : List String
  pub index : String
  pub bulk_size : ℤ
  pub flush_interval : String
  pub max_retries : ℤ
  pub template_name : String

pub data CreateError (E : Type 0) : Type 0 where
  no_hosts : CreateError E
  no_index : CreateError E
  bulk_size_too_large : CreateError E
  invalid_flush_interval : E → CreateError E
  flush_interval_too_large : CreateError E

module _ (cluster : Cluster) where
  open cluster use {Doc, Error, State, marshal, post, wait, parse_duration}

  -- `failed_batches`, `pending_dropped`: the counters that the sink for statistics is told
  pub record OpenSearchWriter : Type 0 where
    pub hosts : List String
    pub index : String
    pub template_name : String
    pub bulk_size : ℕ
    pub flush_interval : ℕ
    pub max_retries : ℕ
    pub buffer : List Doc
    pub pending : List Doc
    pub failed_batches : ℕ
    pub pending_dropped : ℕ

  -- why documents were not delivered; why an attempt failed
  pub data AttemptError : Type 0 where
    request_failed : Error → AttemptError
    docs_failed : ℕ → AttemptError

  pub data BulkError : Type 0 where
    not_marshalled : Error → BulkError
    bulk_cancelled : BulkError
    bulk_exhausted : Option AttemptError → BulkError

  pub data FinalError : Type 0 where
    bulk_failed : BulkError → FinalError
    final_flush_failed : ℕ → Option BulkError → FinalError

  checked_interval : ℤ → Result (CreateError Error) ℕ
  checked_interval d =
      if ltb_ℤ (pos max_flush_interval) d
      then err flush_interval_too_large
      else ok (if ltb_ℤ (pos 0) d then pos_part d else default_flush_interval)

  with_interval : Result Error ℤ → Result (CreateError Error) ℕ
  unfolding checked_interval
  with_interval (ok d) = checked_interval d
  with_interval (err e) = err (invalid_flush_interval e)

  interval_of : String → Result (CreateError Error) ℕ
  unfolding with_interval
  interval_of text =
      if str_eq text "" then ok default_flush_interval else with_interval (parse_duration text)

  abbrev bulk_size_of : ℤ → ℕ
  bulk_size_of n = if leb_ℤ n (pos 0) then default_bulk_size else pos_part n

  writer_of : OpenSearchConfig → ℕ → OpenSearchWriter
  writer_of cfg interval = record {
    hosts = cfg.hosts;
    index = cfg.index;
    template_name = if str_eq cfg.template_name "" then "logtailr" else cfg.template_name;
    bulk_size = bulk_size_of cfg.bulk_size;
    flush_interval = interval;
    max_retries =
        if leb_ℤ cfg.max_retries (pos 0) then default_max_retries else pos_part cfg.max_retries;
    buffer = [];
    pending = [];
    failed_batches = 0;
    pending_dropped = 0;
  }

  with_writer :
      OpenSearchConfig → Result (CreateError Error) ℕ → Result (CreateError Error) OpenSearchWriter
  unfolding writer_of
  with_writer cfg (ok interval) = ok (writer_of cfg interval)
  with_writer cfg (err e) = err e

  -- NewOpenSearchWriter, without the client and the goroutines that it starts
  unfoldable pub new_open_search_writer :
      OpenSearchConfig → Result (CreateError Error) OpenSearchWriter
  unfolding with_writer interval_of
  new_open_search_writer cfg =
      if leb (length cfg.hosts) 0
      then err no_hosts
      else if str_eq cfg.index ""
      then err no_index
      else if ltb max_bulk_size (bulk_size_of cfg.bulk_size)
      then err bulk_size_too_large
      else with_writer cfg (interval_of cfg.flush_interval)

  -- the documents whose items have an error status
  unfoldable pub failed_docs : List ℕ → List Doc → List Doc
  failed_docs [] docs = []
  failed_docs (status ∷ rest) [] = []
  failed_docs (status ∷ rest) (d ∷ docs) =
      let failed = failed_docs rest docs in if leb 300 status then d ∷ failed else failed

  failed_of : Response Error → List Doc → Result Error (List Doc)
  unfolding failed_docs
  failed_of (failure e) docs = err e
  failed_of accepted docs = ok []
  failed_of (items statuses) docs = ok (failed_docs statuses docs)

  unfoldable pub do_request : List Doc → State → Result Error (List Doc) × State
  unfolding failed_of
  do_request docs s = let (response, s') = post docs s in (failed_of response docs, s')
