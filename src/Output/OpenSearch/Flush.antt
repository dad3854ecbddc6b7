-- ===== src/Output/OpenSearch/Flush.antt =====
-- internal/output/opensearch_writer.go: the attempts of a bulk request, and the flushes.
pub mod Requests
pub mod Delivery
pub mod Pending
pub mod Bounds
use logtailr.Base.{
  ℕ, zero, suc, ◌+◌, ◌*◌, ◌^◌, Bool, true, false, Option, none, some, List, [], ◌∷◌, ◌++◌, ltb, leb,
  if◌then◌else◌, length,
}
use logtailr.Base.Int.{ℤ, pos, ltb_ℤ, to_int64}
use logtailr.Base.Result.{Result, ok, err}
use logtailr.Logline.{LogLine}
use logtailr.Output.OpenSearch.{
  Cluster, OpenSearchWriter, AttemptError, BulkError, request_failed, docs_failed, not_marshalled,
  bulk_cancelled, bulk_exhausted, FinalError, bulk_failed, final_flush_failed, do_request,
  max_pending_docs,
}

abbrev pub retry_base_wait : ℕ
retry_base_wait = 500000000

abbrev pub max_backoff_wait : ℤ
max_backoff_wait = pos 30000000000

-- the wait before attempt `k + 1`; the product is an int64
unfoldable pub backoff : ℕ → ℤ
unfolding to_int64
backoff k =
    let wait = to_int64 (2 ^ k * retry_base_wait) in
    if ltb_ℤ max_backoff_wait wait then max_backoff_wait else wait

module _ (cluster : Cluster) where
  open cluster use {Doc, Error, State, marshal, wait}

  unfoldable pub pause : ℕ → State → Bool × State
  unfolding backoff
  pause zero s = (false, s)
  pause (suc k) s = wait (backoff k) s

  is_done : Result Error (List Doc) → Bool
  is_done (ok []) = true
  is_done (ok (d ∷ ds)) = false
  is_done (err e) = false

  -- the documents of the next attempt, and the error of this one
  next_docs : Result Error (List Doc) → List Doc → List Doc
  next_docs (ok failed) current = failed
  next_docs (err e) current = current

  error_of : Result Error (List Doc) → AttemptError cluster
  error_of (ok failed) = docs_failed (length failed)
  error_of (err e) = request_failed e

  -- sendBulkWithContext from attempt `attempt` on, with `n` attempts left
  unfoldable pub send_from :
      (n attempt : ℕ)
      → List Doc
      → Option (AttemptError cluster)
      → State
      → (List Doc × Option (BulkError cluster)) × State
  unfolding pause is_done next_docs error_of
  send_from zero attempt current last s = ((current, some (bulk_exhausted last)), s)
  send_from (suc n) attempt current last s =
      let (cancelled, s') = pause attempt s in
      let (answer, s'') = do_request cluster current s' in
      let rest =
        send_from n (suc attempt) (next_docs answer current) (some (error_of answer)) s'' in
      if cancelled
      then ((current, some bulk_cancelled), s')
      else if is_done answer
      then (([], none), s'')
      else rest

  unfoldable pub send_bulk : ℕ → List Doc → State → (List Doc × Option (BulkError cluster)) × State
  unfolding send_from
  send_bulk max_retries docs s = send_from max_retries 0 docs none s

  -- the loop of enqueuePending: the documents that are left, and the number that is dropped
  unfoldable pub drop_oldest : List Doc → List Doc × ℕ
  drop_oldest [] = ([], 0)
  drop_oldest (d ∷ ds) =
      let (left, dropped) = drop_oldest ds in
      if ltb max_pending_docs (length (d ∷ ds)) then (left, dropped + 1) else (d ∷ ds, 0)

  unfoldable pub enqueue_pending : List Doc → OpenSearchWriter cluster → OpenSearchWriter cluster
  unfolding drop_oldest
  enqueue_pending [] w = w
  enqueue_pending (d ∷ docs) w =
      let (left, dropped) = drop_oldest (w.pending ++ d ∷ docs) in
      record w { pending = left; pending_dropped = w.pending_dropped + dropped }

  count_failed_batch : OpenSearchWriter cluster → OpenSearchWriter cluster
  count_failed_batch w = record w { failed_batches = w.failed_batches + 1 }

  -- a writer and the cluster that it sends to
  pub record Link : Type 0 where
    pub writer : OpenSearchWriter cluster
    pub state : State

  -- the second half of `flush`: the batch, of which some documents may have failed
  after_batch :
      (List Doc × Option (BulkError cluster)) × State
      → OpenSearchWriter cluster
      → Option (BulkError cluster) × Link
  unfolding enqueue_pending count_failed_batch
  after_batch (([], e), s) w = (e, record { writer = w; state = s })
  after_batch ((d ∷ failed, e), s) w =
      (e, record { writer = enqueue_pending (d ∷ failed) (count_failed_batch w); state = s })

  send_batch : List Doc → OpenSearchWriter cluster → State → Option (BulkError cluster) × Link
  unfolding send_bulk after_batch
  send_batch batch w s = after_batch (send_bulk w.max_retries batch s) w

  -- the first half of `flush`, where there is a retry queue
  after_pending :
      (List Doc × Option (BulkError cluster)) × State
      → List Doc
      → OpenSearchWriter cluster
      → Option (BulkError cluster) × Link
  unfolding send_batch
  after_pending ((d ∷ failed, e), s) batch w =
      let w' = enqueue_pending batch (enqueue_pending (d ∷ failed) (count_failed_batch w)) in
      (e, record { writer = w'; state = s })
  after_pending (([], e), s) [] w = (none, record { writer = w; state = s })
  after_pending (([], e), s) (d ∷ batch) w = send_batch (d ∷ batch) w s

  flush_queues :
      (pending batch : List Doc)
      → OpenSearchWriter cluster
      → State
      → Option (BulkError cluster) × Link
  unfolding after_pending
  flush_queues [] batch w s = send_batch batch w s
  flush_queues (d ∷ pending) batch w s =
      after_pending (send_bulk w.max_retries (d ∷ pending) s) batch w

  unfoldable pub flush : Link → Option (BulkError cluster) × Link
  unfolding flush_queues
  flush l =
      flush_queues l.writer.pending l.writer.buffer (record l.writer { pending = []; buffer = [] })
        l.state

  buffer_doc : Result Error Doc → Link → Option (BulkError cluster) × Link
  unfolding flush
  buffer_doc (err e) l = (some (not_marshalled e), l)
  buffer_doc (ok doc) l =
      let w = record l.writer { buffer = l.writer.buffer ++ doc ∷ [] } in
      let l' = record l { writer = w } in
      if leb w.bulk_size (length w.buffer) then flush l' else (none, l')

  -- Write
  unfoldable pub write_doc : LogLine → Link → Option (BulkError cluster) × Link
  unfolding buffer_doc
  write_doc line l = buffer_doc (marshal line) l

  map_error : Option (BulkError cluster) → Option (FinalError cluster)
  map_error none = none
  map_error (some e) = some (bulk_failed e)

  final :
      (List Doc × Option (BulkError cluster)) × State
      → OpenSearchWriter cluster
      → Option (FinalError cluster) × Link
  unfolding map_error
  final (([], e), s) w = (map_error e, record { writer = w; state = s })
  final ((d ∷ failed, e), s) w =
      let n = length (d ∷ failed) in
      (
        some (final_flush_failed n e),
        record { writer = record w { pending_dropped = w.pending_dropped + n }; state = s },
      )

  final_docs : List Doc → OpenSearchWriter cluster → State → Option (FinalError cluster) × Link
  unfolding final
  final_docs [] w s = (none, record { writer = w; state = s })
  final_docs (d ∷ docs) w s = final (send_bulk w.max_retries (d ∷ docs) s) w

  -- finalFlush, with which Close ends
  unfoldable pub final_flush : Link → Option (FinalError cluster) × Link
  unfolding final_docs
  final_flush l =
      final_docs (l.writer.pending ++ l.writer.buffer)
        (record l.writer { pending = []; buffer = [] }) l.state
