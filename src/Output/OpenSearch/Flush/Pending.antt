-- ===== src/Output/OpenSearch/Flush/Pending.antt =====
-- internal/output/opensearch_writer.go: the bound of the retry queue, and a flush with nothing to send.
use logtailr.Base.{
  ℕ, zero, suc, ◌≤◌, ◌≡◌, refl, true, Option, none, some, is_some, List, [], ◌∷◌, ◌++◌, leb, length,
  Bool-cases, inl, inr, arith,
}
use logtailr.Base.Result.{Result, ok, err}
use logtailr.Output.OpenSearch.{
  Cluster, OpenSearchWriter, failure, AttemptError, BulkError, request_failed, failed_of,
  do_request, max_pending_docs,
}
use logtailr.Output.OpenSearch.Flush.{
  Link, pause, is_done, next_docs, error_of, send_from, send_bulk, enqueue_pending,
  count_failed_batch, after_batch, send_batch, after_pending, flush_queues, flush, buffer_doc,
  write_doc,
}
use logtailr.Output.OpenSearch.Flush.Requests.{drop_oldest_lem}
use logtailr.Output.OpenSearch.Flush.Delivery.{Op, write_line, tick, perform, run}

module _ (cluster : Cluster) where
  open cluster use {Doc, Error, State, marshal, post}

  abbrev Fits : OpenSearchWriter cluster → Type 0
  Fits w = length w.pending ≤ max_pending_docs

  enqueue_pending-Fits :
      (docs : List Doc) (w : OpenSearchWriter cluster)
      → Fits w
      → Fits (enqueue_pending cluster docs w)
  unfolding enqueue_pending
  enqueue_pending-Fits [] w h = h
  enqueue_pending-Fits (d ∷ docs) w h = (drop_oldest_lem cluster (w.pending ++ d ∷ docs)).1

  after_batch-Fits :
      (failed : List Doc) (e : Option (BulkError cluster)) (s : State)
      (w : OpenSearchWriter cluster)
      → Fits w
      → Fits (after_batch cluster ((failed, e), s) w).1.writer
  unfolding after_batch count_failed_batch
  after_batch-Fits [] e s w h = h
  after_batch-Fits (d ∷ failed) e s w h =
      enqueue_pending-Fits (d ∷ failed) (count_failed_batch cluster w) h

  send_batch-Fits :
      (batch : List Doc) (w : OpenSearchWriter cluster) (s : State)
      → Fits w
      → Fits (send_batch cluster batch w s).1.writer
  unfolding send_batch
  send_batch-Fits batch w s h =
      let r = send_bulk cluster w.max_retries batch s in after_batch-Fits r.0.0 r.0.1 r.1 w h

  after_pending-Fits :
      (failed : List Doc) (e : Option (BulkError cluster)) (s : State) (batch : List Doc)
      (w : OpenSearchWriter cluster)
      → Fits w
      → Fits (after_pending cluster ((failed, e), s) batch w).1.writer
  unfolding after_pending count_failed_batch
  after_pending-Fits [] e s [] w h = h
  after_pending-Fits [] e s (d ∷ batch) w h = send_batch-Fits (d ∷ batch) w s h
  after_pending-Fits (d ∷ failed) e s batch w h =
      let w' = count_failed_batch cluster w in
      enqueue_pending-Fits batch (enqueue_pending cluster (d ∷ failed) w')
        (enqueue_pending-Fits (d ∷ failed) w' h)

  flush_queues-Fits :
      (pending batch : List Doc) (w : OpenSearchWriter cluster) (s : State)
      → Fits w
      → Fits (flush_queues cluster pending batch w s).1.writer
  unfolding flush_queues
  flush_queues-Fits [] batch w s h = send_batch-Fits batch w s h
  flush_queues-Fits (d ∷ pending) batch w s h =
      let r = send_bulk cluster w.max_retries (d ∷ pending) s in
      after_pending-Fits r.0.0 r.0.1 r.1 batch w h

  flush-Fits : (l : Link cluster) → Fits (flush cluster l).1.writer
  unfolding flush
  flush-Fits l =
      flush_queues-Fits l.writer.pending l.writer.buffer
        (record l.writer { pending = []; buffer = [] }) l.state (omega arith)

  buffer_doc-Fits :
      (r : Result Error Doc) (l : Link cluster)
      → Fits l.writer
      → Fits (buffer_doc cluster r l).1.writer
  unfolding buffer_doc
  buffer_doc-Fits (err e) l h = h
  buffer_doc-Fits (ok d) l h =
      let w : OpenSearchWriter cluster = record l.writer { buffer = l.writer.buffer ++ d ∷ [] } in
      elim (Bool-cases (leb w.bulk_size (length w.buffer))) [
        | inl full ↦ rw full (flush-Fits (record l { writer = w }))
        | inr room ↦ rw room h
      ]

  -- From an empty retry queue on, the retry queue never holds more than 10000 documents, whatever
  -- the cluster answers.
  pub length_pending-run :
      (os : List (Op cluster)) (l : Link cluster)
      → length l.writer.pending ≤ max_pending_docs
      → length (run cluster os l).writer.pending ≤ max_pending_docs
  unfolding run perform write_doc
  length_pending-run [] l h = h
  length_pending-run (write_line line ∷ os) l h =
      length_pending-run os (write_doc cluster line l).1 (buffer_doc-Fits (marshal line) l h)
  length_pending-run (tick ∷ os) l h = length_pending-run os (flush cluster l).1 (flush-Fits l)

  error-after_batch :
      (failed : List Doc) (e : Option (BulkError cluster)) (s : State)
      (w : OpenSearchWriter cluster)
      → (after_batch cluster ((failed, e), s) w).0 ≡ e
  unfolding after_batch
  error-after_batch [] e s w = refl
  error-after_batch (d ∷ failed) e s w = refl

  -- `rejects_empty`: a bulk request without documents is an error of its own, as it is for OpenSearch
  module _ (empty_error : Error)
      (rejects_empty : (s : State) → (post [] s).0 ≡ failure empty_error) where
    send_from-empty :
        (n k : ℕ) (last : Option (AttemptError cluster)) (s : State)
        → (let r = send_from cluster n k [] last s in (r.0.0 ≡ []) × (is_some r.0.1 ≡ true))
    unfolding send_from do_request failed_of next_docs is_done error_of
    send_from-empty zero k last s = (refl, refl)
    send_from-empty (suc n) k last s =
        let s' = (pause cluster k s).1 in
        let e = request_failed empty_error in
        elim (Bool-cases (pause cluster k s).0) [
          | inl c ↦ rw c (refl, refl)
          | inr c ↦ rw (c, rejects_empty s') (send_from-empty n (suc k) (some e) (post [] s').1)
        ]

    -- A flush with nothing to send still sends a bulk request. Where the cluster rejects a request
    -- without documents, it uses all its attempts and reports an error, at every tick.
    pub flush_idle :
        (l : Link cluster)
        → l.writer.pending ≡ []
        → l.writer.buffer ≡ []
        → is_some (flush cluster l).0 ≡ true
    unfolding flush flush_queues send_batch send_bulk
    flush_idle l p b =
        let w = record l.writer { pending = []; buffer = [] } in
        let r = send_from cluster w.max_retries 0 [] none l.state in
        let (nothing, reported) = send_from-empty w.max_retries 0 none l.state in
        rw (p, b, error-after_batch r.0.0 r.0.1 r.1 w) reported
