-- ===== src/Output/OpenSearch/Flush/Delivery.antt =====
-- internal/output/opensearch_writer.go: what becomes of the documents that are written.
use logtailr.Base.{ℕ, ◌+◌, ◌≡◌, refl, ap, Option, List, [], ◌∷◌, ◌++◌, length, length-append, arith}
use logtailr.Base.Int.{ℤ}
use logtailr.Base.Result.{Result, ok, err}
use logtailr.Logline.{LogLine}
use logtailr.Output.OpenSearch.{Cluster, OpenSearchWriter, BulkError}
use logtailr.Output.OpenSearch.Flush.Requests.{
  stored_by, OneItemEach, length_pending-enqueue_pending, buffer-enqueue_pending, stored-send_bulk,
}
use logtailr.Output.OpenSearch.Flush.{
  Link, send_bulk, enqueue_pending, count_failed_batch, after_batch, send_batch, after_pending,
  flush_queues, flush, buffer_doc, write_doc, final, final_docs, final_flush,
}

module _ (cluster : Cluster) where
  open cluster use {Doc, Error, State, marshal, post, wait}

  -- documents stored in the cluster, waiting in the writer, and dropped by it
  unfoldable pub total : (State → ℕ) → Link cluster → ℕ
  total stored l =
      stored l.state + length l.writer.pending + length l.writer.buffer + l.writer.pending_dropped

  -- what the parts of the program do to a writer
  pub data Op : Type 0 where
    write_line : LogLine → Op
    tick : Op

  unfoldable pub perform : Op → Link cluster → Link cluster
  unfolding write_doc flush
  perform (write_line line) l = (write_doc cluster line l).1
  perform tick l = (flush cluster l).1

  unfoldable pub run : List Op → Link cluster → Link cluster
  unfolding perform
  run [] l = l
  run (o ∷ os) l = run os (perform o l)

  count_doc : Result Error Doc → ℕ
  count_doc (ok d) = 1
  count_doc (err e) = 0

  -- how many of the lines have a document
  unfoldable pub count_docs : List Op → ℕ
  unfolding count_doc
  count_docs [] = 0
  count_docs (write_line line ∷ os) = count_docs os + count_doc (marshal line)
  count_docs (tick ∷ os) = count_docs os

  queues-final :
      (failed : List Doc) (e : Option (BulkError cluster)) (s : State)
      (w : OpenSearchWriter cluster)
      → (let w' = (final cluster ((failed, e), s) w).1.writer in
          (w'.pending ≡ w.pending) × (w'.buffer ≡ w.buffer))
  unfolding final
  queues-final [] e s w = (refl, refl)
  queues-final (d ∷ failed) e s w = (refl, refl)

  queues-final_docs :
      (docs : List Doc) (w : OpenSearchWriter cluster) (s : State)
      → (let w' = (final_docs cluster docs w s).1.writer in
          (w'.pending ≡ w.pending) × (w'.buffer ≡ w.buffer))
  unfolding final_docs
  queues-final_docs [] w s = (refl, refl)
  queues-final_docs (d ∷ docs) w s =
      let r = send_bulk cluster w.max_retries (d ∷ docs) s in queues-final r.0.0 r.0.1 r.1 w

  -- `stored` is how many documents the cluster holds. A request stores what its answer says, and one
  -- that fails stores nothing; an answer has an item for each document.
  module _ (stored : State → ℕ)
      (stored-post : (docs : List Doc) (s : State)
        → stored (post docs s).1 ≡ stored s + stored_by (post docs s).0 docs)
      (post-OneItemEach : (docs : List Doc) (s : State) → OneItemEach (post docs s).0 docs)
      (stored-wait : (d : ℤ) (s : State) → stored (wait d s).1 ≡ stored s) where
    stored-sent :
        (n : ℕ) (docs : List Doc) (s : State)
        → (let r = send_bulk cluster n docs s in stored r.1 + length r.0.0 ≡ stored s + length docs)
    stored-sent n docs s =
        stored-send_bulk cluster stored stored-post post-OneItemEach stored-wait n docs s

    -- what `total` counts, of the parts of a link
    abbrev sum : State → OpenSearchWriter cluster → ℕ
    sum s w = stored s + length w.pending + length w.buffer + w.pending_dropped

    sum-enqueue_pending :
        (docs : List Doc) (s : State) (w : OpenSearchWriter cluster)
        → sum s (enqueue_pending cluster docs w) ≡ sum s w + length docs
    sum-enqueue_pending docs s w =
        rw (buffer-enqueue_pending cluster docs w)
          (omega (arith, length_pending-enqueue_pending cluster docs w))

    total-after_batch :
        (failed : List Doc) (e : Option (BulkError cluster)) (s : State)
        (w : OpenSearchWriter cluster)
        → total stored (after_batch cluster ((failed, e), s) w).1 ≡ sum s w + length failed
    unfolding after_batch total count_failed_batch
    total-after_batch [] e s w = omega arith
    total-after_batch (d ∷ failed) e s w =
        sum-enqueue_pending (d ∷ failed) s (count_failed_batch cluster w)

    total-send_batch :
        (batch : List Doc) (w : OpenSearchWriter cluster) (s : State)
        → total stored (send_batch cluster batch w s).1 ≡ sum s w + length batch
    unfolding send_batch
    total-send_batch batch w s =
        let r = send_bulk cluster w.max_retries batch s in
        omega (arith, total-after_batch r.0.0 r.0.1 r.1 w, stored-sent w.max_retries batch s)

    total-after_pending :
        (failed : List Doc) (e : Option (BulkError cluster)) (s : State) (batch : List Doc)
        (w : OpenSearchWriter cluster)
        → total stored (after_pending cluster ((failed, e), s) batch w).1
          ≡ sum s w + length failed + length batch
    unfolding after_pending total count_failed_batch
    total-after_pending [] e s [] w = omega arith
    total-after_pending [] e s (d ∷ batch) w = omega (arith, total-send_batch (d ∷ batch) w s)
    total-after_pending (d ∷ failed) e s batch w =
        let w' = count_failed_batch cluster w in
        let w'' = enqueue_pending cluster (d ∷ failed) w' in
        omega (arith, sum-enqueue_pending batch s w'', sum-enqueue_pending (d ∷ failed) s w')

    total-flush_queues :
        (pending batch : List Doc) (w : OpenSearchWriter cluster) (s : State)
        → total stored (flush_queues cluster pending batch w s).1
          ≡ sum s w + length pending + length batch
    unfolding flush_queues
    total-flush_queues [] batch w s = omega (arith, total-send_batch batch w s)
    total-flush_queues (d ∷ pending) batch w s =
        let r = send_bulk cluster w.max_retries (d ∷ pending) s in
        omega (
          arith,
          total-after_pending r.0.0 r.0.1 r.1 batch w,
          stored-sent w.max_retries (d ∷ pending) s,
        )

    total-flush : (l : Link cluster) → total stored (flush cluster l).1 ≡ total stored l
    unfolding flush total
    total-flush l =
        let w = record l.writer { pending = []; buffer = [] } in
        omega (arith, total-flush_queues l.writer.pending l.writer.buffer w l.state)

    total-buffer_doc :
        (r : Result Error Doc) (l : Link cluster)
        → total stored (buffer_doc cluster r l).1 ≡ total stored l + count_doc r
    unfolding buffer_doc total count_doc
    total-buffer_doc (err e) l = omega arith
    total-buffer_doc (ok d) l =
        let w : OpenSearchWriter cluster = record l.writer { buffer = l.writer.buffer ++ d ∷ [] } in
        ground
          (arith, total-flush (record l { writer = w }), length-append l.writer.buffer (d ∷ []))

    -- No document is lost in silence: after any writes and ticks, the
    -- documents stored in the cluster, those that wait in the buffer and the retry queue and those
    -- counted as dropped are as many as before and those of the lines written. The cluster is
    -- taken to store what its answers say, with an item for each document, and nothing on failure.
    pub total-run :
        (os : List Op) (l : Link cluster) → total stored (run os l) ≡ total stored l + count_docs os
    unfolding run perform count_docs write_doc
    total-run [] l = omega arith
    total-run (write_line line ∷ os) l =
        omega (arith, total-run os (write_doc cluster line l).1, total-buffer_doc (marshal line) l)
    total-run (tick ∷ os) l = omega (arith, total-run os (flush cluster l).1, total-flush l)

    total-final :
        (failed : List Doc) (e : Option (BulkError cluster)) (s : State)
        (w : OpenSearchWriter cluster)
        → total stored (final cluster ((failed, e), s) w).1 ≡ sum s w + length failed
    unfolding final total
    total-final [] e s w = omega arith
    total-final (d ∷ failed) e s w = omega arith

    total-final_docs :
        (docs : List Doc) (w : OpenSearchWriter cluster) (s : State)
        → total stored (final_docs cluster docs w s).1 ≡ sum s w + length docs
    unfolding final_docs total
    total-final_docs [] w s = omega arith
    total-final_docs (d ∷ docs) w s =
        let r = send_bulk cluster w.max_retries (d ∷ docs) s in
        omega (arith, total-final r.0.0 r.0.1 r.1 w, stored-sent w.max_retries (d ∷ docs) s)

    -- At shutdown every document is delivered or counted: nothing is left in the buffer or the retry
    -- queue, and what the cluster stores and the count of dropped documents grow together by what
    -- was left. The cluster is taken to store what its answers say.
    pub final_flush_lem :
        (l : Link cluster)
        → (let l' = (final_flush cluster l).1 in
            (l'.writer.pending ≡ [])
            × (l'.writer.buffer ≡ [])
            × (stored l'.state + l'.writer.pending_dropped ≡ total stored l))
    unfolding final_flush total
    final_flush_lem l =
        let w = record l.writer { pending = []; buffer = [] } in
        let docs = l.writer.pending ++ l.writer.buffer in
        let (p, b) = queues-final_docs docs w l.state in
        let t : stored (final_docs cluster docs w l.state).1.state
              + (final_docs cluster docs w l.state).1.writer.pending_dropped
            ≡ stored l.state
              + length l.writer.pending
              + length l.writer.buffer
              + l.writer.pending_dropped =
          omega (
            arith,
            total-final_docs docs w l.state,
            length-append l.writer.pending l.writer.buffer,
            ap length p,
            ap length b,
          ) in
        (p, b, t)
