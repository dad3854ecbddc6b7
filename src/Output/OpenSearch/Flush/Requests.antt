-- ===== src/Output/OpenSearch/Flush/Requests.antt =====
-- internal/output/opensearch_writer.go: what a bulk request delivers, and what it returns.
use logtailr.Base.{
  ℕ, zero, suc, ◌+◌, ◌≤◌, ◌≡◌, refl, true, Option, none, some, List, [], ◌∷◌, ◌++◌, leb,
  if◌then◌else◌, length, length-append, Bool-cases, inl, inr, arith,
}
use logtailr.Base.Int.{ℤ}
use logtailr.Base.Result.{Result, ok, err}
use logtailr.Output.OpenSearch.{
  Cluster, OpenSearchWriter, Response, failure, accepted, items, AttemptError, failed_docs,
  failed_of, do_request, max_pending_docs,
}
use logtailr.Output.OpenSearch.Flush.{
  pause, is_done, next_docs, error_of, send_from, send_bulk, drop_oldest, enqueue_pending,
}

-- how many documents an answer says are stored: those whose item has no error status
abbrev pub stored_items : List ℕ → ℕ
stored_items [] = 0
stored_items (status ∷ rest) = let n = stored_items rest in if leb 300 status then n else n + 1

abbrev pub stored_by : {E A : Type 0} → Response E → List A → ℕ
stored_by (failure e) docs = 0
stored_by accepted docs = length docs
stored_by (items statuses) docs = stored_items statuses

-- the bulk protocol answers with one item for each document
abbrev pub OneItemEach : {E A : Type 0} → Response E → List A → Type 0
OneItemEach (failure e) docs = Unit
OneItemEach accepted docs = Unit
OneItemEach (items statuses) docs = length statuses ≡ length docs

module _ (cluster : Cluster) where
  open cluster use {Doc, Error, State, marshal, post, wait}

  pub drop_oldest_lem :
      (docs : List Doc)
      → (length (drop_oldest cluster docs).0 + (drop_oldest cluster docs).1 ≡ length docs)
        × (length (drop_oldest cluster docs).0 ≤ max_pending_docs)
  unfolding drop_oldest
  drop_oldest_lem [] = (refl, omega arith)
  drop_oldest_lem (d ∷ ds) = ground (arith, drop_oldest_lem ds)

  pub length_pending-enqueue_pending :
      (docs : List Doc) (w : OpenSearchWriter cluster)
      → length (enqueue_pending cluster docs w).pending
          + (enqueue_pending cluster docs w).pending_dropped
        ≡ length w.pending + w.pending_dropped + length docs
  unfolding enqueue_pending
  length_pending-enqueue_pending [] w = omega arith
  length_pending-enqueue_pending (d ∷ docs) w =
      omega (arith, drop_oldest_lem (w.pending ++ d ∷ docs), length-append w.pending (d ∷ docs))

  pub buffer-enqueue_pending :
      (docs : List Doc) (w : OpenSearchWriter cluster)
      → (enqueue_pending cluster docs w).buffer ≡ w.buffer
  unfolding enqueue_pending
  buffer-enqueue_pending [] w = refl
  buffer-enqueue_pending (d ∷ docs) w = refl

  length-failed_docs :
      (statuses : List ℕ) (docs : List Doc)
      → length statuses ≡ length docs
      → stored_items statuses + length (failed_docs cluster statuses docs) ≡ length docs
  unfolding failed_docs
  length-failed_docs [] [] h = refl
  length-failed_docs [] (d ∷ docs) h = ground arith
  length-failed_docs (s ∷ statuses) [] h = ground arith
  length-failed_docs (s ∷ statuses) (d ∷ docs) h =
      ground (arith, length-failed_docs statuses docs (omega arith))

  length-next_docs :
      (r : Response Error) (docs : List Doc)
      → OneItemEach r docs
      → stored_by r docs + length (next_docs cluster (failed_of cluster r docs) docs) ≡ length docs
  unfolding next_docs failed_of
  length-next_docs (failure e) docs h = omega arith
  length-next_docs accepted docs h = omega arith
  length-next_docs (items statuses) docs h = length-failed_docs statuses docs h

  length-is_done :
      (answer : Result Error (List Doc)) (docs : List Doc)
      → is_done cluster answer ≡ true
      → length (next_docs cluster answer docs) ≡ 0
  unfolding is_done next_docs
  length-is_done (ok []) docs h = refl
  length-is_done (ok (d ∷ ds)) docs h = ground arith
  length-is_done (err e) docs h = ground arith

  -- `stored` is how many documents the cluster holds. A request stores what its answer says, and one
  -- that fails stores nothing; an answer has an item for each document.
  module _ (stored : State → ℕ)
      (stored-post : (docs : List Doc) (s : State)
        → stored (post docs s).1 ≡ stored s + stored_by (post docs s).0 docs)
      (post-OneItemEach : (docs : List Doc) (s : State) → OneItemEach (post docs s).0 docs)
      (stored-wait : (d : ℤ) (s : State) → stored (wait d s).1 ≡ stored s) where
    stored-do_request :
        (docs : List Doc) (s : State)
        → (let r = do_request cluster docs s in
            stored r.1 + length (next_docs cluster r.0 docs) ≡ stored s + length docs)
    unfolding do_request
    stored-do_request docs s =
        omega (
          arith,
          stored-post docs s,
          length-next_docs (post docs s).0 docs (post-OneItemEach docs s),
        )

    stored-pause : (k : ℕ) (s : State) → stored (pause cluster k s).1 ≡ stored s
    unfolding pause
    stored-pause zero s = refl
    stored-pause (suc k) s = stored-wait _ s

    stored-send_from :
        (n k : ℕ) (docs : List Doc) (last : Option (AttemptError cluster)) (s : State)
        → (let r = send_from cluster n k docs last s in
            stored r.1 + length r.0.0 ≡ stored s + length docs)
    unfolding send_from
    stored-send_from zero k docs last s = refl
    stored-send_from (suc n) k docs last s =
        let s' = (pause cluster k s).1 in
        let answer = do_request cluster docs s' in
        let left = next_docs cluster answer.0 docs in
        let rest = stored-send_from n (suc k) left (some (error_of cluster answer.0)) answer.1 in
        let waited = stored-pause k s in
        let requested = stored-do_request docs s' in
        elim (Bool-cases (pause cluster k s).0) [
          | inl c ↦ rw c (omega arith)
          | inr c ↦ elim (Bool-cases (is_done cluster answer.0)) [
            | inl d ↦ rw (c, d) (omega (arith, length-is_done answer.0 docs d))
            | inr d ↦ rw (c, d) (omega arith)
          ]
        ]

    pub stored-send_bulk :
        (n : ℕ) (docs : List Doc) (s : State)
        → (let r = send_bulk cluster n docs s in stored r.1 + length r.0.0 ≡ stored s + length docs)
    unfolding send_bulk
    stored-send_bulk n docs s = stored-send_from n 0 docs none s
