-- ===== src/Output/OpenSearch/Flush/Bounds.antt =====
-- internal/output/opensearch_writer.go: the bounds of a new writer and of its waits.
use logtailr.Base.{ℕ, ◌≤◌, ◌≡◌, refl, false, String, ltb, arith}
use logtailr.Base.Int.{ℤ, ◌≤ℤ◌}
use logtailr.Base.Result.{Result, ok, err}
use logtailr.Output.OpenSearch.{
  Cluster, OpenSearchConfig, OpenSearchWriter, CreateError, checked_interval, with_interval,
  interval_of, bulk_size_of, writer_of, with_writer, new_open_search_writer, max_bulk_size,
  max_flush_interval,
}
use logtailr.Output.OpenSearch.Flush.{backoff, max_backoff_wait}

-- No wait is longer than 30 seconds.
pub backoff_le : (k : ℕ) → backoff k ≤ℤ max_backoff_wait
unfolding backoff
backoff_le k = ground arith

module _ (cluster : Cluster) where
  open cluster use {Doc, Error, State, parse_duration}

  checked_interval_range :
      (d : ℤ) (i : ℕ) → checked_interval cluster d ≡ ok i → (1 ≤ i) × (i ≤ max_flush_interval)
  unfolding checked_interval
  checked_interval_range d i h = ground arith

  with_interval_range :
      (r : Result Error ℤ) (i : ℕ)
      → with_interval cluster r ≡ ok i
      → (1 ≤ i) × (i ≤ max_flush_interval)
  unfolding with_interval
  with_interval_range (ok d) i h = checked_interval_range d i h
  with_interval_range (err e) i h = ground arith

  interval_range :
      (text : String) (i : ℕ) → interval_of cluster text ≡ ok i → (1 ≤ i) × (i ≤ max_flush_interval)
  unfolding interval_of
  interval_range text i h = ground (arith, with_interval_range (parse_duration text) i)

  bulk_size_range :
      (n : ℤ)
      → ltb max_bulk_size (bulk_size_of cluster n) ≡ false
      → (1 ≤ bulk_size_of cluster n) × (bulk_size_of cluster n ≤ max_bulk_size)
  bulk_size_range n h = ground arith

  with_writer_range :
      (cfg : OpenSearchConfig) (r : Result (CreateError Error) ℕ) (w : OpenSearchWriter cluster)
      → ((i : ℕ) → r ≡ ok i → (1 ≤ i) × (i ≤ max_flush_interval))
      → with_writer cluster cfg r ≡ ok w
      → (w.bulk_size ≡ bulk_size_of cluster cfg.bulk_size)
        × (1 ≤ w.max_retries)
        × (1 ≤ w.flush_interval)
        × (w.flush_interval ≤ max_flush_interval)
  unfolding with_writer writer_of
  with_writer_range cfg (ok i) w range h = ground (arith, range i refl)
  with_writer_range cfg (err e) w range h = ground arith

  -- A writer that is made has a batch size from 1 to 10000, at least one attempt for each request
  -- and a flush interval of at most a minute, longer than none.
  pub new_open_search_writer-within :
      (cfg : OpenSearchConfig) (w : OpenSearchWriter cluster)
      → new_open_search_writer cluster cfg ≡ ok w
      → (1 ≤ w.bulk_size)
        × (w.bulk_size ≤ max_bulk_size)
        × (1 ≤ w.max_retries)
        × (1 ≤ w.flush_interval)
        × (w.flush_interval ≤ max_flush_interval)
  unfolding new_open_search_writer
  new_open_search_writer-within cfg w h = ground (
    arith,
    bulk_size_range cfg.bulk_size,
    with_writer_range cfg (interval_of cluster cfg.flush_interval) w
        (interval_range cfg.flush_interval),
  )
