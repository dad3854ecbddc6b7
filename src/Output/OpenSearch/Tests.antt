-- ===== src/Output/OpenSearch/Tests.antt =====
-- A cluster on which the theorems about internal/output/opensearch_writer.go are tried.
use logtailr.Base.{ℕ, ◌+◌, ◌≤◌, ◌≡◌, refl, false, List, [], ◌∷◌, String, length, arith}
use logtailr.Base.Int.{pos}
use logtailr.Base.Result.{ok}
use logtailr.Output.Tests.{message_line}
use logtailr.Output.OpenSearch.{
  Cluster, Response, failure, items, OpenSearchConfig, OpenSearchWriter, new_open_search_writer,
  with_writer, interval_of, writer_of, with_interval, checked_interval, max_pending_docs,
}
use logtailr.Output.OpenSearch.Flush.{Link, final_flush}
use logtailr.Output.OpenSearch.Flush.Requests.{stored_by, OneItemEach}
use logtailr.Output.OpenSearch.Flush.Delivery.{
  Op, write_line, tick, total, run, count_docs, total-run, final_flush_lem,
}
use logtailr.Output.OpenSearch.Flush.Pending.{length_pending-run}

abbrev answer : List String → Response String
answer [] = failure "HTTP 400"
answer (d ∷ []) = items (201 ∷ [])
answer (d ∷ e ∷ []) = items (201 ∷ 429 ∷ [])
answer (d ∷ e ∷ f ∷ docs) = failure "HTTP 503"

abbrev taken : List String → ℕ
taken [] = 0
taken (d ∷ []) = 1
taken (d ∷ e ∷ []) = 1
taken (d ∷ e ∷ f ∷ docs) = 0

-- A cluster that counts its documents. It takes one document at a time, of two the first, and is
-- overloaded by more.
abbrev sample_cluster : Cluster
sample_cluster = record {
  Doc = String;
  Error = String;
  State = ℕ;
  marshal = λ l. ok l.message;
  post = λ docs s. (answer docs, s + taken docs);
  wait = λ d s. (false, s);
  parse_duration = λ t. ok (pos 2000000000);
}

abbrev config : OpenSearchConfig
config = record {
  hosts = "https://search.example:9200" ∷ [];
  index = "logs";
  bulk_size = pos 2;
  flush_interval = "2s";
  max_retries = pos 0;
  template_name = "";
}

abbrev writer : OpenSearchWriter sample_cluster
writer = record {
  hosts = "https://search.example:9200" ∷ [];
  index = "logs";
  template_name = "logtailr";
  bulk_size = 2;
  flush_interval = 2000000000;
  max_retries = 3;
  buffer = [];
  pending = [];
  failed_batches = 0;
  pending_dropped = 0;
}

abbrev link : Link sample_cluster
link = record { writer = writer; state = 7 }

made : new_open_search_writer sample_cluster config ≡ ok writer
unfolding new_open_search_writer with_writer interval_of writer_of with_interval checked_interval
made = refl

stored-answer : (docs : List String) (s : ℕ) → s + taken docs ≡ s + stored_by (answer docs) docs
stored-answer [] s = refl
stored-answer (d ∷ []) s = refl
stored-answer (d ∷ e ∷ []) s = refl
stored-answer (d ∷ e ∷ f ∷ docs) s = refl

answer-OneItemEach : (docs : List String) (s : ℕ) → OneItemEach (answer docs) docs
answer-OneItemEach [] s = tt
answer-OneItemEach (d ∷ []) s = refl
answer-OneItemEach (d ∷ e ∷ []) s = refl
answer-OneItemEach (d ∷ e ∷ f ∷ docs) s = tt

abbrev ops : List (Op sample_cluster)
ops =
    write_line (message_line "a")
    ∷ write_line (message_line "b")
    ∷ tick
    ∷ write_line (message_line "c")
    ∷ []

total-run_example : total sample_cluster (λ s. s) (run sample_cluster ops link) ≡ 7 + 3
unfolding total count_docs
total-run_example =
    total-run sample_cluster (λ s. s) stored-answer answer-OneItemEach (λ d s. refl) ops link

length_pending-run_example : length (run sample_cluster ops link).writer.pending ≤ max_pending_docs
length_pending-run_example = length_pending-run sample_cluster ops link (omega arith)

abbrev waiting : Link sample_cluster
waiting = record {
  writer = record writer { pending = "a" ∷ []; buffer = "b" ∷ "c" ∷ [] };
  state = 7;
}

final_flush_lem_example :
    ((final_flush sample_cluster waiting).1.writer.pending ≡ [])
    × ((final_flush sample_cluster waiting).1.writer.buffer ≡ [])
    × ((final_flush sample_cluster waiting).1.state
          + (final_flush sample_cluster waiting).1.writer.pending_dropped
        ≡ 10)
unfolding total
final_flush_lem_example =
    final_flush_lem sample_cluster (λ s. s) stored-answer answer-OneItemEach (λ d s. refl) waiting
