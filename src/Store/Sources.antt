-- ===== src/Store/Sources.antt =====
-- internal/store/sources.go.
use logtailr.Base.{ℕ, ◌+◌, String, Bool, ◌&&◌, Option, none, some, List, [], ◌∷◌}
use logtailr.Base.Result.{ok, err}
use logtailr.Config.{one_of}
use logtailr.Store.{Store, Outcome, not_found, sent, written}
use logtailr.Store.Rows.{SourceRow}
use logtailr.Store.Table.{Columns, find_named, find_id, insert, update, delete, order_by_name}

abbrev source_kinds : List String
source_kinds = "file" ∷ "docker" ∷ "journalctl" ∷ "stdin" ∷ "kubernetes" ∷ []

abbrev source_parsers : List String
source_parsers = "" ∷ "json" ∷ "logfmt" ∷ "text" ∷ []

abbrev pub source_columns : Columns SourceRow
source_columns = record {
  id_of = λ row. row.id;
  name_of = λ row. row.name;
  with_id = λ i row. record row { id = i };
  is_allowed = λ row. one_of source_kinds row.kind && one_of source_parsers row.parser;
}

-- a query of one row; to find none is no failure of the statement
abbrev pub one_row : {A : Type 0} → Option A → Store → Outcome A
one_row none st = (err not_found, st)
one_row (some row) st = (ok row, st)

-- ListSources
unfoldable pub list_sources : (String → String → Bool) → Store → Outcome (List SourceRow)
unfolding sent
list_sources before st = sent st (ok (order_by_name source_columns before st.sources), st)

-- GetSourceByID
unfoldable pub get_source_by_id : ℕ → Store → Outcome SourceRow
unfolding sent
get_source_by_id i st = sent st (one_row (find_id source_columns i st.sources) st)

-- GetSourceByName
unfoldable pub get_source_by_name : String → Store → Outcome SourceRow
unfolding sent
get_source_by_name name st = sent st (one_row (find_named source_columns name st.sources) st)

-- CreateSource; it gives the new row's id
unfoldable pub create_source : SourceRow → Store → Outcome ℕ
unfolding sent written
create_source row st = sent st (
    written st.next_id (insert source_columns st.next_id row st.sources)
      (λ rows. record st { sources = rows; next_id = st.next_id + 1 }) st)

-- the check of RowsAffected after a statement that was sent
abbrev pub affected : {A : Type 0} → Option A → Outcome Unit → Store → Outcome Unit
affected none o st = (err not_found, st)
affected (some row) o st = o

-- UpdateSource
unfoldable pub update_source : SourceRow → Store → Outcome Unit
unfolding sent written
update_source row st = sent st (
    affected (find_id source_columns row.id st.sources)
      (written tt (update source_columns row st.sources) (λ rows. record st { sources = rows }) st)
      st)

-- DeleteSource
unfoldable pub delete_source : ℕ → Store → Outcome Unit
unfolding sent
delete_source i st = sent st (
    affected (find_id source_columns i st.sources)
      (ok tt, record st { sources = delete source_columns i st.sources }) st)
