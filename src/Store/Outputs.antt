-- ===== src/Store/Outputs.antt =====
-- internal/store/outputs.go.
use logtailr.Base.{ℕ, ◌+◌, String, Bool, List, [], ◌∷◌}
use logtailr.Base.Result.{ok}
use logtailr.Config.{one_of}
use logtailr.Store.{Store, Outcome, sent, written}
use logtailr.Store.Rows.{OutputRow}
use logtailr.Store.Table.{Columns, find_id, insert, update, delete, order_by_name}
use logtailr.Store.Sources.{one_row, affected}

abbrev output_kinds : List String
output_kinds = "opensearch" ∷ "webhook" ∷ "file" ∷ []

abbrev pub output_columns : Columns OutputRow
output_columns = record {
  id_of = λ row. row.id;
  name_of = λ row. row.name;
  with_id = λ i row. record row { id = i };
  is_allowed = λ row. one_of output_kinds row.kind;
}

-- ListOutputs
unfoldable pub list_outputs : (String → String → Bool) → Store → Outcome (List OutputRow)
unfolding sent
list_outputs before st = sent st (ok (order_by_name output_columns before st.outputs), st)

-- GetOutputByID
unfoldable pub get_output_by_id : ℕ → Store → Outcome OutputRow
unfolding sent
get_output_by_id i st = sent st (one_row (find_id output_columns i st.outputs) st)

-- CreateOutput; it gives the new row's id
unfoldable pub create_output : OutputRow → Store → Outcome ℕ
unfolding sent written
create_output row st = sent st (
    written st.next_id (insert output_columns st.next_id row st.outputs)
      (λ rows. record st { outputs = rows; next_id = st.next_id + 1 }) st)

-- UpdateOutput
unfoldable pub update_output : OutputRow → Store → Outcome Unit
unfolding sent written
update_output row st = sent st (
    affected (find_id output_columns row.id st.outputs)
      (written tt (update output_columns row st.outputs) (λ rows. record st { outputs = rows }) st)
      st)

-- DeleteOutput
unfoldable pub delete_output : ℕ → Store → Outcome Unit
unfolding sent
delete_output i st = sent st (
    affected (find_id output_columns i st.outputs)
      (ok tt, record st { outputs = delete output_columns i st.outputs }) st)
