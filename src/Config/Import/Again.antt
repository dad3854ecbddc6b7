-- ===== src/Config/Import/Again.antt =====
-- internal/config/loader.go: an import over the rows of an earlier one.
use mathlib.Core.Path.{Path}
use logtailr.Base.{ap, ◌≡◌, refl, Bool, true, false}
use logtailr.Base.Result.{err}
use logtailr.Config.Codec.{Codec}
use logtailr.Config.Import.{upsert_output, upsert_alert_rule, after_create, update_named}
use logtailr.Store.{
  Store, StoreError, Outcome, violated, syntax_error, aborted, parsed, sent, sent_open, written,
  failed,
}
use logtailr.Store.Rows.{OutputRow, AlertRuleRow}
use logtailr.Store.Table.{has_name, insert_taken}
use logtailr.Store.Outputs.{output_columns, create_output, list_outputs}
use logtailr.Store.AlertRules.{alert_rule_columns, create_alert_rule, list_alert_rules}

-- the store after a statement that failed in a transaction
abbrev pub aborted_store : Store → Store
aborted_store st = record st { has_failed = true }

failed_lem :
    {A : Type 0} (e : StoreError) (st : Store)
    → st.in_transaction ≡ true
    → Path (Outcome A) (failed e st) (err e, aborted_store st)
unfolding failed
failed_lem e st inside = ap (λ b. (err e, record st { has_failed = b })) inside

refused_output :
    (row : OutputRow) (st : Store)
    → st.has_failed ≡ false
    → st.in_transaction ≡ true
    → has_name output_columns row.name st.outputs ≡ true
    → create_output row st ≡ (err violated, aborted_store st)
unfolding create_output written
refused_output row st open_tx inside old =
    rw (sent_open st _ open_tx, insert_taken output_columns st.next_id row st.outputs old)
      (failed_lem violated st inside)

-- the error of a rule's insertion
abbrev pub rule_error : Bool → StoreError
rule_error true = syntax_error
rule_error false = violated

refused_rule :
    (reserved : Bool) (row : AlertRuleRow) (st : Store)
    → st.has_failed ≡ false
    → st.in_transaction ≡ true
    → has_name alert_rule_columns row.name st.alert_rules ≡ true
    → create_alert_rule reserved row st ≡ (err (rule_error reserved), aborted_store st)
unfolding create_alert_rule parsed written
refused_rule true row st open_tx inside old = failed_lem syntax_error st inside
refused_rule false row st open_tx inside old =
    rw (sent_open st _ open_tx, insert_taken alert_rule_columns st.next_id row st.alert_rules old)
      (failed_lem violated st inside)

module _ (codec : Codec) where
  open codec use {before, reserves_window}

  no_rows :
      (reserved : Bool) (st : Store)
      → st.in_transaction ≡ true
      → (e : StoreError) × (list_alert_rules reserved before (aborted_store st)
          ≡ (err e, aborted_store st))
  unfolding list_alert_rules parsed sent
  no_rows true st inside = (syntax_error, failed_lem syntax_error (aborted_store st) inside)
  no_rows false st inside = (aborted, refl)

  refused_upsert :
      (st : Store) (rule : AlertRuleRow) (e : StoreError)
      → st.in_transaction ≡ true
      → create_alert_rule reserves_window rule st ≡ (err e, aborted_store st)
      → upsert_alert_rule codec rule st ≡ (err e, aborted_store st)
  unfolding upsert_alert_rule after_create update_named
  refused_upsert st rule e inside refused =
      let (e', none_listed) = no_rows reserves_window st inside in rw (refused, none_listed) refl

  -- Inside a transaction, an output or a rule whose name the table has is never updated: the insertion
  -- fails and aborts the transaction, the search for the row is refused, and the insertion's error is
  -- returned. That of a rule is a syntax error where the database reserves the word `window`.
  pub upsert-in_transaction :
      (st : Store) (output : OutputRow) (rule : AlertRuleRow)
      → st.has_failed ≡ false
      → st.in_transaction ≡ true
      → has_name output_columns output.name st.outputs ≡ true
      → has_name alert_rule_columns rule.name st.alert_rules ≡ true
      → (upsert_output codec output st ≡ (err violated, aborted_store st))
        × (upsert_alert_rule codec rule st ≡ (err (rule_error reserves_window), aborted_store st))
  unfolding upsert_output upsert_alert_rule list_outputs list_alert_rules after_create update_named
      sent
  upsert-in_transaction st output rule open_tx inside old old' = (
    rw (refused_output output st open_tx inside old) refl,
    refused_upsert st rule _ inside (refused_rule reserves_window rule st open_tx inside old'),
  )
