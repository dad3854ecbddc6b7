-- ===== src/Store/AlertRules.antt =====
-- internal/store/alert_rules.go. Its statements name the column `window` without quotes: `reserved` says
-- whether the database reserves that word, as PostgreSQL does.
use logtailr.Base.{ℕ, ◌+◌, String, Bool, ◌&&◌, List, [], ◌∷◌}
use logtailr.Base.Result.{ok}
use logtailr.Config.{one_of}
use logtailr.Base.Int.{pos, negsuc, leb_ℤ}
use logtailr.Store.{Store, Outcome, sent, parsed, written}
use logtailr.Store.Rows.{AlertRuleRow}
use logtailr.Store.Table.{Columns, find_id, insert, update, delete, order_by_name}
use logtailr.Store.Sources.{one_row, affected}

abbrev alert_rule_kinds : List String
alert_rule_kinds = "pattern" ∷ "level" ∷ "error_rate" ∷ "health_change" ∷ []

abbrev alert_rule_severities : List String
alert_rule_severities = "warning" ∷ "critical" ∷ []

-- `threshold` is an INTEGER of 32 bits
abbrev pub alert_rule_columns : Columns AlertRuleRow
alert_rule_columns = record {
  id_of = λ row. row.id;
  name_of = λ row. row.name;
  with_id = λ i row. record row { id = i };
  is_allowed = λ row.
      one_of alert_rule_kinds row.kind
      && one_of alert_rule_severities row.severity
      && leb_ℤ (negsuc 2147483647) row.threshold
      && leb_ℤ row.threshold (pos 2147483647);
}

-- ListAlertRules
unfoldable pub list_alert_rules :
    Bool → (String → String → Bool) → Store → Outcome (List AlertRuleRow)
unfolding sent parsed
list_alert_rules reserved before st =
    parsed reserved st (sent st (ok (order_by_name alert_rule_columns before st.alert_rules), st))

-- GetAlertRuleByID
unfoldable pub get_alert_rule_by_id : Bool → ℕ → Store → Outcome AlertRuleRow
unfolding sent parsed
get_alert_rule_by_id reserved i st =
    parsed reserved st (sent st (one_row (find_id alert_rule_columns i st.alert_rules) st))

-- CreateAlertRule; it gives the new row's id
unfoldable pub create_alert_rule : Bool → AlertRuleRow → Store → Outcome ℕ
unfolding sent parsed written
create_alert_rule reserved row st = parsed reserved st (
    sent st (
      written st.next_id (insert alert_rule_columns st.next_id row st.alert_rules)
        (λ rows. record st { alert_rules = rows; next_id = st.next_id + 1 }) st))

-- UpdateAlertRule
unfoldable pub update_alert_rule : Bool → AlertRuleRow → Store → Outcome Unit
unfolding sent parsed written
update_alert_rule reserved row st = parsed reserved st (
    sent st (
      affected (find_id alert_rule_columns row.id st.alert_rules)
        (written tt (update alert_rule_columns row st.alert_rules)
          (λ rows. record st { alert_rules = rows }) st)
        st))

-- DeleteAlertRule
unfoldable pub delete_alert_rule : ℕ → Store → Outcome Unit
unfolding sent
delete_alert_rule i st = sent st (
    affected (find_id alert_rule_columns i st.alert_rules)
      (ok tt, record st { alert_rules = delete alert_rule_columns i st.alert_rules }) st)
