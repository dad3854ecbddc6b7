-- ===== src/Config/Import/Reserved.antt =====
-- internal/config/loader.go over a database that reserves the word `window`.
use logtailr.Base.{arith, ◌≡◌, refl, true, false, Option, none, some, map, List, ◌∷◌}
use logtailr.Base.Result.{Result, ok, err, is_err}
use logtailr.Config.{AlertRuleConfig, AlertsConfig, OutputsConfig, Config}
use logtailr.Config.Codec.{Codec}
use logtailr.Config.Loader.{
  Step, lift, load_from_store, load_outputs, load_global_settings, load_alerts, source_config,
}
use logtailr.Config.Import.{
  rule_row, after_create, update_named, upsert_alert_rule, import_rules, import_alerts,
  import_to_store_inner, import_to_store, import_sources, import_outputs, set_all, global_settings,
}
use logtailr.Store.{Store, Outcome, and_then, parsed, failed, with_tx_refused}
use logtailr.Store.Rows.{SourceRow, AlertRuleRow}
use logtailr.Store.Sources.{list_sources}
use logtailr.Store.Outputs.{list_outputs}
use logtailr.Store.AlertRules.{create_alert_rule, list_alert_rules}

-- a step that fails makes those that follow it fail too
first_refused :
    {E A B : Type 0} (m : Result E A × Store) (f : A → Store → Result E B × Store)
    → is_err m.0 ≡ true
    → is_err (and_then m f).0 ≡ true
unfolding and_then
first_refused (ok a, st) f h = ground arith
first_refused (err e, st) f h = refl

later_refused :
    {E A B : Type 0} (m : Result E A × Store) (f : A → Store → Result E B × Store)
    → ((a : A) (st : Store) → is_err (f a st).0 ≡ true)
    → is_err (and_then m f).0 ≡ true
unfolding and_then
later_refused (ok a, st) f h = h a st
later_refused (err e, st) f h = refl

module _ (codec : Codec) where
  open codec use {before, reserves_window}

  lift_refused : {A : Type 0} (o : Outcome A) → is_err o.0 ≡ true → is_err (lift codec o).0 ≡ true
  unfolding lift
  lift_refused (ok a, st) h = ground arith
  lift_refused (err e, st) h = refl

  upsert_refused :
      (row : AlertRuleRow) (st : Store)
      → reserves_window ≡ true
      → is_err (upsert_alert_rule codec row st).0 ≡ true
  unfolding upsert_alert_rule after_create update_named create_alert_rule list_alert_rules parsed
      failed
  upsert_refused row st h = rw h refl

  rules_refused :
      (r : AlertRuleConfig) (rules : List AlertRuleConfig) (st : Store)
      → reserves_window ≡ true
      → is_err (import_rules codec (r ∷ rules) st).0 ≡ true
  unfolding import_rules
  rules_refused r rules st h = first_refused _ _ (lift_refused _ (upsert_refused (rule_row r) st h))

  alerts_refused :
      (alerts : Option AlertsConfig) (a : AlertsConfig) (r : AlertRuleConfig)
      (rules : List AlertRuleConfig) (st : Store)
      → reserves_window ≡ true
      → alerts ≡ some a
      → a.enabled ≡ true
      → a.rules ≡ r ∷ rules
      → is_err (import_alerts codec alerts st).0 ≡ true
  unfolding import_alerts
  alerts_refused alerts a r rules st h is_alerts enabled has =
      rw (is_alerts, enabled, has) (first_refused _ _ (rules_refused r rules st h))

  list_refused :
      (st : Store)
      → reserves_window ≡ true
      → is_err (list_alert_rules reserves_window before st).0 ≡ true
  unfolding list_alert_rules parsed failed
  list_refused st h = rw h refl

  -- what importToStoreInner does after the outputs, and after the sources
  abbrev from_alerts : Config → Store → Step codec Unit
  from_alerts cfg st2 =
      and_then (import_alerts codec cfg.alerts st2)
        λ _ st3. set_all codec (global_settings codec cfg.global) st3

  abbrev from_outputs : Config → Store → Step codec Unit
  from_outputs cfg st1 =
      and_then (import_outputs codec cfg.outputs st1) λ _ st2. from_alerts cfg st2

  inner_refused :
      (cfg : Config)
      → ((st : Store) → is_err (import_alerts codec cfg.alerts st).0 ≡ true)
      → (st : Store) → is_err (import_to_store_inner codec cfg st).0 ≡ true
  unfolding import_to_store_inner
  inner_refused cfg refused st =
      later_refused (import_sources codec cfg.sources st) (λ _ st1. from_outputs cfg st1)
        (λ _ st1.
          later_refused (import_outputs codec cfg.outputs st1) (λ _ st2. from_alerts cfg st2)
            (λ _ st2. first_refused (import_alerts codec cfg.alerts st2) _ (refused st2)))

  -- what LoadFromStore does with the rows of the sources, and then with the outputs
  abbrev from_rules : List SourceRow → OutputsConfig → Store → Step codec Config
  from_rules source_rows outs st3 =
      and_then (lift codec (list_alert_rules reserves_window before st3)) λ rule_rows st4. (
        ok (record {
          sources = map source_config source_rows;
          global = load_global_settings codec st4;
          outputs = outs;
          alerts = load_alerts codec rule_rows st4;
          allow_local = false;
        }),
        st4,
      )

  abbrev from_output_rows : List SourceRow → Store → Step codec Config
  from_output_rows source_rows st1 =
      and_then (lift codec (list_outputs before st1)) λ output_rows st2.
        and_then
          (
            load_outputs codec output_rows
                (record { open_search = none; webhook = none; file = none }),
            st2,
          )
          λ outs st3. from_rules source_rows outs st3

  load_refused : (st : Store) → reserves_window ≡ true → is_err (load_from_store codec st).0 ≡ true
  unfolding load_from_store
  load_refused st h =
      later_refused (lift codec (list_sources before st)) (λ rows st1. from_output_rows rows st1)
        (λ source_rows st1.
          later_refused (lift codec (list_outputs before st1))
            (λ output_rows st2.
              and_then
                (
                  load_outputs codec output_rows
                      (record { open_search = none; webhook = none; file = none }),
                  st2,
                )
                λ outs st3. from_rules source_rows outs st3)
            (λ output_rows st2.
              later_refused
                (
                  load_outputs codec output_rows
                      (record { open_search = none; webhook = none; file = none }),
                  st2,
                )
                (λ outs st3. from_rules source_rows outs st3)
                (λ outs st3.
                  first_refused (lift codec (list_alert_rules reserves_window before st3)) _
                    (lift_refused _ (list_refused st3 h)))))

  -- Where the database reserves the word `window`, as PostgreSQL does: every import of a configuration
  -- with an enabled rule fails and leaves the tables as they were, and every load fails.
  pub import_to_store-load_from_store_reserved :
      (cfg : Config) (a : AlertsConfig) (r : AlertRuleConfig) (rules : List AlertRuleConfig)
      (st : Store)
      → reserves_window ≡ true
      → cfg.alerts ≡ some a
      → a.enabled ≡ true
      → a.rules ≡ r ∷ rules
      → (is_err (import_to_store codec cfg st).0 ≡ true)
        × ((import_to_store codec cfg st).1 ≡ st)
        × (is_err (load_from_store codec st).0 ≡ true)
  unfolding import_to_store
  import_to_store-load_from_store_reserved cfg a r rules st h is_alerts enabled has =
      let (refused, same) = with_tx_refused (import_to_store_inner codec cfg) st (
        inner_refused cfg
          (λ st2. alerts_refused cfg.alerts a r rules st2 h is_alerts enabled has)) in
      (refused, same, load_refused st h)
