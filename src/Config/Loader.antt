-- ===== src/Config/Loader.antt =====
-- internal/config/loader.go: LoadFromStore.
use logtailr.Logline.{Json}
use logtailr.Base.{
  String, Bool, true, false, not, Option, none, some, List, [], ◌∷◌, str_eq, if◌then◌else◌, map,
}
use logtailr.Base.Result.{Result, ok, err, ◌>>=◌}
use logtailr.Config.{
  SourceConfig, GlobalConfig, OutputsConfig, OpenSearchOutputConfig, WebhookOutputConfig,
  FileOutputConfig, AlertRuleConfig, AlertsConfig, Config,
}
use logtailr.Config.Codec.{Codec, LoaderError, stored, coded}
use logtailr.Store.{Store, Outcome, and_then}
use logtailr.Store.Rows.{SourceRow, OutputRow, AlertRuleRow}
use logtailr.Store.Sources.{list_sources}
use logtailr.Store.Outputs.{list_outputs}
use logtailr.Store.AlertRules.{list_alert_rules}
use logtailr.Store.Settings.{get_setting}

-- the body of the loop over the sources
unfoldable pub source_config : SourceRow → SourceConfig
source_config r = record {
  name = r.name;
  kind = r.kind;
  path = r.path;
  container = r.container;
  unit = r.unit;
  priority = r.priority;
  output_format = r.output_format;
  namespace = r.namespace;
  pod = r.pod;
  label_selector = r.label_selector;
  kubeconfig = r.kubeconfig;
  follow = r.follow;
  parser = r.parser;
}

unfoldable pub rule_config : AlertRuleRow → AlertRuleConfig
rule_config r = record {
  name = r.name;
  kind = r.kind;
  severity = r.severity;
  pattern = r.pattern;
  level = r.level;
  source = r.source;
  threshold = r.threshold;
  window = r.window;
  cooldown = r.cooldown;
}

-- the loop over the rules
unfoldable pub enabled_rules : List AlertRuleRow → List AlertRuleConfig
unfolding rule_config
enabled_rules [] = []
enabled_rules (r ∷ rows) =
    let rest = enabled_rules rows in if r.enabled then rule_config r ∷ rest else rest

abbrev pub or_else {ℓ} : {E A : Type ℓ} → A → Result E A → A
or_else a (ok b) = b
or_else a (err e) = a

module _ (codec : Codec) where
  open codec use {
    Error, decode_open_search, decode_webhook, decode_file, decode_string, decode_bool, before,
  }

  abbrev pub Step : Type 0 → Type 0
  Step A = Result (LoaderError Error) A × Store

  -- the outcome of the store, as one of the loader
  unfoldable pub lift : {A : Type 0} → Outcome A → Step A
  lift (ok a, st) = (ok a, st)
  lift (err e, st) = (err (stored e), st)

  unfoldable pub read : {A : Type 0} → Result Error A → Result (LoaderError Error) A
  read (ok a) = ok a
  read (err e) = err (coded e)

  unfoldable pub decoded_by :
      {A : Type 0} → A → (Json → Result Error A) → Option Json → Result (LoaderError Error) A
  unfolding read
  decoded_by zero decode none = ok zero
  decoded_by zero decode (some text) = read (decode text)

  -- LoadSettingString
  unfoldable pub load_setting_string : String → Store → Step String
  unfolding decoded_by lift and_then
  load_setting_string key st =
      and_then (lift (get_setting key st)) λ raw st'. (decoded_by "" decode_string raw, st')

  -- loadSettingBool
  unfoldable pub load_setting_bool : String → Store → Step Bool
  unfolding decoded_by lift and_then
  load_setting_bool key st =
      and_then (lift (get_setting key st)) λ raw st'. (decoded_by false decode_bool raw, st')

  -- an output of a kind, read from its row
  with_open_search :
      OutputsConfig → Result Error OpenSearchOutputConfig → Result (LoaderError Error) OutputsConfig
  with_open_search outs (ok c) =
      ok (record outs { open_search = some (record c { enabled = true }) })
  with_open_search outs (err e) = err (coded e)

  with_webhook :
      OutputsConfig → Result Error WebhookOutputConfig → Result (LoaderError Error) OutputsConfig
  with_webhook outs (ok c) = ok (record outs { webhook = some (record c { enabled = true }) })
  with_webhook outs (err e) = err (coded e)

  with_file :
      OutputsConfig → Result Error FileOutputConfig → Result (LoaderError Error) OutputsConfig
  with_file outs (ok c) = ok (record outs { file = some c })
  with_file outs (err e) = err (coded e)

  unfoldable pub load_output : OutputRow → OutputsConfig → Result (LoaderError Error) OutputsConfig
  unfolding with_open_search with_webhook with_file
  load_output r outs =
      if not r.enabled
      then ok outs
      else (if str_eq r.kind "opensearch"
          then with_open_search outs (decode_open_search r.config)
          else (if str_eq r.kind "webhook"
              then with_webhook outs (decode_webhook r.config)
              else (if str_eq r.kind "file"
                  then with_file outs (decode_file r.config)
                  else ok outs)))

  -- the loop over the outputs
  unfoldable pub load_outputs :
      List OutputRow → OutputsConfig → Result (LoaderError Error) OutputsConfig
  unfolding load_output
  load_outputs [] outs = ok outs
  load_outputs (r ∷ rows) outs = load_output r outs >>= λ outs'. load_outputs rows outs'

  -- loadGlobalSettings: a setting that cannot be read keeps its zero value
  unfoldable pub load_global_settings : Store → GlobalConfig
  unfolding load_setting_string load_setting_bool
  load_global_settings st = record {
    level = or_else "" (load_setting_string "global.level" st).0;
    regex = or_else "" (load_setting_string "global.regex" st).0;
    output = or_else "" (load_setting_string "global.output" st).0;
    output_path = or_else "" (load_setting_string "global.output_path" st).0;
    show_health = or_else false (load_setting_bool "global.show_health" st).0;
    aggregate = or_else false (load_setting_bool "global.aggregate" st).0;
    aggregate_window = or_else "" (load_setting_string "global.aggregate_window" st).0;
  }

  -- a webhook only where there is a URL
  unfoldable pub notify_url_of : String → Option String
  notify_url_of url = if str_eq url "" then none else some url

  -- the alerts, where there are rules, with what loadAlertNotifySettings reads
  unfoldable pub load_alerts : List AlertRuleRow → Store → Option AlertsConfig
  unfolding enabled_rules load_setting_string load_setting_bool notify_url_of
  load_alerts [] st = none
  load_alerts (r ∷ rows) st = some (record {
    enabled = true;
    default_cooldown = or_else "" (load_setting_string "alerts.default_cooldown" st).0;
    notify_console = or_else false (load_setting_bool "alerts.notify.console" st).0;
    notify_url = notify_url_of (or_else "" (load_setting_string "alerts.notify.webhook.url" st).0);
    notify_email = none;
    rules = enabled_rules (r ∷ rows);
  })

  -- LoadFromStore
  unfoldable pub load_from_store : Store → Step Config
  unfolding load_outputs load_alerts load_global_settings lift and_then source_config
  load_from_store st = and_then (lift (list_sources before st)) λ source_rows st1.
      and_then (lift (list_outputs before st1)) λ output_rows st2.
        and_then
          (
            load_outputs output_rows (record { open_search = none; webhook = none; file = none }),
            st2,
          )
          λ outs st3.
            and_then (lift (list_alert_rules codec.reserves_window before st3)) λ rule_rows st4. (
              ok (record {
                sources = map source_config source_rows;
                global = load_global_settings st4;
                outputs = outs;
                alerts = load_alerts rule_rows st4;
                allow_local = false;
              }),
              st4,
            )
