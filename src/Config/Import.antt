-- ===== src/Config/Import.antt =====
-- internal/config/loader.go: ImportToStore.
mod Again
mod Reserved
mod Tests
use logtailr.Logline.{Json}
use logtailr.Base.{
  ℕ, String, Bool, true, false, not, Option, none, some, List, [], ◌∷◌, ◌++◌, str_eq, if◌then◌else◌,
}
use logtailr.Base.Result.{Result, ok, err}
use logtailr.Config.{
  SourceConfig, GlobalConfig, OutputsConfig, OpenSearchOutputConfig, WebhookOutputConfig,
  FileOutputConfig, AlertRuleConfig, AlertsConfig, Config,
}
use logtailr.Config.Codec.{Codec, LoaderError, stored, coded}
use logtailr.Config.Loader.{Step, lift}
use logtailr.Store.{Store, StoreError, Outcome, and_then, with_tx}
use logtailr.Store.Rows.{SourceRow, OutputRow, AlertRuleRow}
use logtailr.Store.Table.{find_named}
use logtailr.Store.Sources.{get_source_by_name, create_source, update_source}
use logtailr.Store.Outputs.{output_columns, list_outputs, create_output, update_output}
use logtailr.Store.AlertRules.{
  alert_rule_columns, list_alert_rules, create_alert_rule, update_alert_rule,
}
use logtailr.Store.Settings.{set_setting}

-- the row of a source, without an id
unfoldable pub source_row : SourceConfig → SourceRow
source_row src = record {
  id = 0;
  name = src.name;
  kind = src.kind;
  path = src.path;
  container = src.container;
  unit = src.unit;
  priority = src.priority;
  output_format = src.output_format;
  namespace = src.namespace;
  pod = src.pod;
  label_selector = src.label_selector;
  kubeconfig = src.kubeconfig;
  follow = src.follow;
  parser = src.parser;
}

unfoldable pub rule_row : AlertRuleConfig → AlertRuleRow
rule_row rule = record {
  id = 0;
  name = rule.name;
  kind = rule.kind;
  severity = rule.severity;
  pattern = rule.pattern;
  level = rule.level;
  source = rule.source;
  threshold = rule.threshold;
  window = rule.window;
  cooldown = rule.cooldown;
  enabled = true;
}

-- the outcome of an insertion without the id that it gives
unfoldable pub created : Outcome ℕ → Outcome Unit
created (ok i, st) = (ok tt, st)
created (err e, st) = (err e, st)

-- a source that was found is updated, any other is created
unfoldable pub found_source : SourceRow → Outcome SourceRow → Outcome Unit
unfolding created
found_source row (ok existing, st) = update_source (record row { id = existing.id }) st
found_source row (err e, st) = created (create_source row st)

-- upsertSource
unfoldable pub upsert_source : SourceRow → Store → Outcome Unit
unfolding found_source
upsert_source row st = found_source row (get_source_by_name row.name st)

unfoldable pub update_found :
    {A : Type 0} → StoreError → (A → Store → Outcome Unit) → Option A → Store → Outcome Unit
update_found e update none st = (err e, st)
update_found e update (some existing) st = update existing st

-- the update of the row with the name, found in the list of all rows; `e` is the insertion's error
unfoldable pub update_named :
    {A : Type 0}
    → StoreError
    → (List A → Option A)
    → (A → Store → Outcome Unit)
    → Outcome (List A)
    → Outcome Unit
unfolding update_found
update_named e find update (err e', st) = (err e, st)
update_named e find update (ok rows, st) = update_found e update (find rows) st

-- what follows an insertion: nothing, or after an error the update
unfoldable pub after_create :
    {A : Type 0}
    → (Store → Outcome (List A))
    → (List A → Option A)
    → (A → Store → Outcome Unit)
    → Outcome ℕ
    → Outcome Unit
unfolding update_named
after_create list find update (ok i, st) = (ok tt, st)
after_create list find update (err e, st) = update_named e find update (list st)

module _ (codec : Codec) where
  open codec use {
    Error, encode_open_search, encode_webhook, encode_file, encode_string, encode_bool, jsonb,
    before, reserves_window,
  }

  -- upsertOutput
  unfoldable pub upsert_output : OutputRow → Store → Outcome Unit
  unfolding after_create
  upsert_output row st =
      after_create (list_outputs before) (find_named output_columns row.name)
        (λ existing. update_output (record row { id = existing.id })) (create_output row st)

  -- upsertAlertRule
  unfoldable pub upsert_alert_rule : AlertRuleRow → Store → Outcome Unit
  unfolding after_create
  upsert_alert_rule row st =
      after_create (list_alert_rules reserves_window before)
        (find_named alert_rule_columns row.name)
        (λ existing. update_alert_rule reserves_window (record row { id = existing.id }))
        (create_alert_rule reserves_window row st)

  -- the loop over the sources
  unfoldable pub import_sources : List SourceConfig → Store → Step codec Unit
  unfolding source_row upsert_source lift and_then
  import_sources [] st = (ok tt, st)
  import_sources (src ∷ srcs) st =
      and_then (lift codec (upsert_source (source_row src) st)) λ _ st'. import_sources srcs st'

  -- the loop over the rules
  unfoldable pub import_rules : List AlertRuleConfig → Store → Step codec Unit
  unfolding rule_row upsert_alert_rule lift and_then
  import_rules [] st = (ok tt, st)
  import_rules (rule ∷ rules) st =
      and_then (lift codec (upsert_alert_rule (rule_row rule) st)) λ _ st'. import_rules rules st'

  -- one output, where it is configured: its name, which is its type too, and its encoding
  unfoldable pub import_output : String → Option (Result Error Json) → Store → Step codec Unit
  unfolding upsert_output lift
  import_output name none st = (ok tt, st)
  import_output name (some (err e)) st = (err (coded e), st)
  import_output name (some (ok text)) st = lift codec (
      upsert_output
        (record { id = 0; name = name; kind = name; config = jsonb text; enabled = true }) st)

  -- the encoding of an output that is there and enabled
  unfoldable pub open_search_text : Option OpenSearchOutputConfig → Option (Result Error Json)
  open_search_text none = none
  open_search_text (some c) = if c.enabled then some (encode_open_search c) else none

  unfoldable pub webhook_text : Option WebhookOutputConfig → Option (Result Error Json)
  webhook_text none = none
  webhook_text (some c) = if c.enabled then some (encode_webhook c) else none

  unfoldable pub file_text : Option FileOutputConfig → Option (Result Error Json)
  file_text none = none
  file_text (some c) = some (encode_file c)

  -- importOutputs
  unfoldable pub import_outputs : OutputsConfig → Store → Step codec Unit
  unfolding import_output open_search_text webhook_text file_text and_then
  import_outputs outs st =
      and_then (import_output "opensearch" (open_search_text outs.open_search) st) λ _ st1.
        and_then (import_output "webhook" (webhook_text outs.webhook) st1)
          λ _ st2. import_output "file" (file_text outs.file) st2

  -- setSettingJSON, of a value that is encoded already
  unfoldable pub set_setting_json : String → Result Error Json → Store → Step codec Unit
  unfolding lift
  set_setting_json key (err e) st = (err (coded e), st)
  set_setting_json key (ok text) st = lift codec (set_setting jsonb key text st)

  -- settings one after the other
  unfoldable pub set_all : List (String × Result Error Json) → Store → Step codec Unit
  unfolding set_setting_json and_then
  set_all [] st = (ok tt, st)
  set_all ((key, text) ∷ settings) st =
      and_then (set_setting_json key text st) λ _ st'. set_all settings st'

  abbrev pub optional : Bool → String → Result Error Json → List (String × Result Error Json)
  optional true key text = (key, text) ∷ []
  optional false key text = []

  abbrev pub webhook_setting : Option String → List (String × Result Error Json)
  webhook_setting none = []
  webhook_setting (some url) = ("alerts.notify.webhook.url", encode_string url) ∷ []

  -- the settings of the alerts, each where it is given
  unfoldable pub alert_settings : AlertsConfig → List (String × Result Error Json)
  alert_settings a =
      optional a.notify_console "alerts.notify.console" (encode_bool true)
      ++ (webhook_setting a.notify_url
          ++ optional (not (str_eq a.default_cooldown "")) "alerts.default_cooldown"
              (encode_string a.default_cooldown))

  -- importGlobalSettings: the settings, of which the regular expression only where there is one
  unfoldable pub global_settings : GlobalConfig → List (String × Result Error Json)
  global_settings g =
      (("global.level", encode_string g.level)
        ∷ ("global.output", encode_string g.output)
        ∷ ("global.output_path", encode_string g.output_path)
        ∷ ("global.show_health", encode_bool g.show_health)
        ∷ ("global.aggregate", encode_bool g.aggregate)
        ∷ ("global.aggregate_window", encode_string g.aggregate_window)
        ∷ [])
      ++ optional (not (str_eq g.regex "")) "global.regex" (encode_string g.regex)

  -- the part of importToStoreInner for the alerts
  unfoldable pub import_alerts : Option AlertsConfig → Store → Step codec Unit
  unfolding import_rules set_all alert_settings and_then
  import_alerts none st = (ok tt, st)
  import_alerts (some a) st =
      let imported = and_then (import_rules a.rules st) λ _ st'. set_all (alert_settings a) st' in
      if a.enabled then imported else (ok tt, st)

  -- importToStoreInner
  unfoldable pub import_to_store_inner : Config → Store → Step codec Unit
  unfolding import_sources import_outputs import_alerts set_all global_settings and_then
  import_to_store_inner cfg st = and_then (import_sources cfg.sources st) λ _ st1.
      and_then (import_outputs cfg.outputs st1) λ _ st2.
        and_then (import_alerts cfg.alerts st2) λ _ st3. set_all (global_settings cfg.global) st3

  -- ImportToStore
  unfoldable pub import_to_store : Config → Store → Step codec Unit
  unfolding import_to_store_inner
  import_to_store cfg st = with_tx (import_to_store_inner cfg) st
