-- ===== src/Config/Import/Tests.antt =====
-- Tries the import and the load of internal/config/loader.go, with a concrete JSON codec.
use Prim.Native.String.{compare}
use Prim.Native.Nat.{Ordering}
use logtailr.Base.{String, ◌≡◌, refl, Bool, true, false, none, some, List, [], ◌∷◌}
use logtailr.Base.Int.{ℤ, pos, negsuc}
use logtailr.Base.Result.{Result, ok, err, is_err}
use logtailr.Logline.{Json, Elems, bool, num, str, arr, nil, cons}
use logtailr.Config.{OpenSearchOutputConfig, WebhookOutputConfig, FileOutputConfig, Config}
use logtailr.Config.Samples.{config, alerts, pattern_rule, rate_rule}
use logtailr.Config.Import.Reserved.{import_to_store-load_from_store_reserved}
use logtailr.Config.Codec.{Codec}
use logtailr.Config.Loader.{load_from_store}
use logtailr.Config.Import.{import_to_store, source_row, rule_row, upsert_output, upsert_alert_rule}
use logtailr.Config.Import.Again.{aborted_store, upsert-in_transaction}
use logtailr.Store.Rows.{OutputRow, AlertRuleRow}
use logtailr.Store.{Store, violated, with_tx}
use logtailr.Store.Sources.{list_sources, get_source_by_name, create_source}
use logtailr.Store.Table.{find_named, insert, order_by}
use logtailr.Store.Outputs.{list_outputs, create_output}
use logtailr.Store.AlertRules.{list_alert_rules, create_alert_rule}
use logtailr.Store.Settings.{get_setting, set_setting}
use logtailr.Base.Dict.{get, put}

int_json : ℤ → Json
int_json (pos n) = num n
int_json (negsuc n) = arr (cons (num n) nil)

int_of : Json → ℤ
int_of (num n) = pos n
int_of (arr (cons (num n) _)) = negsuc n
int_of _ = pos 0

strings_json : List String → Elems
strings_json [] = nil
strings_json (s ∷ ss) = cons (str s) (strings_json ss)

strings_of : Elems → List String
strings_of nil = []
strings_of (cons (str s) es) = s ∷ strings_of es
strings_of (cons _ es) = strings_of es

string_of : Json → String
string_of (str s) = s
string_of _ = ""

bool_of : Json → Bool
bool_of (bool b) = b
bool_of _ = false

elems_of : Json → Elems
elems_of (arr es) = es
elems_of _ = nil

-- the member of an object at a position
abbrev rest_of : Elems → Elems
rest_of nil = nil
rest_of (cons e es) = es

abbrev first_of : Elems → Json
first_of nil = bool false
first_of (cons e es) = e

open_search_json : OpenSearchOutputConfig → Json
unfolding strings_json int_json
open_search_json c = arr (
    cons (bool c.enabled) (
      cons (arr (strings_json c.hosts)) (
        cons (str c.index) (
          cons (str c.username) (
            cons (str c.password) (
              cons (int_json c.bulk_size) (
                cons (str c.flush_interval) (
                  cons (bool c.tls_skip_verify) (
                    cons (int_json c.max_retries)
                      (cons (str c.template_name) (cons (str c.dashboards_url) nil)))))))))))

open_search_of : Json → Result Unit OpenSearchOutputConfig
unfolding strings_of int_of string_of bool_of elems_of
open_search_of json =
    let e0 = elems_of json in
    let e1 = rest_of e0 in
    let e2 = rest_of e1 in
    let e3 = rest_of e2 in
    let e4 = rest_of e3 in
    let e5 = rest_of e4 in
    let e6 = rest_of e5 in
    let e7 = rest_of e6 in
    let e8 = rest_of e7 in
    let e9 = rest_of e8 in
    ok (record {
      enabled = bool_of (first_of e0);
      hosts = strings_of (elems_of (first_of e1));
      index = string_of (first_of e2);
      username = string_of (first_of e3);
      password = string_of (first_of e4);
      bulk_size = int_of (first_of e5);
      flush_interval = string_of (first_of e6);
      tls_skip_verify = bool_of (first_of e7);
      max_retries = int_of (first_of e8);
      template_name = string_of (first_of e9);
      dashboards_url = string_of (first_of (rest_of e9));
    })

webhook_json : WebhookOutputConfig → Json
unfolding int_json
webhook_json c = arr (
    cons (bool c.enabled) (
      cons (str c.url)
        (cons (str c.min_level) (cons (int_json c.batch_size) (cons (str c.batch_timeout) nil)))))

webhook_of : Json → Result Unit WebhookOutputConfig
unfolding int_of string_of bool_of elems_of
webhook_of json =
    let e0 = elems_of json in
    let e1 = rest_of e0 in
    let e2 = rest_of e1 in
    let e3 = rest_of e2 in
    ok (record {
      enabled = bool_of (first_of e0);
      url = string_of (first_of e1);
      min_level = string_of (first_of e2);
      batch_size = int_of (first_of e3);
      batch_timeout = string_of (first_of (rest_of e3));
    })

file_json : FileOutputConfig → Json
file_json c =
    arr (
      cons (str c.path) (cons (str c.max_size) (cons (str c.max_age) (cons (bool c.compress) nil))))

file_of : Json → Result Unit FileOutputConfig
unfolding string_of bool_of elems_of
file_of json =
    let e0 = elems_of json in
    let e1 = rest_of e0 in
    let e2 = rest_of e1 in
    ok (record {
      path = string_of (first_of e0);
      max_size = string_of (first_of e1);
      max_age = string_of (first_of e2);
      compress = bool_of (first_of (rest_of e2));
    })

-- records as lists of their fields, and names in alphabetical order
abbrev sample_codec : Codec
sample_codec = record {
  Error = Unit;
  encode_open_search = λ c. ok (open_search_json c);
  decode_open_search = open_search_of;
  encode_webhook = λ c. ok (webhook_json c);
  decode_webhook = webhook_of;
  encode_file = λ c. ok (file_json c);
  decode_file = file_of;
  encode_string = λ s. ok (str s);
  decode_string = λ json. ok (string_of json);
  encode_bool = λ b. ok (bool b);
  decode_bool = λ json. ok (bool_of json);
  jsonb = λ json. json;
  before = λ a b. elim (compare a b) [ Ordering.gt ↦ false | _ ↦ true ];
  reserves_window = false;
}

abbrev file_output : FileOutputConfig
file_output = record { path = "/var/log/out.log"; max_size = "10MB"; max_age = ""; compress = true }

abbrev cfg : Config
cfg = record config {
  outputs = record { open_search = none; webhook = none; file = some file_output };
}

-- a database after the migrations, outside any transaction
abbrev fresh : Store
fresh = record {
  sources = [];
  outputs = [];
  alert_rules = [];
  settings = [];
  next_id = 0;
  in_transaction = false;
  has_failed = false;
}

-- where the word is not reserved, the configuration is loaded again, with its rules ordered by name
reloaded :
    (load_from_store sample_codec (import_to_store sample_codec cfg fresh).1).0
    ≡ ok (record cfg { alerts = some (record alerts { rules = rate_rule ∷ pattern_rule ∷ [] }) })
unfolding import_to_store load_from_store source_row rule_row upsert_alert_rule upsert_output
    list_sources with_tx get_source_by_name find_named create_source insert create_output
    create_alert_rule set_setting list_outputs order_by file_of list_alert_rules get_setting
    file_json get put
reloaded = refl

abbrev file_row : OutputRow
file_row = record {
  id = 0;
  name = "file";
  kind = "file";
  config = file_json file_output;
  enabled = true;
}

abbrev panics_row : AlertRuleRow
panics_row = record {
  id = 1;
  name = "panics";
  kind = "pattern";
  severity = "critical";
  pattern = "panic";
  level = "";
  source = "";
  threshold = pos 0;
  window = "";
  cooldown = "5m";
  enabled = true;
}

-- an import over the rows of an earlier one
abbrev second_import : Store
second_import = record fresh {
  outputs = file_row ∷ [];
  alert_rules = panics_row ∷ [];
  next_id = 2;
  in_transaction = true;
}

upsert-in_transaction_example :
    (upsert_output sample_codec file_row second_import
      ≡ (err violated, aborted_store second_import))
    × (upsert_alert_rule sample_codec panics_row second_import
        ≡ (err violated, aborted_store second_import))
upsert-in_transaction_example =
    upsert-in_transaction sample_codec second_import file_row panics_row refl refl refl refl

-- the same codec with a database that reserves the word
abbrev reserving : Codec
reserving = record sample_codec { reserves_window = true }

import_to_store-load_from_store_reserved_example :
    (is_err (import_to_store reserving cfg fresh).0 ≡ true)
    × ((import_to_store reserving cfg fresh).1 ≡ fresh)
    × (is_err (load_from_store reserving fresh).0 ≡ true)
import_to_store-load_from_store_reserved_example =
    import_to_store-load_from_store_reserved reserving cfg alerts pattern_rule (rate_rule ∷ [])
      fresh refl refl refl refl
