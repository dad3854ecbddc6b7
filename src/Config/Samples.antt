-- ===== src/Config/Samples.antt =====
-- A small library for the checks of internal/config, and a configuration, on which theorems are tried.
use logtailr.Base.{String, true, false, none, some, [], ◌∷◌, if◌then◌else◌, str_eq}
use logtailr.Base.Int.{pos}
use logtailr.Base.Result.{ok, err}
use logtailr.Ssrf.Tests.{sample_network}
use logtailr.Alert.Samples.{sample}
use logtailr.Config.{SourceConfig, AlertRuleConfig, AlertsConfig, Config, Checkers}

-- "5m" is the only duration
abbrev pub checkers : Checkers
checkers = record {
  regexp = sample.regexp;
  network = sample_network;
  DurationError = String;
  parse_duration = λ t. if str_eq t "5m" then ok (pos 300000000000) else err "invalid duration";
  StatError = String;
  stat = λ p. none;
  matches_selector = λ s. true;
}

abbrev pub file_source : SourceConfig
file_source = record {
  name = "app";
  kind = "file";
  path = "/var/log/app.log";
  container = "";
  unit = "";
  priority = "";
  output_format = "";
  namespace = "";
  pod = "";
  label_selector = "";
  kubeconfig = "";
  follow = true;
  parser = "";
}

abbrev pub pod_source : SourceConfig
pod_source = record file_source {
  name = "web";
  kind = "kubernetes";
  path = "";
  label_selector = "app=web";
}

abbrev pub pattern_rule : AlertRuleConfig
pattern_rule = record {
  name = "panics";
  kind = "pattern";
  severity = "critical";
  pattern = "panic";
  level = "";
  source = "";
  threshold = pos 0;
  window = "";
  cooldown = "5m";
}

abbrev pub rate_rule : AlertRuleConfig
rate_rule = record pattern_rule {
  name = "errors";
  kind = "error_rate";
  pattern = "";
  threshold = pos 3;
  window = "5m";
}

abbrev pub alerts : AlertsConfig
alerts = record {
  enabled = true;
  default_cooldown = "";
  notify_console = true;
  notify_email = none;
  notify_url = some "https://search.example/logs";
  rules = pattern_rule ∷ rate_rule ∷ [];
}

abbrev pub config : Config
config = record {
  sources = file_source ∷ pod_source ∷ [];
  global = record {
    level = "Info";
    regex = "";
    output = "console";
    output_path = "";
    show_health = false;
    aggregate = false;
    aggregate_window = "5m";
  };
  outputs = record { open_search = none; webhook = none; file = none };
  alerts = some alerts;
  allow_local = false;
}
