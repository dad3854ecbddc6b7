-- ===== src/Config.antt =====
-- internal/config/config.go: the configuration, and what it is checked with.
pub mod Sources
pub mod Alerts
pub mod Outputs
pub mod ByteSize
pub mod Valid
pub mod Samples
pub mod Codec
pub mod Loader
pub mod Import
mod Tests
use logtailr.Base.{
  ℕ, String, Bool, true, false, ◌≡◌, refl, Option, none, some, List, [], ◌∷◌, any, str_eq,
  if◌then◌else◌, inl, inr, Bool-cases, arith,
}
use logtailr.Base.Int.{ℤ}
use logtailr.Base.Result.{Result, ok, err, ◌>>◌}
use logtailr.Filter.{Regexp}
use logtailr.Ssrf.{Network, UrlError}

-- `SourceConfig` of pkg/logline/logline.go; `kind` is its field `Type`
pub record SourceConfig : Type 0 where
  pub name : String
  pub kind : String
  pub path : String
  pub container : String
  pub unit : String
  pub priority : String
  pub output_format : String
  pub namespace : String
  pub pod : String
  pub label_selector : String
  pub kubeconfig : String
  pub follow : Bool
  pub parser : String

pub record GlobalConfig : Type 0 where
  pub level : String
  pub regex : String
  pub output : String
  pub output_path : String
  pub show_health : Bool
  pub aggregate : Bool
  pub aggregate_window : String

pub record FileOutputConfig : Type 0 where
  pub path : String
  pub max_size : String
  pub max_age : String
  pub compress : Bool

pub record OpenSearchOutputConfig : Type 0 where
  pub enabled : Bool
  pub hosts : List String
  pub index : String
  pub username : String
  pub password : String
  pub bulk_size : ℤ
  pub flush_interval : String
  pub tls_skip_verify : Bool
  pub max_retries : ℤ
  pub template_name : String
  pub dashboards_url : String

pub record WebhookOutputConfig : Type 0 where
  pub enabled : Bool
  pub url : String
  pub min_level : String
  pub batch_size : ℤ
  pub batch_timeout : String

pub record OutputsConfig : Type 0 where
  pub open_search : Option OpenSearchOutputConfig
  pub webhook : Option WebhookOutputConfig
  pub file : Option FileOutputConfig

pub record AlertRuleConfig : Type 0 where
  pub name : String
  pub kind : String
  pub severity : String
  pub pattern : String
  pub level : String
  pub source : String
  pub threshold : ℤ
  pub window : String
  pub cooldown : String

pub record AlertEmailConfig : Type 0 where
  pub host : String
  pub port : ℤ
  pub from : String
  pub to : List String
  pub username : String
  pub password : String
  pub tls : Bool

-- `notify_console` and `notify_email` are fields of `Notify`; `notify_url` is `Notify.Webhook.URL`,
-- where there is a webhook
pub record AlertsConfig : Type 0 where
  pub enabled : Bool
  pub default_cooldown : String
  pub notify_console : Bool
  pub notify_url : Option String
  pub notify_email : Option AlertEmailConfig
  pub rules : List AlertRuleConfig

pub record Config : Type 0 where
  pub sources : List SourceConfig
  pub global : GlobalConfig
  pub outputs : OutputsConfig
  pub alerts : Option AlertsConfig
  pub allow_local : Bool

-- What the checks call: Go's `regexp`, `time.ParseDuration` and `os.Stat`, the network, and the
-- match of a label selector with its regular expression.
pub record Checkers : Type 1 where
  pub regexp : Regexp
  pub network : Network
  pub DurationError : Type 0
  pub parse_duration : String → Result DurationError ℤ
  pub StatError : Type 0
  pub stat : String → Option StatError
  pub matches_selector : String → Bool

-- an early return with an error
abbrev pub check {ℓ} : {E : Type ℓ} → Bool → E → Result E Unit
check true e = err e
check false e = ok tt

abbrev pub one_of : List String → String → Bool
one_of keys s = any (λ k. str_eq s k) keys

pub passed {ℓ} : {E : Type ℓ} (m k : Result E Unit) → (m >> k) ≡ ok tt → (m ≡ ok tt) × (k ≡ ok tt)
passed (ok tt) k h = (refl, h)
passed (err e) k h = ground arith

pub unchecked {ℓ} : {E : Type ℓ} (bad : Bool) (e : E) → check bad e ≡ ok tt → bad ≡ false
unchecked true e h = ground arith
unchecked false e h = refl
