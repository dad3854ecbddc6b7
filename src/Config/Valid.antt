-- ===== src/Config/Valid.antt =====
-- internal/config/config.go: ValidateConfig.
pub mod Laws
use logtailr.Base.{
  ℕ, String, Bool, true, false, not, ◌&&◌, Option, none, some, List, [], ◌∷◌, leb, if◌then◌else◌,
  str_eq, is_some, length,
}
use logtailr.Base.Int.{ℤ, pos, leb_ℤ}
use logtailr.Base.Result.{Result, ok, err, ◌>>◌}
use logtailr.Logline.{level_of}
use logtailr.Config.{GlobalConfig, AlertsConfig, Config, Checkers, check, one_of}
use logtailr.Config.Sources.{SourceError, validate_sources}
use logtailr.Config.Outputs.{OutputError, validate_outputs_config}
use logtailr.Config.Alerts.{AlertError, validate_alerts_config}

unfoldable pub valid_outputs : List String
valid_outputs = "console" ∷ "json" ∷ "file" ∷ "" ∷ []

module _ (lib : Checkers) where
  open lib use {
    DurationError,
    parse_duration,
    StatError,
    regexp.{Error as PatternError},
    network.{Error as NetworkError, Ip},
  }

  pub data ConfigError : Type 0 where
    no_sources : ConfigError
    invalid_source : SourceError StatError → ConfigError
    invalid_level : String → ConfigError
    invalid_output : String → ConfigError
    no_output_path : ConfigError
    invalid_window : DurationError → ConfigError
    window_not_positive : ConfigError
    invalid_outputs : OutputError DurationError NetworkError Ip → ConfigError
    invalid_alerts : AlertError DurationError PatternError NetworkError Ip → ConfigError

  abbrev rethrow : {E : Type 0} → (E → ConfigError) → Result E Unit → Result ConfigError Unit
  rethrow f (ok t) = ok t
  rethrow f (err e) = err (f e)

  positive_window : Result DurationError ℤ → Result ConfigError Unit
  positive_window (ok d) = check (leb_ℤ d (pos 0)) window_not_positive
  positive_window (err e) = err (invalid_window e)

  check_global : GlobalConfig → Result ConfigError Unit
  unfolding positive_window valid_outputs
  check_global g =
      check (not (str_eq g.level "") && not (is_some (level_of g.level))) (invalid_level g.level)
      >> check (not (one_of valid_outputs g.output)) (invalid_output g.output)
      >> check (str_eq g.output "file" && str_eq g.output_path "") no_output_path
      >> (if str_eq g.aggregate_window ""
          then ok tt
          else positive_window (parse_duration g.aggregate_window))

  check_alerts : Bool → Option AlertsConfig → Result ConfigError Unit
  unfolding validate_alerts_config
  check_alerts allow_local none = ok tt
  check_alerts allow_local (some alerts) =
      if alerts.enabled
      then rethrow invalid_alerts (validate_alerts_config lib alerts allow_local)
      else ok tt

  unfoldable pub validate_config : Config → Result ConfigError Unit
  unfolding check_global check_alerts validate_sources validate_outputs_config
  validate_config cfg =
      check (leb (length cfg.sources) 0) no_sources
      >> rethrow invalid_source (validate_sources lib 0 [] cfg.sources)
      >> check_global cfg.global
      >> rethrow invalid_outputs (validate_outputs_config lib cfg.outputs cfg.allow_local)
      >> check_alerts cfg.allow_local cfg.alerts
