-- ===== src/Config/Valid/Laws.antt =====
-- internal/config/config.go: what a configuration that ValidateConfig accepts is like.
use logtailr.Base.{◌≡◌, ◌≢◌, refl, [], leb, length, arith, All}
use logtailr.Base.Result.{Result, ok, err, ◌>>◌}
use logtailr.Config.{Config, Checkers, check, passed, unchecked}
use logtailr.Config.Sources.{validate_sources}
use logtailr.Config.Sources.Checked.{IsValid, NamesDiffer, validate_sources-IsValid}
use logtailr.Config.Outputs.{validate_outputs_config}
use logtailr.Config.Valid.{
  ConfigError, no_sources, invalid_source, invalid_outputs, rethrow, check_global, check_alerts,
  validate_config,
}

module _ (lib : Checkers) where
  rethrow-ok :
      {E : Type 0} (f : E → ConfigError lib) (r : Result E Unit)
      → rethrow lib f r ≡ ok tt
      → r ≡ ok tt
  rethrow-ok f (ok tt) h = refl
  rethrow-ok f (err e) h = ground arith

  -- A configuration that is accepted has a source. Each of its sources has a name that no earlier one
  -- has, a known type and parser, and names what it reads: a path, a container, a unit, or one of a
  -- pod and a label selector.
  pub validate_config-IsValid :
      (cfg : Config)
      → validate_config lib cfg ≡ ok tt
      → (cfg.sources ≢ []) × All IsValid cfg.sources × NamesDiffer cfg.sources
  unfolding validate_config
  validate_config-IsValid cfg h =
      let empty = leb (length cfg.sources) 0 in
      let c1 : Result (ConfigError lib) Unit = check empty no_sources in
      let c2 = rethrow lib invalid_source (validate_sources lib 0 [] cfg.sources) in
      let c3 = check_global lib cfg.global in
      let c4 =
        rethrow lib invalid_outputs (validate_outputs_config lib cfg.outputs cfg.allow_local) in
      let c5 = check_alerts lib cfg.allow_local cfg.alerts in
      let (h4, _) = passed (c1 >> c2 >> c3 >> c4) c5 h in
      let (h3, _) = passed (c1 >> c2 >> c3) c4 h4 in
      let (h2, _) = passed (c1 >> c2) c3 h3 in
      let (k1, k2) = passed c1 c2 h2 in
      let some_source = unchecked empty no_sources k1 in
      let r = rethrow-ok invalid_source (validate_sources lib 0 [] cfg.sources) k2 in
      let (valid, differ) = validate_sources-IsValid lib 0 [] cfg.sources r in
      (ground arith, valid, differ)
