-- ===== src/Cmd/Tailers/Create.antt =====
-- cmd/tail.go: createTailer knows every type of source that the checks let through.
use logtailr.Base.{String, ◌≡◌, ◌≢◌, refl, ap, Bool, true, false, arith}
use logtailr.Base.Result.{Result, ok, err}
use logtailr.Config.{SourceConfig, one_of}
use logtailr.Config.Sources.{valid_source_types}
use logtailr.Config.Sources.Checked.{IsValid}
use logtailr.Cmd.Tailers.{
  Tailing, TailerError, unsupported_type, not_created, created, configured, create_tailer,
}

module _ (lib : Tailing) where
  open lib use {Tailer, Error, new_docker_tailer, new_journalctl_tailer, new_kubernetes_tailer}

  abbrev is_unsupported : Result (TailerError Error) Tailer → Bool
  is_unsupported (ok t) = false
  is_unsupported (err (not_created e)) = false
  is_unsupported (err (unsupported_type k)) = true

  created_supported : (r : Result Error Tailer) → is_unsupported (created lib r) ≡ false
  unfolding created
  created_supported (ok t) = refl
  created_supported (err e) = refl

  configured_supported :
      (src : SourceConfig) (r : Result Error Tailer) → is_unsupported (configured lib src r) ≡ false
  unfolding configured
  configured_supported src (ok t) = refl
  configured_supported src (err e) = refl

  supported :
      (src : SourceConfig)
      → one_of valid_source_types src.kind ≡ true
      → is_unsupported (create_tailer lib src) ≡ false
  unfolding create_tailer valid_source_types
  supported src h = ground (
    arith,
    created_supported (new_docker_tailer src.container src.follow),
    configured_supported src (new_journalctl_tailer src.unit src.follow),
    created_supported (
        new_kubernetes_tailer src.namespace src.pod src.container src.label_selector src.kubeconfig
          src.follow),
  )

  -- A source that passes the checks is never refused for its type.
  pub create_tailer-IsValid :
      (src : SourceConfig) (kind : String)
      → IsValid src
      → create_tailer lib src ≢ err (unsupported_type kind)
  create_tailer-IsValid src kind (_, known, _, _) e =
      let refused : is_unsupported (create_tailer lib src) ≡ true = ap is_unsupported e in
      let known_type = supported src known in ground arith
