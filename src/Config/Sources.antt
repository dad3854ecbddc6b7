-- ===== src/Config/Sources.antt =====
-- internal/config/config.go: the checks of the sources.
pub mod Checked
use logtailr.Base.Space.{byte_length}
use logtailr.Base.{
  ℕ, ◌+◌, String, Bool, true, false, not, ◌||◌, ◌&&◌, Option, none, some, List, [], ◌∷◌, ltb,
  if◌then◌else◌, str_eq, is_some,
}
use logtailr.Base.Text.{to_lower}
use logtailr.Base.Result.{Result, ok, err, ◌>>◌}
use logtailr.Config.{SourceConfig, Checkers, check, one_of}

pub data SourceError (S : Type 0) : Type 0 where
  missing_name : ℕ → SourceError S
  duplicate_name : String → SourceError S
  invalid_type : String → String → SourceError S
  missing_path : String → SourceError S
  missing_container : String → SourceError S
  missing_unit : String → SourceError S
  missing_pod : String → SourceError S
  pod_and_selector : String → SourceError S
  empty_selector : SourceError S
  selector_too_long : SourceError S
  invalid_selector : String → SourceError S
  invalid_kubeconfig : String → S → SourceError S
  misplaced_priority : String → SourceError S
  invalid_priority : String → String → SourceError S
  misplaced_output_format : String → SourceError S
  invalid_output_format : String → String → SourceError S
  misplaced_namespace : String → SourceError S
  misplaced_selector : String → SourceError S
  misplaced_kubeconfig : String → SourceError S
  invalid_parser : String → String → SourceError S

unfoldable pub valid_source_types : List String
valid_source_types = "file" ∷ "docker" ∷ "journalctl" ∷ "stdin" ∷ "kubernetes" ∷ []

unfoldable pub valid_parsers : List String
valid_parsers = "json" ∷ "logfmt" ∷ "text" ∷ "" ∷ []

-- the keys of JournalctlPriorities
unfoldable pub journalctl_priorities : List String
journalctl_priorities =
    "emerg" ∷ "alert" ∷ "crit" ∷ "err" ∷ "warning" ∷ "notice" ∷ "info" ∷ "debug" ∷ []

abbrev is_set : String → Bool
is_set s = not (str_eq s "")

module _ (lib : Checkers) where
  open lib use {StatError, stat, matches_selector}

  unfoldable pub validate_label_selector : String → Result (SourceError StatError) Unit
  validate_label_selector s =
      check (str_eq s "") empty_selector
      >> check (ltb 1024 (byte_length s)) selector_too_long
      >> check (not (matches_selector s)) (invalid_selector s)

  check_stat : String → Option StatError → Result (SourceError StatError) Unit
  check_stat name none = ok tt
  check_stat name (some e) = err (invalid_kubeconfig name e)

  -- what a Kubernetes source wants
  check_kubernetes : SourceConfig → Result (SourceError StatError) Unit
  unfolding validate_label_selector check_stat
  check_kubernetes src =
      check (str_eq src.pod "" && str_eq src.label_selector "") (missing_pod src.name)
      >> check (is_set src.pod && is_set src.label_selector) (pod_and_selector src.name)
      >> (if is_set src.label_selector then validate_label_selector src.label_selector else ok tt)
      >> (if is_set src.kubeconfig then check_stat src.name (stat src.kubeconfig) else ok tt)

  check_journalctl : SourceConfig → Result (SourceError StatError) Unit
  unfolding journalctl_priorities
  check_journalctl src =
      check (is_set src.priority && not (str_eq src.kind "journalctl"))
        (misplaced_priority src.name)
      >> check (is_set src.priority && not (one_of journalctl_priorities (to_lower src.priority)))
          (invalid_priority src.name src.priority)
      >> check (is_set src.output_format && not (str_eq src.kind "journalctl"))
          (misplaced_output_format src.name)
      >> check (is_set src.output_format && not (str_eq src.output_format "json"))
          (invalid_output_format src.name src.output_format)

  check_required : SourceConfig → Result (SourceError StatError) Unit
  unfolding check_kubernetes
  check_required src =
      check (str_eq src.kind "file" && str_eq src.path "") (missing_path src.name)
      >> check (str_eq src.kind "docker" && str_eq src.container "") (missing_container src.name)
      >> check (str_eq src.kind "journalctl" && str_eq src.unit "") (missing_unit src.name)
      >> (if str_eq src.kind "kubernetes" then check_kubernetes src else ok tt)

  check_misplaced : SourceConfig → Result (SourceError StatError) Unit
  check_misplaced src =
      let elsewhere = not (str_eq src.kind "kubernetes") in
      check (is_set src.namespace && elsewhere) (misplaced_namespace src.name)
      >> check (is_set src.label_selector && elsewhere) (misplaced_selector src.name)
      >> check (is_set src.kubeconfig && elsewhere) (misplaced_kubeconfig src.name)

  -- the body of the loop of ValidateConfig over the sources
  unfoldable pub validate_source :
      ℕ → List String → SourceConfig → Result (SourceError StatError) Unit
  unfolding check_required check_journalctl check_misplaced valid_source_types valid_parsers
  validate_source i seen src =
      check (str_eq src.name "") (missing_name i)
      >> check (one_of seen src.name) (duplicate_name src.name)
      >> check (not (one_of valid_source_types src.kind)) (invalid_type src.name src.kind)
      >> check_required src
      >> check_journalctl src
      >> check_misplaced src
      >> check (not (one_of valid_parsers src.parser)) (invalid_parser src.name src.parser)

  unfoldable pub validate_sources :
      ℕ → List String → List SourceConfig → Result (SourceError StatError) Unit
  unfolding validate_source
  validate_sources i seen [] = ok tt
  validate_sources i seen (src ∷ rest) =
      validate_source i seen src >> validate_sources (i + 1) (src.name ∷ seen) rest
