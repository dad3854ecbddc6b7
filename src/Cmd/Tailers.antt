-- ===== src/Cmd/Tailers.antt =====
-- cmd/tailer_manager.go and createTailer of cmd/tail.go: the tailers that run.
pub mod Reconcile
pub mod Create
mod Running
mod Tests
use logtailr.Base.{
  String, Bool, true, false, not, ◌||◌, Option, none, some, is_some, List, [], ◌∷◌, ◌++◌, map,
  if◌then◌else◌, str_eq,
}
use logtailr.Base.Dict.{Dict, get, put, remove}
use logtailr.Base.Result.{Result, ok, err}
use logtailr.Config.{SourceConfig}

-- The constructors of internal/tailer. `start` and `stop` are what the calls do to a tailer.
pub record Tailing : Type 1 where
  pub Tailer : Type 0
  pub Error : Type 0
  pub new_file_tailer : String → Bool → Tailer
  pub new_docker_tailer : String → Bool → Result Error Tailer
  pub new_journalctl_tailer : String → Bool → Result Error Tailer
  pub with_priority : String → Tailer → Tailer
  pub with_output_format : String → Tailer → Tailer
  pub new_kubernetes_tailer :
      String → String → String → String → String → Bool → Result Error Tailer
  pub new_stdin_tailer : Tailer
  pub start : Tailer → Tailer
  pub stop : Tailer → Tailer

pub data TailerError (E : Type 0) : Type 0 where
  not_created : E → TailerError E
  unsupported_type : String → TailerError E

differs : String → String → Bool
differs a b = not (str_eq a b)

same_flag : Bool → Bool → Bool
same_flag true b = b
same_flag false b = not b

-- sourceChanged
unfoldable pub source_changed : SourceConfig → SourceConfig → Bool
unfolding differs same_flag
source_changed old new =
    differs old.kind new.kind
    || differs old.path new.path
    || differs old.container new.container
    || differs old.unit new.unit
    || not (same_flag old.follow new.follow)
    || differs old.parser new.parser
    || differs old.namespace new.namespace
    || differs old.pod new.pod
    || differs old.label_selector new.label_selector
    || differs old.kubeconfig new.kubeconfig
    || differs old.priority new.priority
    || differs old.output_format new.output_format

-- the map of the new configuration, by the names
unfoldable pub by_name : List SourceConfig → Dict SourceConfig → Dict SourceConfig
by_name [] d = d
by_name (s ∷ ss) d = by_name ss (put d s.name s)

module _ (lib : Tailing) where
  open lib use {
    Tailer, Error, new_file_tailer, new_docker_tailer, new_journalctl_tailer, with_priority,
    with_output_format, new_kubernetes_tailer, new_stdin_tailer, start, stop,
  }

  -- `retired` are the tailers that were stopped, in the order of the calls
  pub record TailerManager : Type 0 where
    pub tailers : Dict Tailer
    pub sources : Dict SourceConfig
    pub retired : List Tailer
    pub stopped : Bool

  unfoldable pub new_tailer_manager : TailerManager
  new_tailer_manager = record { tailers = []; sources = []; retired = []; stopped = false }

  created : Result Error Tailer → Result (TailerError Error) Tailer
  created (ok t) = ok t
  created (err e) = err (not_created e)

  configured : SourceConfig → Result Error Tailer → Result (TailerError Error) Tailer
  configured src (err e) = err (not_created e)
  configured src (ok t) =
      let t' = if str_eq src.priority "" then t else with_priority src.priority t in
      ok (if str_eq src.output_format "" then t' else with_output_format src.output_format t')

  unfoldable pub create_tailer : SourceConfig → Result (TailerError Error) Tailer
  unfolding created configured
  create_tailer src =
      if str_eq src.kind "file"
      then ok (new_file_tailer src.path src.follow)
      else if str_eq src.kind "docker"
      then created (new_docker_tailer src.container src.follow)
      else if str_eq src.kind "journalctl"
      then configured src (new_journalctl_tailer src.unit src.follow)
      else if str_eq src.kind "kubernetes"
      then created (
          new_kubernetes_tailer src.namespace src.pod src.container src.label_selector
            src.kubeconfig src.follow)
      else if str_eq src.kind "stdin"
      then ok new_stdin_tailer
      else err (unsupported_type src.kind)

  add_created :
      SourceConfig
      → Result (TailerError Error) Tailer
      → TailerManager
      → Option (TailerError Error) × TailerManager
  add_created src (err e) m = (some e, m)
  add_created src (ok t) m = (
    none,
    record m { tailers = put m.tailers src.name (start t); sources = put m.sources src.name src },
  )

  -- Add
  unfoldable pub add_source :
      SourceConfig → TailerManager → Option (TailerError Error) × TailerManager
  unfolding add_created create_tailer
  add_source src m = add_created src (create_tailer src) m

  remove_found : String → Option Tailer → TailerManager → TailerManager
  remove_found name none m = m
  remove_found name (some t) m = record m {
    tailers = remove m.tailers name;
    sources = remove m.sources name;
    retired = m.retired ++ stop t ∷ [];
  }

  -- Remove
  unfoldable pub remove_source : String → TailerManager → TailerManager
  unfolding remove_found
  remove_source name m = remove_found name (get m.tailers name) m

  values : Dict Tailer → List Tailer
  values [] = []
  values ((k, t) ∷ d) = t ∷ values d

  -- StopAll
  unfoldable pub stop_all : TailerManager → TailerManager
  unfolding values
  stop_all m = record m {
    tailers = [];
    sources = [];
    retired = m.retired ++ map stop (values m.tailers);
    stopped = true;
  }

  -- the loop that removes the tailers that are no longer configured
  unfoldable pub remove_missing :
      Dict SourceConfig → Dict SourceConfig → TailerManager → TailerManager
  unfolding remove_source
  remove_missing [] wanted m = m
  remove_missing ((name, src) ∷ current) wanted m =
      let m' = if is_some (get wanted name) then m else remove_source name m in
      remove_missing current wanted m'

  -- one name of the new configuration: a new source is added, a changed one is restarted
  unfoldable pub visit : SourceConfig → Option SourceConfig → TailerManager → TailerManager
  unfolding add_source remove_source
  visit src none m = (add_source src m).1
  visit src (some old) m =
      if source_changed old src then (add_source src (remove_source src.name m)).1 else m

  unfoldable pub visit_all : Dict SourceConfig → Dict SourceConfig → TailerManager → TailerManager
  unfolding visit
  visit_all [] current m = m
  visit_all ((name, src) ∷ wanted) current m =
      visit_all wanted current (visit src (get current name) m)

  -- Reconcile; Go visits the names of a map in any order, here it is that of the configuration
  unfoldable pub reconcile : List SourceConfig → TailerManager → TailerManager
  unfolding by_name remove_missing visit_all
  reconcile new_sources m =
      let wanted = by_name new_sources [] in
      visit_all wanted m.sources (remove_missing m.sources wanted m)
