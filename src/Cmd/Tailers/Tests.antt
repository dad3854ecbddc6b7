-- ===== src/Cmd/Tailers/Tests.antt =====
-- The theorems about cmd/tailer_manager.go, tried on a manager with one source.
use logtailr.Base.{String, ◌≡◌, refl, false, some, [], ◌∷◌, arith}
use logtailr.Base.Dict.{get, put}
use logtailr.Base.Result.{ok, err}
use logtailr.Aggregator.{◌⊕◌}
use logtailr.Config.{SourceConfig}
use logtailr.Config.Samples.{file_source, pod_source}
use logtailr.Cmd.Tailers.{Tailing, TailerManager, create_tailer, by_name, reconcile, source_changed}
use logtailr.Cmd.Tailers.Reconcile.{Paired, target, wanted_for}
use logtailr.Cmd.Tailers.Running.{tailer_target, missing, changed, tailers-reconcile}

-- tailers are texts that say what they read; no pod can be read
abbrev sample_tailing : Tailing
sample_tailing = record {
  Tailer = String;
  Error = String;
  new_file_tailer = λ path follow. "file " ⊕ path;
  new_docker_tailer = λ container follow. ok container;
  new_journalctl_tailer = λ unit follow. ok unit;
  with_priority = λ p t. t;
  with_output_format = λ f t. t;
  new_kubernetes_tailer = λ namespace pod container selector kubeconfig follow. err "no cluster";
  new_stdin_tailer = "stdin";
  start = λ t. "started " ⊕ t;
  stop = λ t. "stopped " ⊕ t;
}

abbrev manager : TailerManager sample_tailing
manager = record {
  tailers = ("app", "file /var/log/app.log") ∷ [];
  sources = ("app", file_source) ∷ [];
  retired = [];
  stopped = false;
}

manager-Paired : Paired sample_tailing manager
unfolding get
manager-Paired k = ground arith

abbrev moved_source : SourceConfig
moved_source = record file_source { path = "/srv/app.log" }

tailers-reconcile_example :
    (get (reconcile sample_tailing (moved_source ∷ pod_source ∷ []) manager).sources "app"
      ≡ some moved_source)
    × (get (reconcile sample_tailing (moved_source ∷ pod_source ∷ []) manager).tailers "app"
        ≡ some "started file /srv/app.log")
    × ((reconcile sample_tailing (moved_source ∷ pod_source ∷ []) manager).retired
        ≡ "stopped file /var/log/app.log" ∷ [])
unfolding get put by_name target wanted_for tailer_target missing changed source_changed
    create_tailer
tailers-reconcile_example =
    tailers-reconcile sample_tailing (moved_source ∷ pod_source ∷ []) manager "app" manager-Paired
      (refl, tt)
