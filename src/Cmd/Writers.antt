-- ===== src/Cmd/Writers.antt =====
-- cmd/writers.go: the creation of the writers that a configuration asks for.
mod Asked
mod Applied
mod Tests
use logtailr.Base.{
  String, Bool, not, ◌&&◌, Option, none, some, List, [], ◌∷◌, ◌++◌, if◌then◌else◌, str_eq,
}
use logtailr.Base.Int.{ℤ}
use logtailr.Base.Result.{Result, ok, err}
use logtailr.Config.{
  Checkers, OpenSearchOutputConfig, WebhookOutputConfig, FileOutputConfig, OutputsConfig,
}
use logtailr.Config.ByteSize.{parse_byte_size}
use logtailr.Output.File.{
  Disk, FileWriter, FileError, FileOption, with_max_size, with_max_age, with_compress,
  new_file_writer,
}
use logtailr.Output.OpenSearch.{
  Cluster, OpenSearchConfig, OpenSearchWriter, CreateError, new_open_search_writer,
}
use logtailr.Output.Webhook.{
  Network, WebhookConfig, WebhookWriter, WebhookError, new_webhook_writer,
}

-- what the operating system answers when the file of a path is opened
pub record Opening : Type 0 where
  pub absolute : String → Option String
  pub is_dir_missing : String → Bool
  pub open_fails : String → Bool
  pub stat_fails : String → Bool

-- outputFlag and outputPath
pub record Flags : Type 0 where
  pub output : String
  pub output_path : String

module _ (lib : Checkers) (net : Network) (cluster : Cluster) where
  open lib use {parse_duration}

  pub data Single : Type 0 where
    console_writer : Single
    json_writer : Single
    file_writer : FileWriter → Single
    open_search_writer : OpenSearchWriter cluster → Single
    webhook_writer : WebhookWriter → Single

  pub data Created : Type 0 where
    alone : Single → Created
    multi : List Single → Created

  pub data WriterError : Type 0 where
    file_refused : FileError → WriterError
    open_search_refused : CreateError cluster.Error → WriterError
    webhook_refused : WebhookError net.Error → WriterError

  -- writers that were created, or why one was not
  abbrev pub Step : Type 0
  Step = Result WriterError (List Single) × Disk

  unfoldable pub option_of : {E : Type 0} → (ℤ → FileOption) → Result E ℤ → List FileOption
  option_of f (ok n) = f n ∷ []
  option_of f (err e) = []

  -- fileOptsFromOutputConfig
  unfoldable pub file_opts_from_output_config : FileOutputConfig → List FileOption
  unfolding option_of
  file_opts_from_output_config c =
      (if str_eq c.max_size "" then [] else option_of with_max_size (parse_byte_size c.max_size))
      ++ ((if str_eq c.max_age "" then [] else option_of with_max_age (parse_duration c.max_age))
          ++ (if c.compress then with_compress ∷ [] else []))

  file_opts_of : Option FileOutputConfig → List FileOption
  unfolding file_opts_from_output_config
  file_opts_of none = []
  file_opts_of (some c) = file_opts_from_output_config c

  -- fileOptsFromConfig
  unfoldable pub file_opts_from_config : Option OutputsConfig → List FileOption
  unfolding file_opts_of
  file_opts_from_config none = []
  file_opts_from_config (some outputs) = file_opts_of outputs.file

  unfoldable pub opened : Result FileError FileWriter × Disk → Step
  opened (ok fw, disk) = (ok (file_writer fw ∷ []), disk)
  opened (err e, disk) = (err (file_refused e), disk)

  unfoldable pub open_file : Opening → String → List FileOption → Disk → Step
  unfolding opened new_file_writer
  open_file os path opts disk = opened (
      new_file_writer (os.absolute path) (os.is_dir_missing path) (os.open_fails path)
        (os.stat_fails path) opts disk)

  unfoldable pub primary : Opening → Flags → Option OutputsConfig → Disk → Step
  unfolding open_file file_opts_from_config
  primary os flags outputs disk =
      if str_eq flags.output "json"
      then (ok (json_writer ∷ []), disk)
      else (if str_eq flags.output "file"
          then open_file os flags.output_path (file_opts_from_config outputs) disk
          else (ok (console_writer ∷ []), disk))

  unfoldable pub file_output : Opening → Flags → Option FileOutputConfig → Disk → Step
  unfolding open_file file_opts_from_output_config
  file_output os flags none disk = (ok [], disk)
  file_output os flags (some c) disk =
      if not (str_eq c.path "") && not (str_eq flags.output "file")
      then open_file os c.path (file_opts_from_output_config c) disk
      else (ok [], disk)

  abbrev pub open_search_config : OpenSearchOutputConfig → OpenSearchConfig
  open_search_config c = record {
    hosts = c.hosts;
    index = c.index;
    bulk_size = c.bulk_size;
    flush_interval = c.flush_interval;
    max_retries = c.max_retries;
    template_name = c.template_name;
  }

  unfoldable pub open_search_created :
      Result (CreateError cluster.Error) (OpenSearchWriter cluster)
      → Result WriterError (List Single)
  open_search_created (ok w) = ok (open_search_writer w ∷ [])
  open_search_created (err e) = err (open_search_refused e)

  unfoldable pub open_search_output : Option OpenSearchOutputConfig → Disk → Step
  unfolding open_search_created new_open_search_writer
  open_search_output none disk = (ok [], disk)
  open_search_output (some c) disk = (
    (if c.enabled
        then open_search_created (new_open_search_writer cluster (open_search_config c))
        else ok []),
    disk,
  )

  abbrev pub webhook_config : WebhookOutputConfig → WebhookConfig
  webhook_config c = record {
    url = c.url;
    min_level = c.min_level;
    batch_size = c.batch_size;
    batch_timeout = c.batch_timeout;
  }

  unfoldable pub webhook_created :
      Result (WebhookError net.Error) WebhookWriter → Result WriterError (List Single)
  webhook_created (ok w) = ok (webhook_writer w ∷ [])
  webhook_created (err e) = err (webhook_refused e)

  unfoldable pub webhook_output : Option WebhookOutputConfig → Disk → Step
  unfolding webhook_created new_webhook_writer
  webhook_output none disk = (ok [], disk)
  webhook_output (some c) disk = (
    (if c.enabled then webhook_created (new_webhook_writer net (webhook_config c)) else ok []),
    disk,
  )

  unfoldable pub appended : List Single → Step → Step
  appended ws (err e, disk) = (err e, disk)
  appended ws (ok more, disk) = (ok (ws ++ more), disk)

  -- the writers of a step, and then those of another
  unfoldable pub add : Step → (Disk → Step) → Step
  unfolding appended
  add (err e, disk) next = (err e, disk)
  add (ok ws, disk) next = appended ws (next disk)

  unfoldable pub gathered : List Single → Created
  gathered [] = multi []
  gathered (w ∷ []) = alone w
  gathered (w ∷ v ∷ ws) = multi (w ∷ v ∷ ws)

  unfoldable pub all_gathered : Step → Result WriterError Created × Disk
  unfolding gathered
  all_gathered (err e, disk) = (err e, disk)
  all_gathered (ok ws, disk) = (ok (gathered ws), disk)

  unfoldable pub all_outputs : Opening → Flags → OutputsConfig → Disk → Step
  unfolding primary file_output open_search_output webhook_output add
  all_outputs os flags outputs disk =
      add
        (add (add (primary os flags (some outputs) disk) (λ d. file_output os flags outputs.file d))
          (λ d. open_search_output outputs.open_search d))
        (λ d. webhook_output outputs.webhook d)

  -- createWriter
  unfoldable pub create_writer :
      Opening → Flags → Option OutputsConfig → Disk → Result WriterError Created × Disk
  unfolding primary all_outputs all_gathered
  create_writer os flags none disk = all_gathered (primary os flags none disk)
  create_writer os flags (some outputs) disk = all_gathered (all_outputs os flags outputs disk)
