-- ===== src/Cmd/Writers/Tests.antt =====
-- Tries the creation of the writers.
use logtailr.Base.{ℕ, String, ◌≡◌, refl, true, false, none, some, [], ◌∷◌}
use logtailr.Base.Dict.{get, put}
use logtailr.Base.Int.{pos}
use logtailr.Base.Text.{to_upper, has_prefix, decimal}
use logtailr.Base.Result.{ok, err}
use logtailr.Logline.{level_of}
use logtailr.Config.{FileOutputConfig, OutputsConfig}
use logtailr.Config.ByteSize.{parse_byte_size}
use logtailr.Config.Samples.{checkers}
use logtailr.Config.Outputs.{validate_outputs_config}
use logtailr.Output.File.{FileWriter, new_file_writer}
use logtailr.Output.OpenSearch.{Cluster, accepted}
use logtailr.Output.Webhook.{Network, new_webhook_writer, batch_too_large}
use logtailr.Cmd.Writers.{
  Opening, Flags, Created, console_writer, file_writer, multi, webhook_refused, create_writer,
  file_opts_from_output_config,
}
use logtailr.Cmd.Writers.Asked.{kinds, asked, kinds-create_writer}
use logtailr.Cmd.Writers.Applied.{setting, validate_outputs_config-new_file_writer}

abbrev webhook_network : Network
webhook_network = record {
  State = ℕ;
  Error = String;
  marshal = λ p. ok p.text;
  post = λ cancelled url body s. (ok 200, s);
  parse_duration = λ text. err "duration";
  format_time = decimal;
}

abbrev cluster : Cluster
cluster = record {
  Doc = String;
  Error = String;
  State = ℕ;
  marshal = λ line. ok line.message;
  post = λ docs s. (accepted, s);
  wait = λ d s. (false, s);
  parse_duration = λ text. err "duration";
}

abbrev opening : Opening
opening = record {
  absolute = λ path. some path;
  is_dir_missing = λ path. false;
  open_fails = λ path. false;
  stat_fails = λ path. false;
}

abbrev flags : Flags
flags = record { output = "console"; output_path = "" }

abbrev file_config : FileOutputConfig
file_config = record { path = "out"; max_size = "10KB"; max_age = "5m"; compress = true }

abbrev outputs : OutputsConfig
outputs = record { open_search = none; webhook = none; file = some file_config }

abbrev fw : FileWriter
fw = record {
  path = "out";
  is_open = true;
  size = 0;
  max_size = pos 10240;
  max_age = pos 300000000000;
  compress = true;
}

abbrev created : Created checkers webhook_network cluster
created = multi (console_writer ∷ file_writer fw ∷ [])

creation :
    (create_writer checkers webhook_network cluster opening flags (some outputs) []).0 ≡ ok created
unfolding create_writer file_opts_from_output_config new_file_writer parse_byte_size to_upper
    decimal get put
creation = refl

file_created :
    (new_file_writer
      (some "out")
      false
      false
      false
      (file_opts_from_output_config checkers webhook_network cluster file_config)
      []).0
    ≡ ok fw
unfolding file_opts_from_output_config new_file_writer parse_byte_size to_upper decimal get put
file_created = refl

validated : validate_outputs_config checkers outputs false ≡ ok tt
unfolding validate_outputs_config parse_byte_size to_upper decimal
validated = refl

abbrev large_batches : OutputsConfig
large_batches = record {
  open_search = none;
  webhook = some (record {
    enabled = true;
    url = "http://localhost";
    min_level = "";
    batch_size = pos 101;
    batch_timeout = "";
  });
  file = none;
}

-- the checks pass a size of batches that the writer refuses
size_unchecked :
    (validate_outputs_config checkers large_batches true ≡ ok tt)
    × ((create_writer checkers webhook_network cluster opening flags (some large_batches) []).0
        ≡ err (webhook_refused batch_too_large))
unfolding validate_outputs_config create_writer new_webhook_writer has_prefix level_of
size_unchecked = (refl, refl)

kinds-create_writer_example :
    kinds checkers webhook_network cluster created ≡ asked flags (some outputs)
kinds-create_writer_example =
    kinds-create_writer checkers webhook_network cluster opening flags (some outputs) [] created
      creation

validate_outputs_config-new_file_writer_example :
    (setting "10KB" (parse_byte_size "10KB") ≡ ok (pos 10240))
    × (setting "5m" (checkers.parse_duration "5m") ≡ ok (pos 300000000000))
    × (true ≡ true)
validate_outputs_config-new_file_writer_example =
    validate_outputs_config-new_file_writer checkers webhook_network cluster outputs false
      file_config (some "out") false false false [] fw validated refl file_created
