-- ===== src/Config/Outputs.antt =====
-- internal/config/config.go: the checks of the outputs.
use logtailr.Base.{
  String, Bool, not, ◌&&◌, Option, none, some, List, [], ◌∷◌, leb, if◌then◌else◌, str_eq, is_some,
  length,
}
use logtailr.Base.Result.{Result, ok, err, ◌>>◌}
use logtailr.Logline.{level_of}
use logtailr.Ssrf.{UrlError, validate_external_url}
use logtailr.Config.{
  OpenSearchOutputConfig, WebhookOutputConfig, FileOutputConfig, OutputsConfig, Checkers, check,
}
use logtailr.Config.ByteSize.{SizeError, parse_byte_size}

pub data OutputError (D E I : Type 0) : Type 0 where
  no_hosts : OutputError D E I
  no_index : OutputError D E I
  invalid_host : String → UrlError E I → OutputError D E I
  no_path : OutputError D E I
  invalid_max_size : SizeError → OutputError D E I
  invalid_max_age : D → OutputError D E I
  no_url : OutputError D E I
  invalid_webhook_url : UrlError E I → OutputError D E I
  invalid_min_level : String → OutputError D E I

module _ (lib : Checkers) where
  open lib use {DurationError, parse_duration, network.{Error as NetworkError, Ip}}

  abbrev pub Failure : Type 0
  Failure = OutputError DurationError NetworkError Ip

  abbrev pub rethrow : {E A : Type 0} → (E → Failure) → Result E A → Result Failure Unit
  rethrow f (ok a) = ok tt
  rethrow f (err e) = err (f e)

  check_hosts : List String → Result Failure Unit
  check_hosts [] = ok tt
  check_hosts (h ∷ hs) =
      rethrow (invalid_host h) (validate_external_url lib.network h) >> check_hosts hs

  check_open_search : Bool → Option OpenSearchOutputConfig → Result Failure Unit
  unfolding check_hosts
  check_open_search allow_local none = ok tt
  check_open_search allow_local (some c) =
      if c.enabled
      then (check (leb (length c.hosts) 0) no_hosts
          >> check (str_eq c.index "") no_index
          >> (if allow_local then ok tt else check_hosts c.hosts))
      else ok tt

  unfoldable pub check_file : Option FileOutputConfig → Result Failure Unit
  unfolding parse_byte_size
  check_file none = ok tt
  check_file (some c) =
      check (str_eq c.path "") no_path
      >> (if str_eq c.max_size ""
          then ok tt
          else rethrow invalid_max_size (parse_byte_size c.max_size))
      >> (if str_eq c.max_age "" then ok tt else rethrow invalid_max_age (parse_duration c.max_age))

  check_webhook : Bool → Option WebhookOutputConfig → Result Failure Unit
  check_webhook allow_local none = ok tt
  check_webhook allow_local (some c) =
      if c.enabled
      then (check (str_eq c.url "") no_url
          >> (if allow_local
              then ok tt
              else rethrow invalid_webhook_url (validate_external_url lib.network c.url))
          >> check (not (str_eq c.min_level "") && not (is_some (level_of c.min_level)))
              (invalid_min_level c.min_level))
      else ok tt

  unfoldable pub validate_outputs_config : OutputsConfig → Bool → Result Failure Unit
  unfolding check_open_search check_file check_webhook
  validate_outputs_config outputs allow_local =
      check_open_search allow_local outputs.open_search
      >> check_file outputs.file
      >> check_webhook allow_local outputs.webhook
