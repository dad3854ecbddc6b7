-- ===== src/Config/Codec.antt =====
-- What internal/config/loader.go relies on outside the source: encoding/json on the values that it
-- stores, the JSONB columns and the collation of the database.
use logtailr.Logline.{Json}
use logtailr.Base.{String, Bool}
use logtailr.Base.Result.{Result}
use logtailr.Store.{StoreError}
use logtailr.Config.{OpenSearchOutputConfig, WebhookOutputConfig, FileOutputConfig}

-- A JSON text is given by its value. `jsonb` is the value that a JSONB column gives back of one, `before` the
-- order of names, and `reserves_window` says whether the database reserves the word `window`.
pub record Codec : Type 1 where
  pub Error : Type 0
  pub encode_open_search : OpenSearchOutputConfig → Result Error Json
  pub decode_open_search : Json → Result Error OpenSearchOutputConfig
  pub encode_webhook : WebhookOutputConfig → Result Error Json
  pub decode_webhook : Json → Result Error WebhookOutputConfig
  pub encode_file : FileOutputConfig → Result Error Json
  pub decode_file : Json → Result Error FileOutputConfig
  pub encode_string : String → Result Error Json
  pub decode_string : Json → Result Error String
  pub encode_bool : Bool → Result Error Json
  pub decode_bool : Json → Result Error Bool
  pub jsonb : Json → Json
  pub before : String → String → Bool
  pub reserves_window : Bool

pub data LoaderError (E : Type 0) : Type 0 where
  stored : StoreError → LoaderError E
  coded : E → LoaderError E
