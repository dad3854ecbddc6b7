-- ===== src/Parser.antt =====
-- internal/parser/parser.go and helpers.go: what a parser calls, levels, times and taken keys.
pub mod Object
pub mod Logfmt
pub mod Text
pub mod Formats
mod Levels
mod Errors
mod Pairs
mod Tests
use logtailr.Base.{
  ℕ, String, Bool, true, false, not, ◌||◌, Option, none, some, List, [], ◌∷◌, ltb, str_eq,
  if◌then◌else◌, is_some,
}
use logtailr.Base.Dict.{Dict, get, remove}
use logtailr.Base.Int.{ℤ}
use logtailr.Base.Text.{to_lower}
use logtailr.Base.Space.{trim_space, byte_length}
use logtailr.Base.Result.{Result, ok, err}
use logtailr.Logline.{Json, str, num, LogLine, log_levels}

-- What the parsers call of Go's `regexp`, `encoding/json`, `time` and `fmt`: the groups of the
-- matches of the five patterns, the decoder of an object, its inverse, the printer of a float64,
-- time.Parse of a layout, and time.Unix of the whole seconds of a float64.
pub record Library : Type 1 where
  pub logfmt_matches : String → List (String × String × String)
  pub logfmt_count : String → ℕ
  pub bracketed : String → Option (String × String × String)
  pub spaced : String → Option (String × String × String)
  pub level_only : String → Option (String × String)
  pub DecodeError : Type 0
  pub decode : String → Result DecodeError (Dict Json)
  pub marshal : Json → Option String
  pub print_float : ℕ → String
  pub parse_time : String → String → Option ℕ
  pub unix : ℕ → ℕ

-- the field `source` of a `Parser`
pub record Parser : Type 0 where
  pub source : String

pub data ParseError (D : Type 0) : Type 0 where
  empty_line : ParseError D
  invalid_format : ParseError D
  line_too_large : ℕ → ParseError D
  too_many_fields : ℕ → ParseError D
  not_decoded : D → ParseError D

abbrev pub max_line_size : ℕ
max_line_size = 262144

abbrev pub max_fields_count : ℕ
max_fields_count = 100

abbrev pub timestamp_keys : List String
timestamp_keys = "timestamp" ∷ "time" ∷ "ts" ∷ "@timestamp" ∷ "datetime" ∷ []

abbrev pub level_keys : List String
level_keys = "level" ∷ "lvl" ∷ "severity" ∷ "loglevel" ∷ []

abbrev pub message_keys : List String
message_keys = "message" ∷ "msg" ∷ "text" ∷ "log" ∷ []

unfoldable pub level_aliases : String → Option String
unfolding get
level_aliases level =
    get
      (("warning", "warn")
        ∷ ("err", "error")
        ∷ ("crit", "fatal")
        ∷ ("critical", "fatal")
        ∷ ("trace", "debug")
        ∷ ("information", "info")
        ∷ [])
      level

abbrev timestamp_formats : List String
timestamp_formats =
    "2006-01-02T15:04:05Z07:00" ∷ "2006-01-02T15:04:05.999999999Z07:00" ∷ "2006-01-02T15:04:05Z"
    ∷ "2006-01-02T15:04:05" ∷ "2006-01-02 15:04:05" ∷ "02/Jan/2006:15:04:05 -0700"
    ∷ "Jan 02 15:04:05" ∷ []

-- validateLine
unfoldable pub validate_line : {D : Type 0} → String → Result (ParseError D) Unit
validate_line line =
    if str_eq (trim_space line) ""
    then err empty_line
    else (if ltb max_line_size (byte_length line)
        then err (line_too_large (byte_length line))
        else ok tt)

-- the alias that was found, or else the level itself where it is one
unfoldable pub alias_or_level : Option String → String → String
unfolding log_levels
alias_or_level (some alias) level = alias
alias_or_level none level = if is_some (log_levels level) then level else "info"

-- normalizeLevel
unfoldable pub normalize_level : String → String
unfolding alias_or_level
normalize_level text =
    let level = to_lower (trim_space text) in alias_or_level (level_aliases level) level

-- isValidLogLevel
unfoldable pub is_valid_log_level : String → Bool
is_valid_log_level text =
    let level = to_lower (trim_space text) in
    is_some (log_levels level) || is_some (level_aliases level)

-- newLogLine
unfoldable pub new_log_line : Parser → ℕ → LogLine
new_log_line p now = record {
  timestamp = now;
  level = "";
  message = "";
  source = p.source;
  fields = [];
}

module _ (lib : Library) where
  open lib use {marshal, print_float, parse_time, unix, DecodeError}

  abbrev pub Parsed : Type 0
  Parsed = Result (ParseError DecodeError) LogLine

  or_empty : Option String → String
  or_empty none = ""
  or_empty (some s) = s

  -- toString
  unfoldable pub to_string : Json → String
  unfolding or_empty
  to_string (str s) = s
  to_string (num bits) = print_float bits
  to_string value = or_empty (marshal value)

  first_format : List String → String → Option ℕ
  first_format [] s = none
  first_format (format ∷ formats) s =
      let later = first_format formats s in
      elim (parse_time format s) [ some t ↦ some t | none ↦ later ]

  -- parseTimestampString
  unfoldable pub parse_timestamp_string : String → Option ℕ
  unfolding first_format
  parse_timestamp_string text = first_format timestamp_formats (trim_space text)

  -- parseTimestamp
  unfoldable pub parse_timestamp : Json → Option ℕ
  unfolding parse_timestamp_string
  parse_timestamp (str s) = parse_timestamp_string s
  parse_timestamp (num bits) = some (unix bits)
  parse_timestamp value = none

  -- what is done for one key: the time that its value gives, or else the later keys'
  unfoldable pub take_time : String → Dict Json → Option ℕ → ℕ × Dict Json → ℕ × Dict Json
  take_time key raw (some t) later = (t, remove raw key)
  take_time key raw none later = later

  unfoldable pub time_of : Option Json → Option ℕ
  unfolding parse_timestamp
  time_of none = none
  time_of (some value) = parse_timestamp value

  -- extractTimestamp: the time, and the map without its key
  unfoldable pub extract_timestamp : ℕ → Dict Json → List String → ℕ × Dict Json
  unfolding take_time time_of
  extract_timestamp now raw [] = (now, raw)
  extract_timestamp now raw (key ∷ keys) =
      take_time key raw (time_of (get raw key)) (extract_timestamp now raw keys)

  unfoldable pub take_value :
      (Json → String) → String → Dict Json → Option Json → String × Dict Json → String × Dict Json
  take_value f key raw (some value) later = (f value, remove raw key)
  take_value f key raw none later = later

  -- extractLevel
  unfoldable pub extract_level : Dict Json → List String → String × Dict Json
  unfolding take_value normalize_level to_string
  extract_level raw [] = ("info", raw)
  extract_level raw (key ∷ keys) =
      take_value (λ value. normalize_level (to_string value)) key raw (get raw key)
        (extract_level raw keys)

  -- extractMessage
  unfoldable pub extract_message : Dict Json → List String → String × Dict Json
  unfolding take_value to_string
  extract_message raw [] = ("", raw)
  extract_message raw (key ∷ keys) =
      take_value to_string key raw (get raw key) (extract_message raw keys)
