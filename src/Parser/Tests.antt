-- ===== src/Parser/Tests.antt =====
-- Tries the parsers on a line of each format.
use logtailr.Base.{String, ◌≡◌, refl, none, some, [], ◌∷◌, str_eq, if◌then◌else◌}
use logtailr.Base.Dict.{Dict, put, remove}
use logtailr.Base.Text.{to_lower, has_prefix}
use logtailr.Base.Space.{trim_space, byte_length, from_first, has_letter}
use logtailr.Base.Result.{ok, err}
use logtailr.Logline.{Json, str, LogLine}
use logtailr.Parser.{Library, Parser, empty_line, validate_line, normalize_level, level_aliases}
use logtailr.Parser.Object.{parse_json, json_part}
use logtailr.Parser.Logfmt.{parse_logfmt, parse_logfmt_pairs}
use logtailr.Parser.Formats.{parse}
use logtailr.Parser.Levels.{IsLevel, parse-IsLevel}
use logtailr.Parser.Errors.{parse_err}
use logtailr.Parser.Pairs.{as_strings, parse_json-parse_logfmt}

abbrev pairs_line : String
pairs_line = "level=ERR msg=\"no disk\" disk=sda"

abbrev object_line : String
object_line = "app: {\"level\":\"ERR\",\"msg\":\"no disk\",\"disk\":\"sda\"}"

abbrev members : Dict Json
members = ("level", str "ERR") ∷ ("msg", str "no disk") ∷ ("disk", str "sda") ∷ []

-- patterns and a decoder that know the lines of the tests
abbrev sample : Library
sample = record {
  logfmt_matches = λ line.
      if str_eq line pairs_line
      then ("level", "", "ERR") ∷ ("msg", "no disk", "") ∷ ("disk", "", "sda") ∷ []
      else [];
  logfmt_count = λ line. if str_eq line pairs_line then 3 else 0;
  bracketed = λ line. none;
  spaced = λ line.
      if str_eq line "2024-01-15T10:30:00Z WARN low"
      then some ("2024-01-15T10:30:00Z", "WARN", "low")
      else none;
  level_only = λ line. if str_eq line "Started it" then some ("Started", "it") else none;
  DecodeError = Unit;
  decode = λ text.
      if str_eq text "{\"level\":\"ERR\",\"msg\":\"no disk\",\"disk\":\"sda\"}"
      then ok members
      else err tt;
  marshal = λ value. none;
  print_float = λ bits. "";
  parse_time = λ format text. if str_eq text "2024-01-15T10:30:00Z" then some 1705314600 else none;
  unix = λ bits. bits;
}

abbrev app : Parser
app = record { source = "app" }

abbrev disk_line : LogLine
disk_line = record {
  timestamp = 7;
  level = "error";
  message = "no disk";
  source = "app";
  fields = ("disk", str "sda") ∷ [];
}

abbrev started_line : LogLine
started_line = record {
  timestamp = 7;
  level = "info";
  message = "Started it";
  source = "app";
  fields = [];
}

abbrev low_line : LogLine
low_line = record {
  timestamp = 1705314600;
  level = "warn";
  message = "low";
  source = "app";
  fields = [];
}

lines :
    (parse sample app 7 pairs_line "" ≡ ok disk_line)
    × (parse sample app 7 object_line "" ≡ ok disk_line)
    × (parse sample app 7 " Started it\n" "text" ≡ ok started_line)
    × (parse sample app 7 "2024-01-15T10:30:00Z WARN low" "auto" ≡ ok low_line)
    × (parse sample app 7 "  " "json" ≡ err empty_line)
unfolding parse trim_space byte_length has_letter put level_aliases remove to_lower has_prefix
    from_first
lines = (refl, refl, refl, refl, refl)

levels : (normalize_level " Critical" ≡ "fatal") × (normalize_level "notice" ≡ "info")
unfolding normalize_level level_aliases to_lower trim_space
levels = (refl, refl)

parsed_pairs : parse sample app 7 pairs_line "" ≡ ok disk_line
unfolding parse trim_space byte_length has_letter put level_aliases remove to_lower has_prefix
    from_first
parsed_pairs = refl

parse-IsLevel_example : IsLevel "error"
parse-IsLevel_example = parse-IsLevel sample app 7 pairs_line "" disk_line parsed_pairs

refused_blank : parse sample app 7 " \t" "text" ≡ err empty_line
unfolding parse trim_space byte_length has_letter put level_aliases remove to_lower has_prefix
    from_first
refused_blank = refl

parse_err_example : validate_line {D = Unit} (trim_space " \t") ≡ err empty_line
parse_err_example = parse_err sample app 7 " \t" "text" empty_line refl refl refused_blank

accepted :
    (validate_line {D = Unit} pairs_line ≡ ok tt) × (validate_line {D = Unit} object_line ≡ ok tt)
unfolding validate_line trim_space byte_length
accepted = (refl, refl)

decoded_part :
    json_part sample object_line ≡ ok "{\"level\":\"ERR\",\"msg\":\"no disk\",\"disk\":\"sda\"}"
unfolding json_part trim_space has_prefix has_letter from_first
decoded_part = refl

decoded_pairs :
    sample.decode "{\"level\":\"ERR\",\"msg\":\"no disk\",\"disk\":\"sda\"}"
    ≡ ok (as_strings (parse_logfmt_pairs sample pairs_line))
unfolding as_strings parse_logfmt_pairs put
decoded_pairs = refl

parse_json-parse_logfmt_example :
    parse_json sample app 7 object_line ≡ parse_logfmt sample app 7 pairs_line
parse_json-parse_logfmt_example =
    parse_json-parse_logfmt sample app 7 pairs_line object_line
      "{\"level\":\"ERR\",\"msg\":\"no disk\",\"disk\":\"sda\"}" accepted.0 accepted.1 decoded_part
      decoded_pairs
