-- ===== src/Parser/Object.antt =====
-- internal/parser/json.go: ParseJSON.
use logtailr.Base.{ℕ, String, ltb, if◌then◌else◌, length}
use logtailr.Base.Dict.{Dict}
use logtailr.Base.Text.{has_prefix}
use logtailr.Base.Space.{trim_space, from_first, has_letter}
use logtailr.Base.Result.{Result, ok, err, ◌>>=◌, ◌>>◌}
use logtailr.Logline.{Json, LogLine}
use logtailr.Parser.{
  Library, Parser, ParseError, invalid_format, too_many_fields, not_decoded, max_fields_count,
  timestamp_keys, level_keys, message_keys, validate_line, extract_timestamp, extract_level,
  extract_message, new_log_line, Parsed,
}

module _ (lib : Library) where
  open lib use {DecodeError, decode}

  -- the part of a line that is decoded: the line, or what follows the first brace
  unfoldable pub json_part : String → Result (ParseError DecodeError) String
  json_part line =
      if has_prefix (trim_space line) "{"
      then ok line
      else (if has_letter "{" line then ok (from_first "{" line) else err invalid_format)

  -- the log line of a decoded object
  unfoldable pub line_of : Parser → ℕ → Dict Json → LogLine
  unfolding new_log_line extract_timestamp extract_level extract_message
  line_of p now raw =
      let (t, raw1) = extract_timestamp lib now raw timestamp_keys in
      let (l, raw2) = extract_level lib raw1 level_keys in
      let (m, raw3) = extract_message lib raw2 message_keys in
      record (new_log_line p now) { timestamp = t; level = l; message = m; fields = raw3 }

  unfoldable pub with_object : Parser → ℕ → Result DecodeError (Dict Json) → Parsed lib
  unfolding line_of
  with_object p now (err e) = err (not_decoded e)
  with_object p now (ok raw) =
      if ltb max_fields_count (length raw)
      then err (too_many_fields (length raw))
      else ok (line_of p now raw)

  -- ParseJSON
  unfoldable pub parse_json : Parser → ℕ → String → Parsed lib
  unfolding validate_line json_part with_object
  parse_json p now line =
      validate_line line >> (json_part line >>= λ text. with_object p now (decode text))
