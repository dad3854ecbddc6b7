-- ===== src/Parser/Text.antt =====
-- internal/parser/text.go: ParseText.
use logtailr.Base.{ℕ, String, Option, none, some, if◌then◌else◌}
use logtailr.Base.Text.{to_lower}
use logtailr.Base.Space.{trim_space}
use logtailr.Base.Result.{ok, ◌>>◌}
use logtailr.Logline.{LogLine}
use logtailr.Parser.{
  Library, Parser, validate_line, normalize_level, is_valid_log_level, parse_timestamp_string,
  new_log_line, Parsed,
}

module _ (lib : Library) where
  open lib use {bracketed, spaced, level_only}

  unfoldable pub stamped : Option ℕ → LogLine → LogLine
  stamped none ll = ll
  stamped (some t) ll = record ll { timestamp = t }

  unfoldable pub with_groups : Option (String × String × String) → LogLine → Option LogLine
  unfolding stamped parse_timestamp_string normalize_level
  with_groups none ll = none
  with_groups (some (time, level, message)) ll =
      some (record (stamped (parse_timestamp_string lib time) ll) {
        level = normalize_level level;
        message = trim_space message;
      })

  unfoldable pub or_else : Option LogLine → Option LogLine → Option LogLine
  or_else (some ll) other = some ll
  or_else none other = other

  -- parseWithTimestampPatterns
  unfoldable pub parse_with_timestamp_patterns : String → LogLine → Option LogLine
  unfolding with_groups or_else
  parse_with_timestamp_patterns line ll =
      or_else (with_groups (bracketed line) ll) (with_groups (spaced line) ll)

  unfoldable pub with_level : Option (String × String) → LogLine → Option LogLine
  unfolding normalize_level is_valid_log_level
  with_level none ll = none
  with_level (some (level, message)) ll =
      if is_valid_log_level (to_lower (trim_space level))
      then some (record ll { level = normalize_level level; message = trim_space message })
      else none

  -- parseLevelOnly
  unfoldable pub parse_level_only : String → LogLine → Option LogLine
  unfolding with_level
  parse_level_only line ll = with_level (level_only line) ll

  unfoldable pub or_line : Option LogLine → LogLine → LogLine
  or_line (some ll) other = ll
  or_line none other = other

  -- ParseText
  unfoldable pub parse_text : Parser → ℕ → String → Parsed lib
  unfolding validate_line new_log_line parse_with_timestamp_patterns parse_level_only or_else
      or_line
  parse_text p now line =
      let ll = new_log_line p now in
      validate_line line
      >> ok (
          or_line (or_else (parse_with_timestamp_patterns line ll) (parse_level_only line ll))
            (record ll { level = "info"; message = line }))
