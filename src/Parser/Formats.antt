-- ===== src/Parser/Formats.antt =====
-- internal/parser/parser.go: Parse and AutoDetect.
use logtailr.Base.{ℕ, String, Bool, true, false, str_eq, if◌then◌else◌}
use logtailr.Base.Space.{trim_space, has_letter}
use logtailr.Base.Result.{ok, err, ◌>>◌}
use logtailr.Parser.{Library, Parser, empty_line, validate_line, Parsed}
use logtailr.Parser.Object.{parse_json}
use logtailr.Parser.Logfmt.{parse_logfmt, is_logfmt}
use logtailr.Parser.Text.{parse_text}

module _ (lib : Library) where
  -- a parser that fails leaves the line to the next one
  unfoldable pub first_ok : Bool → Parsed lib → Parsed lib → Parsed lib
  first_ok false r next = next
  first_ok true (ok ll) next = ok ll
  first_ok true (err e) next = next

  -- AutoDetect
  unfoldable pub auto_detect : Parser → ℕ → String → Parsed lib
  unfolding validate_line first_ok parse_json parse_logfmt parse_text is_logfmt
  auto_detect p now line =
      validate_line line
      >> first_ok (has_letter "{" line) (parse_json lib p now line)
          (first_ok (is_logfmt lib line) (parse_logfmt lib p now line) (parse_text lib p now line))

  -- Parse
  unfoldable pub parse : Parser → ℕ → String → String → Parsed lib
  unfolding parse_json parse_logfmt parse_text auto_detect
  parse p now text format =
      let line = trim_space text in
      if str_eq line ""
      then err empty_line
      else (if str_eq format "json"
          then parse_json lib p now line
          else (if str_eq format "logfmt"
              then parse_logfmt lib p now line
              else (if str_eq format "text"
                  then parse_text lib p now line
                  else auto_detect p now line)))
