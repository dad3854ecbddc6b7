-- ===== src/Parser/Errors.antt =====
-- internal/parser: the lines that no format refuses.
use logtailr.Base.{ℕ, String, ◌≡◌, refl, arith, Bool, true, false, str_eq, eq_iff, if◌then◌else◌}
use logtailr.Base.Space.{trim_space, has_letter}
use logtailr.Base.Result.{Result, ok, err, ◌>>◌}
use logtailr.Logline.{LogLine}
use logtailr.Parser.{Library, Parser, ParseError, validate_line, Parsed, empty_line}
use logtailr.Parser.Object.{parse_json}
use logtailr.Parser.Logfmt.{parse_logfmt, is_logfmt}
use logtailr.Parser.Text.{parse_text}
use logtailr.Parser.Formats.{parse, auto_detect, first_ok}

module _ (lib : Library) where
  -- a result that is a line, or else the error of the check
  abbrev OnlyOf : Result (ParseError lib.DecodeError) Unit → Parsed lib → Type 0
  OnlyOf v r = (e : ParseError lib.DecodeError) → r ≡ err e → v ≡ err e

  checked_OnlyOf :
      (v : Result (ParseError lib.DecodeError) Unit) (ll : LogLine) → OnlyOf v (v >> ok ll)
  checked_OnlyOf (ok tt) ll e h = ground arith
  checked_OnlyOf (err d) ll e h = ground arith

  parse_text-OnlyOf :
      (p : Parser) (now : ℕ) (line : String)
      → OnlyOf (validate_line line) (parse_text lib p now line)
  unfolding parse_text
  parse_text-OnlyOf p now line = checked_OnlyOf (validate_line line) _

  first_ok-OnlyOf :
      (v : Result (ParseError lib.DecodeError) Unit) (b : Bool) (r next : Parsed lib)
      → OnlyOf v next
      → OnlyOf v (first_ok lib b r next)
  unfolding first_ok
  first_ok-OnlyOf v false r next h e q = h e q
  first_ok-OnlyOf v true (ok ll) next h e q = ground arith
  first_ok-OnlyOf v true (err d) next h e q = h e q

  guarded_OnlyOf :
      (v : Result (ParseError lib.DecodeError) Unit) (r : Parsed lib)
      → OnlyOf v r
      → OnlyOf v (v >> r)
  guarded_OnlyOf (ok u) r h e q = h e q
  guarded_OnlyOf (err d) r h e q = ground arith

  auto_detect-OnlyOf :
      (p : Parser) (now : ℕ) (line : String)
      → OnlyOf (validate_line line) (auto_detect lib p now line)
  unfolding auto_detect
  auto_detect-OnlyOf p now line = guarded_OnlyOf (validate_line line) _ (
      first_ok-OnlyOf (validate_line line) (has_letter "{" line) (parse_json lib p now line) _ (
        first_ok-OnlyOf (validate_line line) (is_logfmt lib line) (parse_logfmt lib p now line) _
          (parse_text-OnlyOf p now line)))

  chosen_OnlyOf :
      (v : Result (ParseError lib.DecodeError) Unit) (b : Bool) (r next : Parsed lib)
      → (b ≡ true → OnlyOf v r)
      → (b ≡ false → OnlyOf v next)
      → OnlyOf v (if b then r else next)
  chosen_OnlyOf v true r next h h' = h refl
  chosen_OnlyOf v false r next h h' = h' refl

  blank_OnlyOf : (line : String) → line ≡ "" → OnlyOf (validate_line line) (err empty_line)
  unfolding validate_line trim_space
  blank_OnlyOf line blank e q = rw blank (ground arith)

  -- With any format but "json" and "logfmt", Parse fails on no line but those that validateLine
  -- refuses, the empty and the too long ones, and then with its error.
  pub parse_err :
      (p : Parser) (now : ℕ) (text format : String) (e : ParseError lib.DecodeError)
      → str_eq format "json" ≡ false
      → str_eq format "logfmt" ≡ false
      → parse lib p now text format ≡ err e
      → validate_line (trim_space text) ≡ err e
  unfolding parse
  parse_err p now text format e not_json not_logfmt h =
      let line = trim_space text in
      let auto = auto_detect-OnlyOf p now line in
      let plain = parse_text-OnlyOf p now line in
      let no_format =
        λ (b : Bool) (r next : Parsed lib) (o : b ≡ false) (k : OnlyOf (validate_line line) next).
          chosen_OnlyOf (validate_line line) b r next (λ q. ground arith) (λ q. k) in
      chosen_OnlyOf (validate_line line) (str_eq line "") _ _
        (λ q. blank_OnlyOf line ((eq_iff line "").0 q))
        (λ q. no_format (str_eq format "json") _ _ not_json (
          no_format (str_eq format "logfmt") _ _ not_logfmt (
            chosen_OnlyOf (validate_line line) (str_eq format "text") _ _ (λ t. plain)
              (λ t. auto))))
        e h
