-- ===== src/Parser/Levels.antt =====
-- internal/parser: the levels of parsed lines, and when parsing fails.
use logtailr.Base.{
  All, if◌then◌else◌, ℕ, String, ◌≡◌, refl, Bool, true, false, Option, none, some, List, [], ◌∷◌,
  str_eq, arith, is_some, inl, inr, Bool-cases, Option-cases, ltb, length,
}
use mathlib.Core.Option.{some-injective}
use logtailr.Base.Dict.{Dict, get}
use logtailr.Base.Text.{to_lower}
use logtailr.Base.Space.{trim_space, has_letter}
use logtailr.Base.Result.{Result, ok, err, ◌>>=◌}
use logtailr.Logline.{Json, LogLine, log_levels}
use logtailr.Parser.{
  Library, Parser, ParseError, validate_line, normalize_level, level_aliases, alias_or_level,
  extract_level, take_value, extract_timestamp, timestamp_keys, too_many_fields, is_valid_log_level,
  to_string, level_keys, max_fields_count, new_log_line, Parsed,
}
use logtailr.Parser.Object.{parse_json, with_object, json_part, line_of}
use logtailr.Parser.Logfmt.{
  parse_logfmt, parse_logfmt_pairs, line_of_pairs, extract_timestamp_from_pairs,
  extract_level_from_pairs, take_pair, is_logfmt,
}
use logtailr.Parser.Text.{
  parse_text, parse_with_timestamp_patterns, parse_level_only, with_groups, with_level, or_else,
  or_line,
}
use logtailr.Parser.Formats.{parse, auto_detect, first_ok}

-- one of the levels of pkg/logline
abbrev pub IsLevel : String → Type 0
IsLevel level = is_some (log_levels level) ≡ true

get-All :
    (P : String → Type 0) (m : Dict String) (k v : String)
    → All (λ e. P e.1) m
    → get m k ≡ some v
    → P v
unfolding get
get-All P [] k v h e = ground arith
get-All P ((j, w) ∷ m) k v (hw, hs) e = elim (Bool-cases (str_eq j k)) [
  | inl same ↦ let e' : some w ≡ some v = rw same at e in rw (← some-injective w v e') hw
  | inr other ↦ get-All P m k v hs (rw other at e)
]

alias_IsLevel : (level alias : String) → level_aliases level ≡ some alias → IsLevel alias
unfolding level_aliases log_levels get
alias_IsLevel level alias h =
    get-All IsLevel
      (("warning", "warn")
        ∷ ("err", "error")
        ∷ ("crit", "fatal")
        ∷ ("critical", "fatal")
        ∷ ("trace", "debug")
        ∷ ("information", "info")
        ∷ [])
      level alias (refl, (refl, (refl, (refl, (refl, (refl, tt)))))) h

info_IsLevel : IsLevel "info"
unfolding log_levels get
info_IsLevel = refl

alias_or_level-IsLevel :
    (o : Option String) (level : String)
    → ((alias : String) → o ≡ some alias → IsLevel alias)
    → IsLevel (alias_or_level o level)
unfolding alias_or_level
alias_or_level-IsLevel (some alias) level h = h alias refl
alias_or_level-IsLevel none level h = elim (Bool-cases (is_some (log_levels level))) [
  | inl known ↦ rw known known
  | inr unknown ↦ rw unknown info_IsLevel
]

pub normalize_level-IsLevel : (text : String) → IsLevel (normalize_level text)
unfolding normalize_level
normalize_level-IsLevel text =
    let level = to_lower (trim_space text) in
    alias_or_level-IsLevel (level_aliases level) level (alias_IsLevel level)

module _ (lib : Library) where
  -- a parsed line has a level
  abbrev HasLevel : Parsed lib → Type 0
  HasLevel (ok ll) = IsLevel ll.level
  HasLevel (err e) = Unit

  abbrev AllLevels : Option LogLine → Type 0
  AllLevels none = Unit
  AllLevels (some ll) = IsLevel ll.level

  extract_level-IsLevel :
      (raw : Dict Json) (keys : List String) → IsLevel (extract_level lib raw keys).0
  unfolding extract_level take_value
  extract_level-IsLevel raw [] = info_IsLevel
  extract_level-IsLevel raw (key ∷ keys) = elim (Option-cases (get raw key)) [
    | inl absent ↦ rw absent (extract_level-IsLevel raw keys)
    | inr (value, found) ↦ rw found (normalize_level-IsLevel (to_string lib value))
  ]

  extract_level_from_pairs-IsLevel :
      (pairs : Dict String) (keys : List String)
      → IsLevel (extract_level_from_pairs lib pairs keys).0
  unfolding extract_level_from_pairs take_pair
  extract_level_from_pairs-IsLevel pairs [] = info_IsLevel
  extract_level_from_pairs-IsLevel pairs (key ∷ keys) = elim (Option-cases (get pairs key)) [
    | inl absent ↦ rw absent (extract_level_from_pairs-IsLevel pairs keys)
    | inr (value, found) ↦ rw found (normalize_level-IsLevel value)
  ]

  guard_HasLevel :
      {A : Type 0} (m : Result (ParseError lib.DecodeError) A) (k : A → Parsed lib)
      → ((a : A) → HasLevel (k a))
      → HasLevel (m >>= k)
  guard_HasLevel (ok a) k h = h a
  guard_HasLevel (err e) k h = tt

  with_object-HasLevel :
      (p : Parser) (now : ℕ) (r : Result lib.DecodeError (Dict Json))
      → HasLevel (with_object lib p now r)
  unfolding with_object line_of
  with_object-HasLevel p now (err e) = tt
  with_object-HasLevel p now (ok raw) = elim (Bool-cases (ltb max_fields_count (length raw))) [
    | inl many ↦ rw many tt
    | inr few ↦
        rw few (extract_level-IsLevel (extract_timestamp lib now raw timestamp_keys).1 level_keys)
  ]

  parse_json-HasLevel :
      (p : Parser) (now : ℕ) (line : String) → HasLevel (parse_json lib p now line)
  unfolding parse_json
  parse_json-HasLevel p now line = guard_HasLevel (validate_line line) _ λ _.
      guard_HasLevel (json_part lib line) _ λ text. with_object-HasLevel p now (lib.decode text)

  counted_HasLevel :
      (p : Parser) (now : ℕ) (pairs : Dict String)
      → HasLevel (
          if ltb max_fields_count (length pairs)
          then err (too_many_fields (length pairs))
          else ok (line_of_pairs lib p now pairs))
  unfolding line_of_pairs
  counted_HasLevel p now pairs = elim (Bool-cases (ltb max_fields_count (length pairs))) [
    | inl many ↦ rw many tt
    | inr few ↦ rw few (
        extract_level_from_pairs-IsLevel
          (extract_timestamp_from_pairs lib now pairs timestamp_keys).1 level_keys)
  ]

  parse_logfmt-HasLevel :
      (p : Parser) (now : ℕ) (line : String) → HasLevel (parse_logfmt lib p now line)
  unfolding parse_logfmt
  parse_logfmt-HasLevel p now line =
      guard_HasLevel (validate_line line) _
        λ _. counted_HasLevel p now (parse_logfmt_pairs lib line)

  with_groups_HasLevel :
      (o : Option (String × String × String)) (ll : LogLine) → AllLevels (with_groups lib o ll)
  unfolding with_groups
  with_groups_HasLevel none ll = tt
  with_groups_HasLevel (some (time, level, message)) ll = normalize_level-IsLevel level

  with_level_HasLevel :
      (o : Option (String × String)) (ll : LogLine) → AllLevels (with_level lib o ll)
  unfolding with_level
  with_level_HasLevel none ll = tt
  with_level_HasLevel (some (level, message)) ll =
      elim (Bool-cases (is_valid_log_level (to_lower (trim_space level)))) [
        | inl valid ↦ rw valid (normalize_level-IsLevel level)
        | inr other ↦ rw other tt
      ]

  or_else_HasLevel :
      (o o' : Option LogLine) → AllLevels o → AllLevels o' → AllLevels (or_else lib o o')
  unfolding or_else
  or_else_HasLevel none o' h h' = h'
  or_else_HasLevel (some ll) o' h h' = h

  or_line_HasLevel :
      (o : Option LogLine) (ll : LogLine)
      → AllLevels o
      → IsLevel ll.level
      → IsLevel (or_line lib o ll).level
  unfolding or_line
  or_line_HasLevel none ll h h' = h'
  or_line_HasLevel (some l) ll h h' = h

  parse_text-HasLevel :
      (p : Parser) (now : ℕ) (line : String) → HasLevel (parse_text lib p now line)
  unfolding parse_text parse_with_timestamp_patterns parse_level_only
  parse_text-HasLevel p now line =
      let ll = new_log_line p now in
      let stamped =
        or_else_HasLevel (with_groups lib (lib.bracketed line) ll)
          (with_groups lib (lib.spaced line) ll) (with_groups_HasLevel (lib.bracketed line) ll)
          (with_groups_HasLevel (lib.spaced line) ll) in
      guard_HasLevel (validate_line line) _ λ _.
        or_line_HasLevel
          (or_else lib (parse_with_timestamp_patterns lib line ll) (parse_level_only lib line ll))
          (record ll { level = "info"; message = line })
          (or_else_HasLevel (parse_with_timestamp_patterns lib line ll)
            (parse_level_only lib line ll) stamped (with_level_HasLevel (lib.level_only line) ll))
          info_IsLevel

  first_ok-HasLevel :
      (b : Bool) (r next : Parsed lib)
      → HasLevel r
      → HasLevel next
      → HasLevel (first_ok lib b r next)
  unfolding first_ok
  first_ok-HasLevel false r next h h' = h'
  first_ok-HasLevel true (ok ll) next h h' = h
  first_ok-HasLevel true (err e) next h h' = h'

  auto_detect-HasLevel :
      (p : Parser) (now : ℕ) (line : String) → HasLevel (auto_detect lib p now line)
  unfolding auto_detect
  auto_detect-HasLevel p now line = guard_HasLevel (validate_line line) _ λ _.
      first_ok-HasLevel (has_letter "{" line) (parse_json lib p now line) _
        (parse_json-HasLevel p now line)
        (first_ok-HasLevel (is_logfmt lib line) (parse_logfmt lib p now line)
          (parse_text lib p now line) (parse_logfmt-HasLevel p now line)
          (parse_text-HasLevel p now line))

  either_HasLevel :
      (b : Bool) (r next : Parsed lib)
      → HasLevel r
      → HasLevel next
      → HasLevel (if b then r else next)
  either_HasLevel true r next h h' = h
  either_HasLevel false r next h h' = h'

  parsed_level : (r : Parsed lib) (ll : LogLine) → HasLevel r → r ≡ ok ll → IsLevel ll.level
  parsed_level (ok l) ll h e = ground arith
  parsed_level (err d) ll h e = ground arith

  -- In every format, the level of a line that Parse returns is one of the levels of LogLevels.
  pub parse-IsLevel :
      (p : Parser) (now : ℕ) (text format : String) (ll : LogLine)
      → parse lib p now text format ≡ ok ll
      → IsLevel ll.level
  unfolding parse
  parse-IsLevel p now text format ll e =
      let line = trim_space text in
      parsed_level (parse lib p now text format) ll
        (either_HasLevel (str_eq line "") _ _ tt (
          either_HasLevel (str_eq format "json") _ _ (parse_json-HasLevel p now line) (
            either_HasLevel (str_eq format "logfmt") _ _ (parse_logfmt-HasLevel p now line) (
              either_HasLevel (str_eq format "text") _ _ (parse_text-HasLevel p now line)
                (auto_detect-HasLevel p now line)))))
        e
