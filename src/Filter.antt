-- ===== src/Filter.antt =====
-- internal/filter/filter.go: which lines pass the level and the pattern of the command line.
pub mod Laws
mod Tests
use logtailr.Base.Space.{byte_length}
use logtailr.Base.{
  ℕ, String, Bool, true, false, Option, none, some, str_eq, ltb, leb, if◌then◌else◌,
}
use logtailr.Base.Result.{Result, ok, err, ◌>>=◌}
use logtailr.Logline.{LogLine, level_of}

-- Go's `regexp`: a pattern may fail to compile, with an error.
pub record Regexp : Type 1 where
  pub Pattern : Type 0
  pub Error : Type 0
  pub compile : String → Result Error Pattern
  pub match_string : Pattern → String → Bool

pub data FilterError (E : Type 0) : Type 0 where
  pattern_too_long : ℕ → FilterError E
  invalid_pattern : E → FilterError E

abbrev pub max_regex_pattern_len : ℕ
max_regex_pattern_len = 1024

at_least : Option ℕ → Option ℕ → Bool
at_least none line_level = true
at_least (some min) none = true
at_least (some min) (some level) = leb min level

unfoldable pub by_level : LogLine → String → Bool
unfolding at_least
by_level line min_level =
    if str_eq min_level "" then true else at_least (level_of min_level) (level_of line.level)

module _ (re : Regexp) where
  open re use {Pattern, Error, compile, match_string}

  -- `compiled` is nil for the empty pattern
  pub record RegexFilter : Type 0 where
    pub compiled : Option Pattern

  compiled_filter : Result Error Pattern → Result (FilterError Error) RegexFilter
  compiled_filter (ok p) = ok (record { compiled = some p })
  compiled_filter (err e) = err (invalid_pattern e)

  unfoldable pub new_regex_filter : String → Result (FilterError Error) RegexFilter
  unfolding compiled_filter
  new_regex_filter pattern =
      if str_eq pattern ""
      then ok (record { compiled = none })
      else if ltb max_regex_pattern_len (byte_length pattern)
      then err (pattern_too_long (byte_length pattern))
      else compiled_filter (compile pattern)

  match_compiled : Option Pattern → String → Bool
  match_compiled none text = true
  match_compiled (some p) text = match_string p text

  unfoldable pub match : RegexFilter → String → Bool
  unfolding match_compiled
  match rf text = match_compiled rf.compiled text

  unfoldable pub by_regex : LogLine → String → Result (FilterError Error) Bool
  unfolding new_regex_filter match
  by_regex line pattern =
      if str_eq pattern ""
      then ok true
      else do rf ← new_regex_filter pattern; ok (match rf line.message)

  unfoldable pub apply : LogLine → String → String → Result (FilterError Error) Bool
  unfolding by_level by_regex
  apply line min_level pattern = if by_level line min_level then by_regex line pattern else ok false
