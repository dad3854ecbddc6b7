-- ===== src/Filter/Laws.antt =====
-- How the checks of internal/filter/filter.go relate.
use logtailr.Base.{
  ℕ, ◌≤◌, String, ◌≡◌, refl, true, ◌&&◌, none, some, arith, eq_iff, str_eq, inl, inr, Bool-cases,
}
use logtailr.Base.Result.{ok}
use logtailr.Logline.{LogLine, level_of}
use logtailr.Filter.{Regexp, by_level, RegexFilter, new_regex_filter, match, apply}

level_of-empty : level_of "" ≡ none
unfolding level_of
level_of-empty = refl

-- A line that passes a known level also passes every known level that is not above it.
pub by_level_mono :
    (line : LogLine) (low high : String) {m n : ℕ}
    → level_of low ≡ some m
    → level_of high ≡ some n
    → m ≤ n
    → by_level line high ≡ true
    → by_level line low ≡ true
unfolding by_level
by_level_mono line low high l h le p = ground (arith, eq_iff high "", level_of-empty)

module _ (re : Regexp) where
  -- Where the pattern compiles, the check that compiles it for each line gives what the filter
  -- that is compiled once gives: the line's level and its message both pass.
  pub apply-new_regex_filter :
      (line : LogLine) (min_level pattern : String) (rf : RegexFilter re)
      → new_regex_filter re pattern ≡ ok rf
      → apply re line min_level pattern ≡ ok (by_level line min_level && match re rf line.message)
  unfolding apply new_regex_filter match
  apply-new_regex_filter line min_level pattern rf h = elim (Bool-cases (str_eq pattern "")) [
    | inl empty ↦ ground arith
    | inr full ↦ ground arith
  ]
