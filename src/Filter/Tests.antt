-- ===== src/Filter/Tests.antt =====
-- The filters of internal/filter/filter.go at work.
use logtailr.Base.{String, [], str_eq, if◌then◌else◌}
use logtailr.Base.Result.{Result, ok, err}
use logtailr.Logline.{LogLine}
use logtailr.Filter.{Regexp}

abbrev compile_literal : String → Result String String
compile_literal p = if str_eq p "(" then err "missing )" else ok p

-- patterns that match their own text, of which "(" does not compile
abbrev literal : Regexp
literal = record {
  Pattern = String;
  Error = String;
  compile = compile_literal;
  match_string = λ p text. str_eq p text;
}

abbrev warned : LogLine
warned = record { timestamp = 0; level = "WARN"; message = "slow"; source = "app"; fields = [] }
