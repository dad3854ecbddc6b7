-- ===== src/Alert/Samples.antt =====
-- A small library and a few rules, on which the theorems about internal/alert are tried.
use logtailr.Base.{String, [], str_eq, if◌then◌else◌, ◌*◌}
use logtailr.Base.Int.{pos}
use logtailr.Base.Result.{Result, ok, err}
use logtailr.Logline.{LogLine}
use logtailr.Aggregator.{second, ◌⊕◌}
use logtailr.Alert.{Rule}
use logtailr.Alert.Evaluator.{Library}

abbrev compile_literal : String → Result String String
compile_literal p = if str_eq p "(" then err "missing )" else ok p

-- patterns that match their own text, of which "(" does not compile
abbrev pub sample : Library
sample = record {
  regexp = record {
    Pattern = String;
    Error = String;
    compile = compile_literal;
    match_string = λ p text. str_eq p text;
  };
  duration_text = λ d. "a while";
  quoted = λ s. "\"" ⊕ s ⊕ "\"";
}

abbrev pub rate_rule : Rule
rate_rule = record {
  name = "errors";
  kind = "error_rate";
  severity = "critical";
  pattern = "";
  level = "";
  source = "app";
  threshold = pos 2;
  window = pos (10 * second);
  cooldown = pos (60 * second);
}

abbrev pub health_rule : Rule
health_rule = record rate_rule { name = "health"; kind = "health_change"; source = "" }

abbrev pub broken_rule : Rule
broken_rule = record rate_rule { name = "broken"; kind = "pattern"; pattern = "(" }

abbrev pub failure : String → LogLine
failure message = record {
  timestamp = 0;
  level = "ERROR";
  message = message;
  source = "app";
  fields = [];
}
