-- ===== src/Cmd/Pipeline/Tests.antt =====
-- The theorems about cmd/pipeline.go, tried on a pipeline that takes texts as they are.
use logtailr.Base.{◌++◌, String, ◌≡◌, refl, true, none, some, List, [], ◌∷◌, if◌then◌else◌, str_eq}
use logtailr.Base.Int.{pos}
use logtailr.Base.Text.{to_lower}
use logtailr.Base.Result.{ok, err}
use logtailr.Logline.{LogLine, level_of}
use logtailr.Filter.{by_level, match}
use logtailr.Alert.Samples.{sample}
use logtailr.Aggregator.{new}
use logtailr.Output.Tests.{message_line}
use logtailr.Cmd.Pipeline.{
  Settings, Event, emit, cancel, stop_tailers, receive, sweep, start, run, parsed, passes,
}
use logtailr.Cmd.Pipeline.Steps.{passing, emitted}
use logtailr.Cmd.Pipeline.Shutdown.{shutdown, written-shutdown, draining-written}

-- a line parses to a warning with its text; without a text it does not
abbrev settings : Settings
settings = record {
  regexp = sample.regexp;
  ParseError = String;
  parse = λ source m.
      if str_eq m "" then err "empty line" else ok (record (message_line m) { level = "warn" });
  level = "warn";
  regex_filter = record { compiled = none };
}

-- "b" is received while draining; "d" is left for the sweep; the empty line is only "info"
abbrev events : List Event
events =
    emit (message_line "a")
    ∷ receive 1
    ∷ emit (message_line "")
    ∷ emit (message_line "b")
    ∷ cancel
    ∷ receive 2
    ∷ receive 3
    ∷ sweep 4
    ∷ emit (message_line "d")
    ∷ []

abbrev warning : String → LogLine
warning m = record (message_line m) { level = "warn" }

written-shutdown_example :
    ((run settings (events ++ shutdown 5) (start none)).finished ≡ true)
    × ((run settings (events ++ shutdown 5) (start none)).written
        ≡ warning "a" ∷ warning "b" ∷ warning "d" ∷ [])
unfolding passing emitted parsed passes by_level match level_of to_lower
written-shutdown_example = written-shutdown settings events 5

draining-written_example :
    ((run settings
        (emit (message_line "a") ∷ cancel ∷ stop_tailers ∷ sweep 3 ∷ [])
        (start (some (new (pos 5) (pos 2))))).finished
      ≡ true)
    × ((run settings
          (emit (message_line "a") ∷ cancel ∷ stop_tailers ∷ sweep 3 ∷ [])
          (start (some (new (pos 5) (pos 2))))).written
        ≡ [])
unfolding parsed passes by_level match level_of to_lower
draining-written_example = draining-written settings (message_line "a") 3 (pos 5) (pos 2) refl
