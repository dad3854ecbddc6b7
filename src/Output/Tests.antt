-- ===== src/Output/Tests.antt =====
-- Concrete writers, on which the theorems about internal/output and cmd are tried.
use logtailr.Base.{
  Bool, true, false, Option, none, some, List, [], ◌∷◌, ◌++◌, String, if◌then◌else◌,
}
use logtailr.Logline.{LogLine}
use logtailr.Output.{Writers}

pub record SampleWriter : Type 0 where
  pub fails : Bool
  pub taken : List String
  pub is_closed : Bool

abbrev sample_write : LogLine → SampleWriter → Option String × SampleWriter
sample_write l w =
    ((if w.fails then some "disk full" else none), record w { taken = w.taken ++ l.message ∷ [] })

-- writers that keep the messages they take; some of them also fail
abbrev pub sample_writers : Writers
sample_writers = record {
  Writer = SampleWriter;
  Error = String;
  write = sample_write;
  close = λ w. (none, record w { is_closed = true });
}

abbrev pub good : SampleWriter
good = record { fails = false; taken = []; is_closed = false }

abbrev bad : SampleWriter
bad = record { fails = true; taken = []; is_closed = false }

abbrev pub message_line : String → LogLine
message_line m = record { timestamp = 0; level = "info"; message = m; source = "app"; fields = [] }
