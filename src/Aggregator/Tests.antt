-- ===== src/Aggregator/Tests.antt =====
-- Runs of the aggregator of internal/aggregator/aggregator.go.
use logtailr.Base.{ℕ, ◌*◌, map, String, ◌≡◌, refl, some, [], ◌∷◌, List}
use logtailr.Base.Int.{pos, negsuc}
use logtailr.Base.Dict.{get, put, remove}
use logtailr.Base.Dict.Distinct.{IsDistinct}
use logtailr.Logline.{LogLine}
use logtailr.Aggregator.{Aggregator, second, entry_key, process, new, format_duration}
use logtailr.Aggregator.Process.{same_key_lost}
use logtailr.Aggregator.Loop.{Event, line, tick, receive, flush_all, stop, send, leave, start, run}
use logtailr.Aggregator.Loop.Accounted.{accounted, accounted-run-start}

abbrev a_line : String → String → LogLine
a_line source message = record {
  timestamp = 0;
  level = "error";
  message = message;
  source = source;
  fields = [];
}

abbrev busy : Aggregator
busy = record {
  window = pos (5 * second);
  min_count = 2;
  entries =
      (
        "app|error|down",
        record { line = a_line "app" "down"; count = 3; first_seen = 0; last_seen = 2 * second },
      )
      ∷ (
        "app|error|slow",
        record {
          line = a_line "app" "slow";
          count = 1;
          first_seen = 4 * second;
          last_seen = 4 * second;
        },
      )
      ∷ [];
}

busy-IsDistinct : IsDistinct busy.entries
unfolding get
busy-IsDistinct = (refl, (refl, tt))

abbrev at : ℕ
at = 6 * second

merges_and_expires :
    map (λ l. l.line.message) (process at (a_line "app" "slow") busy).0
    ≡ "down (x3 in last 2s)" ∷ []
unfolding process get put remove format_duration
merges_and_expires = refl

slow_left :
    get (process at (a_line "app" "slow") busy).1.entries "app|error|slow"
    ≡ some
        (record { line = a_line "app" "slow"; count = 2; first_seen = 4 * second; last_seen = at })
unfolding process get put remove
slow_left = refl

abbrev from_tenant : LogLine
from_tenant = a_line "app|error|disk" "full"

abbrev from_app : LogLine
from_app = a_line "app" "disk|error|full"

same_key_lost_example :
    get
      (process second from_app (process 0 from_tenant (new (pos 0) (pos 0))).1).1.entries
      (entry_key from_app)
    ≡ some (record { line = from_tenant; count = 2; first_seen = 0; last_seen = second })
unfolding new get
same_key_lost_example =
    same_key_lost 0 second (new (pos 0) (pos 0)) from_tenant from_app "app" "error" "disk" "full" tt
      refl refl refl refl refl refl refl refl

abbrev some_events : List Event
some_events =
    line 0 (a_line "app" "down")
    ∷ line second (a_line "app" "down")
    ∷ tick at
    ∷ send
    ∷ receive
    ∷ line at (a_line "app" "slow")
    ∷ flush_all
    ∷ line at (a_line "app" "slow")
    ∷ stop
    ∷ tick at
    ∷ leave
    ∷ []

accounted-run-start_example : accounted (run some_events (start (pos 0) (pos 2))) ≡ 4
accounted-run-start_example = accounted-run-start (pos 0) (pos 2) some_events

durations :
    (format_duration (pos 1500000) ≡ "1ms")
    × (format_duration (pos (59 * second)) ≡ "59s")
    × (format_duration (pos (120 * second)) ≡ "2m")
    × (format_duration (pos (61 * second)) ≡ "1m1s")
    × (format_duration (negsuc 2999999) ≡ "-3ms")
unfolding format_duration
durations = (refl, refl, refl, refl, refl)
