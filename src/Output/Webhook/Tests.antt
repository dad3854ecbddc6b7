-- ===== src/Output/Webhook/Tests.antt =====
-- Tries the writer that posts batches.
use logtailr.Base.{
  ℕ, String, if◌then◌else◌, ◌≡◌, refl, Bool, true, false, List, [], ◌∷◌, ◌++◌, str_eq,
}
use logtailr.Base.Dict.{get}
use logtailr.Base.Int.{pos}
use logtailr.Base.Text.{has_prefix, decimal}
use logtailr.Base.Result.{Result, ok, err}
use logtailr.Logline.{LogLine, level_of, log_levels}
use logtailr.Output.Webhook.{
  Network, Payload, WebhookConfig, WebhookWriter, new_webhook_writer, bad_scheme, timeout_of,
  min_level_of, known_level, with_fields, checked_timeout,
}
use logtailr.Output.Webhook.Batches.{Event, line, tick}
use logtailr.Output.Webhook.Samples.{body_of}
use logtailr.Output.Webhook.Bounds.{IsWithin, new_webhook_writer-IsWithin}

-- The bodies that were posted; a request is answered with 500 unless it is the first.
answer_of : List String → ℕ
answer_of [] = 200
answer_of (body ∷ rest) = 500

post_to : Bool → String → String → List String → Result String ℕ × List String
unfolding answer_of
post_to true url body bodies = (err "cancelled", bodies)
post_to false url body bodies = (ok (answer_of bodies), bodies ++ body ∷ [])

abbrev network : Network
network = record {
  State = List String;
  Error = String;
  marshal = λ (p : Payload). ok (body_of p.logs);
  post = post_to;
  parse_duration =
      λ (text : String). if str_eq text "5s" then ok (pos 5_000_000_000) else err "duration";
  format_time = decimal;
}

abbrev config : WebhookConfig
config = record {
  url = "https://example.org/hook";
  min_level = "warn";
  batch_size = pos 2;
  batch_timeout = "5s";
}

abbrev writer : WebhookWriter
writer = record {
  url = "https://example.org/hook";
  min_level = 2;
  batch_size = 2;
  batch_timeout = 5_000_000_000;
  buffer = [];
  is_cancelled = false;
}

abbrev line_of : String → String → LogLine
line_of level message = record {
  timestamp = 1;
  level = level;
  message = message;
  source = "app";
  fields = [];
}

created : new_webhook_writer network config ≡ ok writer
unfolding new_webhook_writer timeout_of min_level_of known_level with_fields checked_timeout
    level_of log_levels get has_prefix
created = refl

other_scheme :
    new_webhook_writer network (record config { url = "ftp://example.org" }) ≡ err bad_scheme
unfolding new_webhook_writer has_prefix
other_scheme = refl

abbrev events : List Event
events =
    line 1 (line_of "error" "one")
    ∷ line 2 (line_of "info" "two")
    ∷ line 3 (line_of "warn" "three")
    ∷ tick 4
    ∷ line 5 (line_of "error" "four")
    ∷ []

new_webhook_writer-IsWithin_example : IsWithin network writer
new_webhook_writer-IsWithin_example = new_webhook_writer-IsWithin network config writer created
