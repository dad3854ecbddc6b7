-- ===== src/Output/Webhook.antt =====
-- internal/output/webhook_writer.go: the writer that posts batches of lines to a URL.
mod Batches
mod Bounds
mod Samples
mod Tests
use logtailr.Base.{
  ℕ, ◌+◌, String, Bool, true, false, not, ◌&&◌, Option, none, some, List, [], ◌∷◌, ◌++◌, length,
  ltb, leb, if◌then◌else◌, str_eq,
}
use logtailr.Base.Dict.{Dict, get, put}
use logtailr.Base.Int.{ℤ, pos, pos_part, ltb_ℤ, leb_ℤ}
use logtailr.Base.Text.{to_upper, has_prefix, decimal}
use logtailr.Base.Result.{Result, ok, err, ◌>>=◌}
use logtailr.Logline.{LogLine, level_of}
use logtailr.Aggregator.{◌⊕◌}

pub record Item : Type 0 where
  pub timestamp : String
  pub level : String
  pub message : String
  pub source : String

pub record Payload : Type 0 where
  pub text : String
  pub logs : List Item
  pub count : ℕ
  pub sent_at : String

-- What the writer calls: json.Marshal of a payload, the request with its answer's status, where the
-- context may be cancelled, time.ParseDuration, and the format of a time.
pub record Network : Type 1 where
  pub State : Type 0
  pub Error : Type 0
  pub marshal : Payload → Result Error String
  pub post : Bool → String → String → State → Result Error ℕ × State
  pub parse_duration : String → Result Error ℤ
  pub format_time : ℕ → String

pub record WebhookConfig : Type 0 where
  pub url : String
  pub min_level : String
  pub batch_size : ℤ
  pub batch_timeout : String

-- `is_cancelled`: the context of the writer has ended
pub record WebhookWriter : Type 0 where
  pub url : String
  pub min_level : ℕ
  pub batch_size : ℕ
  pub batch_timeout : ℕ
  pub buffer : List Item
  pub is_cancelled : Bool

abbrev default_webhook_batch_size : ℕ
default_webhook_batch_size = 10

abbrev pub max_webhook_batch_size : ℕ
max_webhook_batch_size = 100

abbrev default_webhook_batch_timeout : ℕ
default_webhook_batch_timeout = 30_000_000_000

abbrev pub max_webhook_batch_timeout : ℕ
max_webhook_batch_timeout = 120_000_000_000

pub data WebhookError (E : Type 0) : Type 0 where
  no_url : WebhookError E
  bad_scheme : WebhookError E
  batch_too_large : WebhookError E
  bad_timeout : E → WebhookError E
  timeout_too_long : WebhookError E
  bad_min_level : String → WebhookError E
  not_marshalled : E → WebhookError E
  not_requested : E → WebhookError E
  bad_status : ℕ → WebhookError E

module _ (net : Network) where
  open net use {State, Error, marshal, post, parse_duration, format_time}

  abbrev batch_size_of : ℤ → ℕ
  batch_size_of n = if leb_ℤ n (pos 0) then default_webhook_batch_size else pos_part n

  checked_timeout : Result Error ℤ → Result (WebhookError Error) ℕ
  checked_timeout (err e) = err (bad_timeout e)
  checked_timeout (ok d) =
      if ltb_ℤ (pos max_webhook_batch_timeout) d
      then err timeout_too_long
      else ok (if ltb_ℤ (pos 0) d then pos_part d else default_webhook_batch_timeout)

  timeout_of : String → Result (WebhookError Error) ℕ
  unfolding checked_timeout
  timeout_of text =
      if str_eq text ""
      then ok default_webhook_batch_timeout
      else checked_timeout (parse_duration text)

  known_level : String → Option ℕ → Result (WebhookError Error) ℕ
  known_level text none = err (bad_min_level text)
  known_level text (some level) = ok level

  min_level_of : String → Result (WebhookError Error) ℕ
  unfolding known_level level_of
  min_level_of text = if str_eq text "" then ok 0 else known_level text (level_of text)

  with_fields :
      WebhookConfig
      → Result (WebhookError Error) ℕ
      → Result (WebhookError Error) ℕ
      → Result (WebhookError Error) WebhookWriter
  with_fields cfg (err e) level = err e
  with_fields cfg (ok timeout) (err e) = err e
  with_fields cfg (ok timeout) (ok level) = ok (record {
    url = cfg.url;
    min_level = level;
    batch_size = batch_size_of cfg.batch_size;
    batch_timeout = timeout;
    buffer = [];
    is_cancelled = false;
  })

  -- NewWebhookWriter
  unfoldable pub new_webhook_writer : WebhookConfig → Result (WebhookError Error) WebhookWriter
  unfolding timeout_of min_level_of with_fields
  new_webhook_writer cfg =
      if str_eq cfg.url ""
      then err no_url
      else (if not (has_prefix cfg.url "http://") && not (has_prefix cfg.url "https://")
          then err bad_scheme
          else (if ltb max_webhook_batch_size (batch_size_of cfg.batch_size)
              then err batch_too_large
              else with_fields cfg (timeout_of cfg.batch_timeout) (min_level_of cfg.min_level)))

  count_or : Option ℕ → ℕ
  count_or none = 0
  count_or (some n) = n

  -- levelCounts
  level_counts : List Item → Dict ℕ → Dict ℕ
  unfolding count_or
  level_counts [] counts = counts
  level_counts (item ∷ items) counts =
      level_counts items (put counts item.level (count_or (get counts item.level) + 1))

  -- the parts, with ", " between them
  join_counts : Dict ℕ → String
  join_counts [] = ""
  join_counts ((level, n) ∷ []) = decimal n ⊕ " " ⊕ level
  join_counts ((level, n) ∷ rest) = decimal n ⊕ " " ⊕ level ⊕ ", " ⊕ join_counts rest

  payload_of : ℕ → List Item → Payload
  unfolding level_counts join_counts
  payload_of now items = record {
    text =
        "Logtailr: " ⊕ decimal (length items) ⊕ " log(s) — " ⊕ join_counts (level_counts items []);
    logs = items;
    count = length items;
    sent_at = format_time now;
  }

  answered : Result Error ℕ × State → Option (WebhookError Error) × State
  answered (err e, s) = (some (not_requested e), s)
  answered (ok status, s) = ((if leb 400 status then some (bad_status status) else none), s)

  posted : Bool → String → Result Error String → State → Option (WebhookError Error) × State
  unfolding answered
  posted cancelled url (err e) s = (some (not_marshalled e), s)
  posted cancelled url (ok body) s = answered (post cancelled url body s)

  -- sendWithContext
  unfoldable pub send_with_context :
      Bool → String → ℕ → List Item → State → Option (WebhookError Error) × State
  unfolding payload_of posted
  send_with_context cancelled url now items s =
      posted cancelled url (marshal (payload_of now items)) s

  -- The outcome of a call: an error, and the writer and the network after it.
  pub record Outcome : Type 0 where
    pub error : Option (WebhookError Error)
    pub writer : WebhookWriter
    pub state : State

  abbrev emptied : WebhookWriter → WebhookWriter
  emptied w = record w { buffer = [] }

  sent : Bool → ℕ → List Item → WebhookWriter → State → Outcome
  unfolding send_with_context
  sent cancelled now [] w s = record { error = none; writer = w; state = s }
  sent cancelled now (item ∷ items) w s =
      let (e, s') = send_with_context cancelled w.url now (item ∷ items) s in
      record { error = e; writer = emptied w; state = s' }

  -- flush
  unfoldable pub flush_webhook : ℕ → WebhookWriter → State → Outcome
  unfolding sent
  flush_webhook now w s = sent w.is_cancelled now w.buffer w s

  -- finalFlush, within its own time
  unfoldable pub final_flush_webhook : ℕ → WebhookWriter → State → Outcome
  unfolding sent
  final_flush_webhook now w s = sent false now w.buffer w s

  abbrev pub item_of : LogLine → Item
  item_of line = record {
    timestamp = format_time line.timestamp;
    level = to_upper line.level;
    message = line.message;
    source = line.source;
  }

  -- the severity of a line, that of debug where the level is unknown
  abbrev pub severity : LogLine → ℕ
  severity line = elim (level_of line.level) [ none ↦ 0 | some n ↦ n ]

  -- Write
  unfoldable pub write_webhook : ℕ → LogLine → WebhookWriter → State → Outcome
  unfolding flush_webhook
  write_webhook now line w s =
      let w' = record w { buffer = w.buffer ++ item_of line ∷ [] } in
      if ltb (severity line) w.min_level
      then record { error = none; writer = w; state = s }
      else (if leb w.batch_size (length w'.buffer)
          then flush_webhook now w' s
          else record { error = none; writer = w'; state = s })

  -- Close
  unfoldable pub close_webhook : ℕ → WebhookWriter → State → Outcome
  unfolding final_flush_webhook
  close_webhook now w s = final_flush_webhook now (record w { is_cancelled = true }) s
