-- ===== src/Output/Webhook/Batches.antt =====
-- internal/output/webhook_writer.go: the batches that a run of the writer sends.
use mathlib.Core.List.{append-nil}
use logtailr.Base.{
  ℕ, String, ◌≤◌, ◌<◌, ◌≡◌, refl, ap, sym, none, List, [], ◌∷◌, ◌++◌, length, ltb, if◌then◌else◌,
  All,
}
use logtailr.Base.Result.{Result, ok}
use logtailr.Logline.{LogLine}
use logtailr.Output.Webhook.{
  Network, Item, WebhookWriter, Outcome, item_of, severity, flush_webhook, Payload, write_webhook,
  close_webhook,
}

-- a line is written, or the ticker of flushLoop fires, each at a time
pub data Event : Type 0 where
  line : ℕ → LogLine → Event
  tick : ℕ → Event

-- the network, with the bodies that were posted to it, in order
abbrev pub recorded : Network → Network
recorded net = record {
  State = List String × net.State;
  Error = net.Error;
  marshal = net.marshal;
  post = λ cancelled url body s.
      let (r, s') = net.post cancelled url body s.1 in (r, (s.0 ++ body ∷ [], s'));
  parse_duration = net.parse_duration;
  format_time = net.format_time;
}

-- every payload is encoded, and `items_in` finds its items in its body
abbrev pub IsEncoded : Network → (String → List Item) → Type 0
IsEncoded net items_in =
    (p : Payload) → (body : String) × (net.marshal p ≡ ok body) × (items_in body ≡ p.logs)

-- the items in bodies
unfoldable pub items_sent : (String → List Item) → List String → List Item
items_sent items_in [] = []
items_sent items_in (b ∷ bs) = items_in b ++ items_sent items_in bs

-- a body with at least one item and at most so many
abbrev pub Fits : (String → List Item) → ℕ → String → Type 0
Fits items_in n body = (1 ≤ length (items_in body)) × (length (items_in body) ≤ n)

module _ (net : Network) where
  abbrev pub Recorded : Type 0
  Recorded = List String × net.State

  unfoldable pub step : Event → WebhookWriter → Recorded → Outcome (recorded net)
  unfolding write_webhook flush_webhook
  step (line now l) w s = write_webhook (recorded net) now l w s
  step (tick now) w s = flush_webhook (recorded net) now w s

  -- the writer and the network after a run
  unfoldable pub run : List Event → WebhookWriter → Recorded → WebhookWriter × Recorded
  unfolding step
  run [] w s = (w, s)
  run (e ∷ events) w s = let o = step e w s in run events o.writer o.state

  -- the item of a line that is severe enough
  unfoldable pub items_of : ℕ → Event → List Item
  items_of min_level (line now l) =
      if ltb (severity net l) min_level then [] else item_of net l ∷ []
  items_of min_level (tick now) = []

  unfoldable pub all_items : ℕ → List Event → List Item
  unfolding items_of
  all_items min_level [] = []
  all_items min_level (e ∷ events) = items_of min_level e ++ all_items min_level events

  module _ (items_in : String → List Item) (encoded : IsEncoded net items_in) where
    -- an outcome that has posted or kept the items of the buffer, with more behind them
    abbrev Accounts : WebhookWriter → Recorded → List Item → Outcome (recorded net) → Type 0
    Accounts w s more o =
        (items_sent items_in o.state.0 ++ o.writer.buffer
          ≡ items_sent items_in s.0 ++ (w.buffer ++ more))
        × (o.writer.batch_size ≡ w.batch_size)
        × (o.writer.min_level ≡ w.min_level)
        × (All (Fits items_in w.batch_size) s.0 → All (Fits items_in w.batch_size) o.state.0)
        × (length o.writer.buffer < w.batch_size)

    kept :
        (w : WebhookWriter) (s : Recorded)
        → length w.buffer < w.batch_size
        → Accounts w s [] (record { error = none; writer = w; state = s })
    kept w s room = (
      ap (λ l. items_sent items_in s.0 ++ l) (sym (append-nil w.buffer)),
      refl,
      refl,
      λ fits. fits,
      room,
    )

    -- the bodies that were posted after a run and Close
    abbrev pub posted_bodies : ℕ → List Event → WebhookWriter → net.State → List String
    posted_bodies now events w s =
        let (w', s') = run events w ([], s) in (close_webhook (recorded net) now w' s').state.0
