-- ===== src/Output/Webhook/Bounds.antt =====
-- internal/output/webhook_writer.go: the bounds of a new writer.
use logtailr.Base.{
  not, ◌&&◌, str_eq, ◌∷◌, All, if◌then◌else◌, Bool, true, false, ℕ, ◌≤◌, String, ◌≡◌, refl, false,
  Option, none, some, [], ltb, arith,
}
use logtailr.Base.Text.{to_lower, has_prefix}
use logtailr.Base.Int.{ℤ}
use logtailr.Base.Dict.{Dict, get}
use logtailr.Base.Result.{Result, ok, err}
use logtailr.Logline.{level_of, log_levels}
use logtailr.Output.Webhook.{
  Network, WebhookConfig, WebhookWriter, WebhookError, batch_size_of, checked_timeout, timeout_of,
  known_level, min_level_of, with_fields, new_webhook_writer, no_url, bad_scheme, batch_too_large,
  max_webhook_batch_size, max_webhook_batch_timeout,
}

-- a bound of the numbers in a dictionary
get-bounded :
    (m : Dict ℕ) (key : String) (n bound : ℕ)
    → All (λ e. e.1 ≤ bound) m
    → get m key ≡ some n
    → n ≤ bound
unfolding get
get-bounded [] key n bound h e = ground arith
get-bounded ((k, v) ∷ m) key n bound (h, hs) e = ground (arith, get-bounded m key n bound hs)

level_of_le : (text : String) (n : ℕ) → level_of text ≡ some n → n ≤ 4
unfolding level_of log_levels
level_of_le text n h =
    get-bounded (("debug", 0) ∷ ("info", 1) ∷ ("warn", 2) ∷ ("error", 3) ∷ ("fatal", 4) ∷ [])
      (to_lower text) n 4
      (omega arith, (omega arith, (omega arith, (omega arith, (omega arith, tt))))) h

module _ (net : Network) where
  open net use {Error, parse_duration}

  checked_timeout-range :
      (r : Result Error ℤ) (n : ℕ)
      → checked_timeout net r ≡ ok n
      → (1 ≤ n) × (n ≤ max_webhook_batch_timeout)
  unfolding checked_timeout
  checked_timeout-range (err e) n h = ground arith
  checked_timeout-range (ok d) n h = ground arith

  timeout_range :
      (text : String) (n : ℕ)
      → timeout_of net text ≡ ok n
      → (1 ≤ n) × (n ≤ max_webhook_batch_timeout)
  unfolding timeout_of
  timeout_range text n h = ground (arith, checked_timeout-range (parse_duration text) n)

  known_level-le :
      (text : String) (o : Option ℕ) (n : ℕ)
      → ((m : ℕ) → o ≡ some m → m ≤ 4)
      → known_level net text o ≡ ok n
      → n ≤ 4
  unfolding known_level
  known_level-le text none n h e = ground arith
  known_level-le text (some m) n h e = ground (arith, h m refl)

  min_level_le : (text : String) (n : ℕ) → min_level_of net text ≡ ok n → n ≤ 4
  unfolding min_level_of
  min_level_le text n h = ground (arith, known_level-le text (level_of text) n (level_of_le text))

  abbrev pub IsWithin : WebhookWriter → Type 0
  IsWithin w =
      (w.buffer ≡ [])
      × (1 ≤ w.batch_size)
      × (w.batch_size ≤ max_webhook_batch_size)
      × (1 ≤ w.batch_timeout)
      × (w.batch_timeout ≤ max_webhook_batch_timeout)
      × (w.min_level ≤ 4)

  with_fields-IsWithin :
      (cfg : WebhookConfig) (t l : Result (WebhookError Error) ℕ) (w : WebhookWriter)
      → ((n : ℕ) → t ≡ ok n → (1 ≤ n) × (n ≤ max_webhook_batch_timeout))
      → ((n : ℕ) → l ≡ ok n → n ≤ 4)
      → ltb max_webhook_batch_size (batch_size_of net cfg.batch_size) ≡ false
      → with_fields net cfg t l ≡ ok w
      → IsWithin w
  unfolding with_fields
  with_fields-IsWithin cfg (err e) l w ht hl small h = ground arith
  with_fields-IsWithin cfg (ok t) (err e) w ht hl small h = ground arith
  with_fields-IsWithin cfg (ok t) (ok l) w ht hl small h = ground (arith, ht t refl, hl l refl)

  -- a test that refuses did not hold where there is a result
  unless_err :
      (b : Bool) (e : WebhookError Error) (r : Result (WebhookError Error) WebhookWriter)
      (w : WebhookWriter)
      → (if b then err e else r) ≡ ok w
      → (b ≡ false) × (r ≡ ok w)
  unless_err true e r w h = ground arith
  unless_err false e r w h = (refl, h)

  -- A writer that is made starts with an empty buffer, has a batch size from 1 to 100, a timeout of at most two
  -- minutes, longer than none, and a minimal level that exists.
  pub new_webhook_writer-IsWithin :
      (cfg : WebhookConfig) (w : WebhookWriter) → new_webhook_writer net cfg ≡ ok w → IsWithin w
  unfolding new_webhook_writer
  new_webhook_writer-IsWithin cfg w h =
      let timeout = timeout_of net cfg.batch_timeout in
      let level = min_level_of net cfg.min_level in
      let (_, h1) = unless_err (str_eq cfg.url "") no_url _ w h in
      let (_, h2) =
        unless_err (not (has_prefix cfg.url "http://") && not (has_prefix cfg.url "https://"))
          bad_scheme _ w h1 in
      let (small, h3) =
        unless_err (ltb max_webhook_batch_size (batch_size_of net cfg.batch_size)) batch_too_large _
          w h2 in
      with_fields-IsWithin cfg timeout level w (timeout_range cfg.batch_timeout)
        (min_level_le cfg.min_level) small h3
