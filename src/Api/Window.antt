-- ===== src/Api/Window.antt =====
-- internal/api/middleware.go: how many requests of an address pass within a window.
use mathlib.Core.Option.{some-injective}
use logtailr.Base.{
  ℕ, ◌+◌, ◌-◌, ◌≤◌, ◌<◌, String, ◌≡◌, refl, ap, ◌∙◌, Bool, true, false, not, ◌&&◌, str_eq, eq_iff,
  if◌then◌else◌, arith, Option, none, some, List, [], ◌∷◌, ltb, leb, All, All-map, Bool-cases, inl,
  inr,
}
use logtailr.Base.Dict.{Dict, get, get-put}
use logtailr.Base.Dict.Distinct.{IsDistinct, put-IsDistinct}
use logtailr.Api.{Request, Reply, passed, refused}
use logtailr.Api.Auth.{is_public}
use logtailr.Api.RateLimit.{Entry, client_ip, entry_of, admit, with_rate_limit, cleanup}

-- a request at a time, or a round of the clean-up
pub data Event : Type 0 where
  request : ℕ → Request → Event
  clean_up : ℕ → Event

abbrev time : Event → ℕ
time (request now r) = now
time (clean_up now) = now

abbrev pub min : ℕ → ℕ → ℕ
min a b = if leb a b then a else b

-- every time is from `start` to `end`
abbrev pub AreWithin : ℕ → ℕ → List Event → Type 0
AreWithin start end = All (λ e. (start ≤ time e) × (time e ≤ end))

-- no entry, or one whose window has ended before `start`
abbrev pub IsIdle : ℕ → Option Entry → Type 0
IsIdle start none = Unit
IsIdle start (some e) = e.reset_at < start

get-cleanup_open :
    (now : ℕ) (clients : Dict Entry) (k : String) (e : Entry)
    → get clients k ≡ some e
    → now ≤ e.reset_at
    → get (cleanup now clients) k ≡ some e
unfolding get cleanup
get-cleanup_open now [] k e h in_time = ground arith
get-cleanup_open now ((j, d) ∷ clients) k e h in_time = elim (Bool-cases (str_eq j k)) [
  | inl same ↦
      let found = some-injective d e (rw same at h) in
      let later = ap (λ x. x.reset_at) found in
      let going : ltb d.reset_at now ≡ false = ground arith in rw (going, same) (ap some found)
  | inr other ↦
      let ih = get-cleanup_open now clients k e (rw other at h) in_time in
      elim (Bool-cases (ltb d.reset_at now)) [
        | inl ended ↦ rw ended ih
        | inr going ↦ rw (going, other) ih
      ]
]

get-cleanup-none :
    (now : ℕ) (clients : Dict Entry) (k : String)
    → get clients k ≡ none
    → get (cleanup now clients) k ≡ none
unfolding get cleanup
get-cleanup-none now [] k h = refl
get-cleanup-none now ((j, d) ∷ clients) k h = ground (arith, get-cleanup-none now clients k)

cleanup-IsDistinct :
    (now : ℕ) (clients : Dict Entry) → IsDistinct clients → IsDistinct (cleanup now clients)
unfolding cleanup
cleanup-IsDistinct now [] h = tt
cleanup-IsDistinct now ((j, d) ∷ clients) (a, h) = elim (Bool-cases (ltb d.reset_at now)) [
  | inl ended ↦ rw ended (cleanup-IsDistinct now clients h)
  | inr going ↦ rw going (get-cleanup-none now clients j a, cleanup-IsDistinct now clients h)
]

cleanup-IsIdle :
    (start now : ℕ) (clients : Dict Entry) (k : String)
    → IsDistinct clients
    → IsIdle start (get clients k)
    → IsIdle start (get (cleanup now clients) k)
unfolding get cleanup
cleanup-IsIdle start now [] k d h = tt
cleanup-IsIdle start now ((j, e) ∷ clients) k (a, d) h = elim (Bool-cases (str_eq j k)) [
  | inl same ↦
      let absent : get (cleanup now clients) k ≡ none =
        rw (← (eq_iff j k).0 same) (get-cleanup-none now clients j a) in
      let late : e.reset_at < start = rw same at h in
      elim (Bool-cases (ltb e.reset_at now)) [
        | inl ended ↦ rw (ended, absent) tt
        | inr going ↦ rw (going, same) late
      ]
  | inr other ↦
      let ih = cleanup-IsIdle start now clients k d (rw other at h) in
      elim (Bool-cases (ltb e.reset_at now)) [
        | inl ended ↦ rw ended ih
        | inr going ↦ rw (going, other) ih
      ]
]

module _ (limit window : ℕ) (trust_proxy : Bool) (k : String) where
  -- a request that counts for the address `k`
  abbrev counts : Request → Bool
  counts r = not (is_public r.path) && str_eq (client_ip trust_proxy r) k

  abbrev one_if : Bool → ℕ
  one_if true = 1
  one_if false = 0

  abbrev has_passed : Reply → Bool
  has_passed passed = true
  has_passed (refused code text) = false

  -- how many requests of the address there are
  unfoldable pub asked : List Event → ℕ
  asked [] = 0
  asked (request now r ∷ events) = one_if (counts r) + asked events
  asked (clean_up now ∷ events) = asked events

  -- how many of them pass
  unfoldable pub let_through : List Event → Dict Entry → ℕ
  let_through [] clients = 0
  let_through (request now r ∷ events) clients =
      let (reply, clients') = with_rate_limit limit window trust_proxy now r clients in
      one_if (counts r && has_passed reply) + let_through events clients'
  let_through (clean_up now ∷ events) clients = let_through events (cleanup now clients)

  -- the entry of the address after a request of it
  abbrev next : ℕ → Dict Entry → Entry
  next now clients = let e = entry_of window now (get clients k) in record e { count = e.count + 1 }

  get-admit :
      (public : Bool) (now : ℕ) (ip : String) (clients : Dict Entry)
      → get (if public then (passed, clients) else admit limit window now ip clients).1 k
        ≡ (if not public && str_eq ip k then some (next now clients) else get clients k)
  unfolding admit
  get-admit true now ip clients = refl
  get-admit false now ip clients =
      let e = entry_of window now (get clients ip) in
      elim (Bool-cases (str_eq ip k)) [
        | inl same ↦
            rw (get-put clients ip k (record e { count = e.count + 1 }), same, (eq_iff ip k).0 same)
              refl
        | inr other ↦ rw (get-put clients ip k (record e { count = e.count + 1 }), other) refl
      ]

  has_passed-admit :
      (public : Bool) (now : ℕ) (ip : String) (clients : Dict Entry)
      → (not public
          && str_eq ip k
          && has_passed (if public then (passed, clients) else admit limit window now ip clients).0)
        ≡ (not public && str_eq ip k && leb (next now clients).count limit)
  unfolding admit
  has_passed-admit true now ip clients = refl
  has_passed-admit false now ip clients = elim (Bool-cases (str_eq ip k)) [
    | inl same ↦ rw (same, (eq_iff ip k).0 same) (ground arith)
    | inr other ↦ rw other refl
  ]

  get-with_rate_limit :
      (now : ℕ) (r : Request) (clients : Dict Entry)
      → get (with_rate_limit limit window trust_proxy now r clients).1 k
        ≡ (if counts r then some (next now clients) else get clients k)
  unfolding with_rate_limit
  get-with_rate_limit now r clients =
      get-admit (is_public r.path) now (client_ip trust_proxy r) clients

  has_passed-with_rate_limit :
      (now : ℕ) (r : Request) (clients : Dict Entry)
      → (counts r && has_passed (with_rate_limit limit window trust_proxy now r clients).0)
        ≡ (counts r && leb (next now clients).count limit)
  unfolding with_rate_limit
  has_passed-with_rate_limit now r clients =
      has_passed-admit (is_public r.path) now (client_ip trust_proxy r) clients

  with_rate_limit-IsDistinct :
      (now : ℕ) (r : Request) (clients : Dict Entry)
      → IsDistinct clients
      → IsDistinct (with_rate_limit limit window trust_proxy now r clients).1
  unfolding with_rate_limit admit
  with_rate_limit-IsDistinct now r clients d = elim (Bool-cases (is_public r.path)) [
    | inl public ↦ rw public d
    | inr private ↦ rw private (put-IsDistinct clients (client_ip trust_proxy r) _ d)
  ]

  -- what one request adds, by whether it counts and passes
  counted :
      (b passes : Bool) (a n c : ℕ)
      → (b ≡ true → (passes ≡ leb (c + 1) limit) × (n ≡ min a (limit - (c + 1))))
      → (b ≡ false → n ≡ min a (limit - c))
      → one_if (b && passes) + n ≡ min (one_if b + a) (limit - c)
  counted true passes a n c h h' = let (p, q) = h refl in ground arith
  counted false passes a n c h h' = ground (arith, h' refl)

  entry_of_open : (now : ℕ) (e : Entry) → now ≤ e.reset_at → entry_of window now (some e) ≡ e
  unfolding entry_of
  entry_of_open now e h = let going : ltb e.reset_at now ≡ false = ground arith in rw going refl

  next_open :
      (now : ℕ) (clients : Dict Entry) (e : Entry)
      → get clients k ≡ some e
      → now ≤ e.reset_at
      → next now clients ≡ record e { count = e.count + 1 }
  next_open now clients e h in_time =
      ap (λ (x : Entry). record x { count = x.count + 1 })
        (ap (entry_of window now) h ∙ entry_of_open now e in_time)

  entry_of_idle :
      (start now : ℕ) (o : Option Entry)
      → IsIdle start o
      → start ≤ now
      → entry_of window now o ≡ record { count = 0; reset_at = now + window }
  unfolding entry_of
  entry_of_idle start now none idle h = refl
  entry_of_idle start now (some e) idle h =
      let ended : ltb e.reset_at now ≡ true = ground arith in rw ended refl

  next_idle :
      (start now : ℕ) (clients : Dict Entry)
      → IsIdle start (get clients k)
      → start ≤ now
      → next now clients ≡ record { count = 1; reset_at = now + window }
  next_idle start now clients idle h =
      ap (λ (x : Entry). record x { count = x.count + 1 })
        (entry_of_idle start now (get clients k) idle h)

  open_window :
      (events : List Event) (clients : Dict Entry) (e : Entry)
      → get clients k ≡ some e
      → AreWithin 0 e.reset_at events
      → let_through events clients ≡ min (asked events) (limit - e.count)
  unfolding let_through asked
  open_window [] clients e h times = ground arith
  open_window (clean_up now ∷ events) clients e h (t, times) =
      open_window events (cleanup now clients) e (get-cleanup_open now clients k e h t.1) times
  open_window (request now r ∷ events) clients e h (t, times) =
      let clients' = (with_rate_limit limit window trust_proxy now r clients).1 in
      let counted_on = next_open now clients e h t.1 in
      let after = get-with_rate_limit now r clients in
      ap (λ b. one_if b + let_through events clients') (has_passed-with_rate_limit now r clients)
      ∙ counted (counts r) (leb (next now clients).count limit) (asked events)
          (let_through events clients') e.count
          (λ on. (
            ap (λ x. leb x.count limit) counted_on,
            open_window events clients' (record e { count = e.count + 1 })
                (after ∙ rw on (ap some counted_on)) times,
          ))
          (λ off. open_window events clients' e (after ∙ rw off h) times)

  idle_window :
      (events : List Event) (clients : Dict Entry) (start : ℕ)
      → IsDistinct clients
      → IsIdle start (get clients k)
      → AreWithin start (start + window) events
      → let_through events clients ≡ min (asked events) (limit - 0)
  unfolding let_through asked
  idle_window [] clients start d idle times = ground arith
  idle_window (clean_up now ∷ events) clients start d idle (t, times) =
      idle_window events (cleanup now clients) start (cleanup-IsDistinct now clients d)
        (cleanup-IsIdle start now clients k d idle) times
  idle_window (request now r ∷ events) clients start d idle (t, times) =
      let clients' = (with_rate_limit limit window trust_proxy now r clients).1 in
      let new = next_idle start now clients idle t.0 in
      let after = get-with_rate_limit now r clients in
      ap (λ b. one_if b + let_through events clients') (has_passed-with_rate_limit now r clients)
      ∙ counted (counts r) (leb (next now clients).count limit) (asked events)
          (let_through events clients') 0
          (λ on. (
            ap (λ x. leb x.count limit) new,
            open_window events clients' (record { count = 1; reset_at = now + window })
                (after ∙ rw on (ap some new))
                (All-map (λ e (p, q). (omega arith, omega arith)) events times),
          ))
          (λ off.
            idle_window events clients' start (with_rate_limit-IsDistinct now r clients d)
              (rw (after, off) idle) times)

  -- Whatever other addresses ask, and however often entries are cleaned up: of the requests that count
  -- for an address and are made within the length of a window, where the address has no open window
  -- before, exactly the first `limit` pass, or all where there are fewer.
  pub let_through_within :
      (events : List Event) (clients : Dict Entry) (start : ℕ)
      → IsDistinct clients
      → IsIdle start (get clients k)
      → AreWithin start (start + window) events
      → let_through events clients ≡ min (asked events) limit
  let_through_within events clients start d idle times =
      let all : limit - 0 ≡ limit = omega arith in
      idle_window events clients start d idle times ∙ ap (min (asked events)) all
