-- ===== src/Api/Chain.antt =====
-- internal/api/server.go: the middlewares as NewServer nests them.
use logtailr.Base.{
  ℕ, String, ◌≡◌, refl, ap, ◌∙◌, Bool, not, ◌&&◌, Option, none, some, List, [], ◌∷◌, str_eq,
  if◌then◌else◌, arith, Bool-cases, inl, inr,
}
use logtailr.Base.Dict.{Dict}
use logtailr.Api.{Request, Reply, passed, refused, status}
use logtailr.Api.Auth.{with_auth, may_pass, status-with_auth}
use logtailr.Api.RateLimit.{Entry, with_rate_limit}

-- withCORS, without the headers: a preflight request is answered here, any other goes on
unfoldable pub with_cors : Request → Reply
with_cors r = if str_eq r.method "OPTIONS" then refused 204 "" else passed

-- a request that the outer middleware answers does not reach the inner one
unfoldable pub within : Reply → Dict Entry → Reply × Dict Entry → Reply × Dict Entry
within passed clients inner = inner
within (refused code text) clients inner = (refused code text, clients)

-- The handler of NewServer: the limit of 300 requests a minute stands within the check of the token,
-- and this within withCORS. The two between them only set headers.
unfoldable pub serve : String → Bool → ℕ → Request → Dict Entry → Reply × Dict Entry
unfolding with_cors within with_auth with_rate_limit
serve token trust_proxy now r clients =
    within (with_cors r) clients (
      within (with_auth token r) clients
        (with_rate_limit 300 60000000000 trust_proxy now r clients))

abbrev pub is_preflight : Request → Bool
is_preflight r = str_eq r.method "OPTIONS"

-- does a request reach the limit?
abbrev pub reaches_limit : String → Request → Bool
reaches_limit token r = not (is_preflight r) && may_pass token r

-- the first of the answers, and the rest
first : List (Option ℕ) → Option ℕ × List (Option ℕ)
first [] = (none, [])
first (a ∷ answers) = (a, answers)

module _ (token : String) (trust_proxy : Bool) where
  -- the answers to requests, each at its time, one after the other
  unfoldable pub statuses : List (ℕ × Request) → Dict Entry → List (Option ℕ)
  unfolding serve
  statuses [] clients = []
  statuses ((now, r) ∷ requests) clients =
      let (reply, clients') = serve token trust_proxy now r clients in
      status reply ∷ statuses requests clients'

  -- the counts of the addresses after them
  unfoldable pub after : List (ℕ × Request) → Dict Entry → Dict Entry
  unfolding serve
  after [] clients = clients
  after ((now, r) ∷ requests) clients = after requests (serve token trust_proxy now r clients).1

  -- the answers of the limit alone
  unfoldable pub limit_statuses : List (ℕ × Request) → Dict Entry → List (Option ℕ)
  unfolding with_rate_limit
  limit_statuses [] clients = []
  limit_statuses ((now, r) ∷ requests) clients =
      let (reply, clients') = with_rate_limit 300 60000000000 trust_proxy now r clients in
      status reply ∷ limit_statuses requests clients'

  unfoldable pub limit_after : List (ℕ × Request) → Dict Entry → Dict Entry
  unfolding with_rate_limit
  limit_after [] clients = clients
  limit_after ((now, r) ∷ requests) clients =
      limit_after requests (with_rate_limit 300 60000000000 trust_proxy now r clients).1

  -- the requests that reach the limit
  unfoldable pub limited : List (ℕ × Request) → List (ℕ × Request)
  limited [] = []
  limited ((now, r) ∷ requests) =
      let rest = limited requests in if reaches_limit token r then (now, r) ∷ rest else rest

  merged_at : Request → List (Option ℕ) → Option ℕ × List (Option ℕ)
  unfolding first
  merged_at r answers =
      if is_preflight r
      then (some 204, answers)
      else (if may_pass token r then first answers else (some 401, answers))

  -- The answers to requests where those that reach the limit are answered from a list, one after the
  -- other.
  unfoldable pub merged : List (ℕ × Request) → List (Option ℕ) → List (Option ℕ)
  unfolding merged_at
  merged [] answers = []
  merged ((now, r) ∷ requests) answers =
      let here = merged_at r answers in here.0 ∷ merged requests here.1

  unanswered :
      (o : Reply) (clients : Dict Entry) (inner : Reply × Dict Entry)
      → status o ≡ none
      → within o clients inner ≡ inner
  unfolding within
  unanswered passed clients inner h = refl
  unanswered (refused code text) clients inner h = ground arith

  answered :
      (o : Reply) (clients : Dict Entry) (inner : Reply × Dict Entry) (code : ℕ)
      → status o ≡ some code
      → (status (within o clients inner).0 ≡ some code) × ((within o clients inner).1 ≡ clients)
  unfolding within
  answered passed clients inner code h = ground arith
  answered (refused c text) clients inner code h = (h, refl)

  -- what the answers to one request and to those after it come to
  Follows : ℕ → Request → List (ℕ × Request) → Dict Entry → Reply × Dict Entry → Type 0
  Follows now r requests clients (reply, clients') =
      (status reply ∷ merged requests (limit_statuses (limited requests) clients')
        ≡ merged ((now, r) ∷ requests) (limit_statuses (limited ((now, r) ∷ requests)) clients))
      × (limit_after (limited requests) clients'
          ≡ limit_after (limited ((now, r) ∷ requests)) clients)

  serve-Follows :
      (now : ℕ) (r : Request) (requests : List (ℕ × Request)) (clients : Dict Entry)
      → Follows now r requests clients (serve token trust_proxy now r clients)
  unfolding Follows serve merged merged_at limited limit_statuses limit_after first
  serve-Follows now r requests clients =
      let limit = with_rate_limit 300 60000000000 trust_proxy now r clients in
      let inner = within (with_auth token r) clients limit in
      elim (Bool-cases (is_preflight r)) [
        | inl pre ↦ rw pre (refl, refl)
        | inr other ↦ elim (Bool-cases (may_pass token r)) [
          | inl may ↦
              let through =
                unanswered (with_auth token r) clients limit
                  (status-with_auth token r ∙ rw may refl) in
              rw (other, through, may) (refl, refl)
          | inr not_allowed ↦
              let (code, same) =
                answered (with_auth token r) clients limit 401
                  (status-with_auth token r ∙ rw not_allowed refl) in
              rw (other, code, same, not_allowed) (refl, refl)
        ]
      ]

  -- Of any requests, the limit sees exactly those that are no preflight of CORS and that the token lets
  -- pass, and it answers and counts as if there were no others. Every preflight is answered with 204,
  -- every other request with 401, however many there were: guesses of the token are not limited.
  pub statuses-limited :
      (requests : List (ℕ × Request)) (clients : Dict Entry)
      → (statuses requests clients ≡ merged requests (limit_statuses (limited requests) clients))
        × (after requests clients ≡ limit_after (limited requests) clients)
  unfolding statuses after merged limited limit_statuses limit_after Follows
  statuses-limited [] clients = (refl, refl)
  statuses-limited ((now, r) ∷ requests) clients =
      let (reply, clients') = serve token trust_proxy now r clients in
      let (ih, ih') = statuses-limited requests clients' in
      let (e, e') = serve-Follows now r requests clients in
      (ap (λ l. status reply ∷ l) ih ∙ e, ih' ∙ e')
