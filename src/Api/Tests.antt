-- ===== src/Api/Tests.antt =====
-- Tries the middlewares of internal/api.
use logtailr.Base.{ℕ, ◌≡◌, refl, true, false, none, some, List, [], ◌∷◌, if◌then◌else◌, arith}
use logtailr.Base.Dict.{get}
use logtailr.Base.Text.{has_prefix}
use logtailr.Base.Space.{trim_space}
use logtailr.Api.{Request, refused, status}
use logtailr.Api.Auth.{with_auth, may_pass, status-with_auth, extract_bearer_token}
use logtailr.Api.RateLimit.{client_ip}
use logtailr.Api.Window.{Event, request, clean_up, asked, let_through, let_through_within, min}
use logtailr.Api.Chain.{
  statuses, after, limited, merged, limit_statuses, limit_after, statuses-limited,
}

abbrev sources_request : Request
sources_request = record {
  method = "GET";
  path = "/api/v1/sources";
  authorization = "Bearer s3cret ";
  query_token = "";
  remote_addr = "10.0.0.7:5123";
  forwarded_for = "192.0.2.1, 10.0.0.7";
}

abbrev guess : Request
guess = record sources_request { authorization = "Bearer guess" }

bearer :
    (extract_bearer_token sources_request ≡ "s3cret")
    × (with_auth "s3cret" guess ≡ refused 401 "invalid token")
unfolding extract_bearer_token with_auth trim_space has_prefix
bearer = (refl, refl)

addresses :
    (client_ip false sources_request ≡ "10.0.0.7") × (client_ip true sources_request ≡ "192.0.2.1")
unfolding client_ip trim_space
addresses = (refl, refl)

status-with_auth_example :
    status (with_auth "s3cret" guess) ≡ (if may_pass "s3cret" guess then none else some 401)
status-with_auth_example = status-with_auth "s3cret" guess

abbrev preflight : Request
preflight = record guess { method = "OPTIONS" }

abbrev requests : List (ℕ × Request)
requests = (1, guess) ∷ (2, preflight) ∷ (3, sources_request) ∷ (4, guess) ∷ []

answers : statuses "s3cret" false requests [] ≡ some 401 ∷ some 204 ∷ none ∷ some 401 ∷ []
unfolding statuses extract_bearer_token trim_space has_prefix get
answers = refl

statuses-limited_example :
    (statuses "s3cret" false requests []
      ≡ merged "s3cret" false requests
          (limit_statuses "s3cret" false (limited "s3cret" false requests) []))
    × (after "s3cret" false requests []
        ≡ limit_after "s3cret" false (limited "s3cret" false requests) [])
statuses-limited_example = statuses-limited "s3cret" false requests []

abbrev events : List Event
events =
    request 5 sources_request
    ∷ clean_up 6
    ∷ request 7 sources_request
    ∷ request 15 sources_request
    ∷ []

-- of three requests two pass
let_through_within_example :
    let_through 2 10 false "10.0.0.7" events [] ≡ min (asked 2 10 false "10.0.0.7" events) 2
let_through_within_example =
    let_through_within 2 10 false "10.0.0.7" events [] 5 tt (unfold get in tt) (
      (omega arith, omega arith),
      ((omega arith, omega arith), ((omega arith, omega arith), ((omega arith, omega arith), tt))),
    )
