-- ===== src/Api/Auth.antt =====
-- internal/api/middleware.go: withAuth.
use Prim.Native.String.{[] as empty, ◌∷◌ as ◌⊲◌}
use logtailr.Base.{
  ℕ, suc, zero, String, ◌≡◌, Bool, not, ◌&&◌, ◌||◌, str_eq, eq_iff, if◌then◌else◌, arith, none,
  some,
}
use logtailr.Base.Text.{has_prefix}
use logtailr.Base.Space.{trim_space}
use logtailr.Api.{Request, Reply, passed, refused, status}

-- s[n:]
unfoldable pub skip : ℕ → String → String
skip zero s = s
skip (suc n) empty = empty
skip (suc n) (c ⊲ s) = skip n s

-- extractBearerToken
unfoldable pub extract_bearer_token : Request → String
unfolding skip
extract_bearer_token r =
    if has_prefix r.authorization "Bearer " then trim_space (skip 7 r.authorization) else ""

-- withAuth, with the handler that it guards left out
unfoldable pub with_auth : String → Request → Reply
with_auth token r =
    let bearer = extract_bearer_token r in
    if str_eq token ""
    then passed
    else (if str_eq r.path "/health" || str_eq r.path "/metrics"
        then passed
        else (if str_eq r.path "/" || has_prefix r.path "/assets/" || str_eq r.path "/favicon.svg"
            then passed
            else (if str_eq r.path "/ws/logs"
                then (if str_eq r.query_token token
                    then passed
                    else (if str_eq bearer token then passed else refused 401 "unauthorized"))
                else (if str_eq bearer ""
                    then refused 401 "authentication required"
                    else (if not (str_eq bearer token)
                        then refused 401 "invalid token"
                        else passed)))))

-- the paths that are open to all
abbrev pub is_public : String → Bool
is_public path =
    str_eq path "/health"
    || str_eq path "/metrics"
    || str_eq path "/"
    || has_prefix path "/assets/"
    || str_eq path "/favicon.svg"

-- does the request carry the token where its path may carry one?
abbrev pub presents : String → Request → Bool
presents token r =
    str_eq (extract_bearer_token r) token
    || (str_eq r.path "/ws/logs" && str_eq r.query_token token)

-- the token is not asked for, or is there
abbrev pub may_pass : String → Request → Bool
may_pass token r = str_eq token "" || is_public r.path || presents token r

-- A request passes exactly where the server has no token, the path is open to all, or the request
-- carries the token: as a bearer token, or for the WebSocket as a query parameter. Any other is
-- answered with the status 401.
pub status-with_auth :
    (token : String) (r : Request)
    → status (with_auth token r) ≡ (if may_pass token r then none else some 401)
unfolding with_auth
status-with_auth token r = ground (
  arith,
  eq_iff (extract_bearer_token r) token,
  eq_iff (extract_bearer_token r) "",
  eq_iff token "",
)
