-- ===== src/Api/RateLimit.antt =====
-- internal/api/middleware.go: withRateLimit.
use Prim.Native.Char.{code}
use Prim.Native.String.{[] as empty, ◌∷◌ as ◌⊲◌}
use logtailr.Base.{
  ℕ, ◌+◌, String, Bool, not, ◌&&◌, ◌==◌, str_eq, if◌then◌else◌, Option, none, some, [], ◌∷◌, ltb,
}
use logtailr.Base.Dict.{Dict, get, put}
use logtailr.Base.Space.{trim_space}
use logtailr.Api.{Request, Reply, passed, refused}
use logtailr.Api.Auth.{is_public}

pub record Entry : Type 0 where
  pub count : ℕ
  pub reset_at : ℕ

prepend_to : Option String → Option String → Option String
prepend_to none other = other
prepend_to (some s) other = some s

-- the text before its last colon
before_last_colon : String → Option String
before_last_colon empty = none
before_last_colon (c ⊲ s) = elim (before_last_colon s) [
  | some p ↦ some (c ⊲ p)
  | none ↦ if code c == 58 then some empty else none
]

-- strings.Split(s, ",")[0]
until_comma : String → String
until_comma empty = empty
until_comma (c ⊲ s) = let rest = until_comma s in if code c == 44 then empty else c ⊲ rest

host_of : Option String → String → String
host_of none addr = addr
host_of (some host) addr = host

-- the address that a request counts for
unfoldable pub client_ip : Bool → Request → String
unfolding before_last_colon until_comma host_of
client_ip trust_proxy r =
    if trust_proxy && not (str_eq r.forwarded_for "")
    then trim_space (until_comma r.forwarded_for)
    else host_of (before_last_colon r.remote_addr) r.remote_addr

-- the entry of an address, a new one where there is none or its window has ended
unfoldable pub entry_of : ℕ → ℕ → Option Entry → Entry
entry_of window now none = record { count = 0; reset_at = now + window }
entry_of window now (some e) =
    if ltb e.reset_at now then record { count = 0; reset_at = now + window } else e

-- the part under the lock, and its decision
unfoldable pub admit : ℕ → ℕ → ℕ → String → Dict Entry → Reply × Dict Entry
unfolding entry_of
admit limit window now ip clients =
    let e = entry_of window now (get clients ip) in
    let e' = record e { count = e.count + 1 } in
    (if ltb limit e'.count then refused 429 "rate limit exceeded" else passed, put clients ip e')

-- withRateLimit: one request at the time `now`
unfoldable pub with_rate_limit : ℕ → ℕ → Bool → ℕ → Request → Dict Entry → Reply × Dict Entry
unfolding admit
with_rate_limit limit window trust_proxy now r clients =
    if is_public r.path
    then (passed, clients)
    else admit limit window now (client_ip trust_proxy r) clients

-- one round of the clean-up: the entries whose window has ended are deleted
unfoldable pub cleanup : ℕ → Dict Entry → Dict Entry
cleanup now [] = []
cleanup now ((ip, e) ∷ clients) =
    let rest = cleanup now clients in if ltb e.reset_at now then rest else (ip, e) ∷ rest
