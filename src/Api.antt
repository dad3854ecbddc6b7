-- ===== src/Api.antt =====
-- internal/api: the requests, and what is asked of them before they reach a handler.
pub mod Auth
pub mod RateLimit
mod Window
mod Chain
mod Tests
use logtailr.Base.{ℕ, String, Option, none, some}

-- What the middlewares read of a request. A header or a query parameter that is not given is "", as
-- Header.Get and Values.Get have it.
pub record Request : Type 0 where
  pub method : String
  pub path : String
  pub authorization : String
  pub query_token : String
  pub remote_addr : String
  pub forwarded_for : String

-- the request reaches the next handler, or is answered with a status and a text
pub data Reply : Type 0 where
  passed : Reply
  refused : ℕ → String → Reply

-- the status of an answer that no handler gives
abbrev pub status : Reply → Option ℕ
status passed = none
status (refused code text) = some code
