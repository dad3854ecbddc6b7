-- ===== src/Alert.antt =====
-- internal/alert/alert.go: rules and the events that they raise.
pub mod RateLimit
pub mod Evaluator
pub mod Engine
pub mod Samples
use logtailr.Base.{ℕ, String}
use logtailr.Base.Int.{ℤ}

-- `kind` is the field `Type`.
pub record Rule : Type 0 where
  pub name : String
  pub kind : String
  pub severity : String
  pub pattern : String
  pub level : String
  pub source : String
  pub threshold : ℤ
  pub window : ℤ
  pub cooldown : ℤ

pub record Event : Type 0 where
  pub rule : String
  pub severity : String
  pub message : String
  pub source : String
  pub timestamp : ℕ
  pub count : ℕ
