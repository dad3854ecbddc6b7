-- ===== src/Store/Rows.antt =====
-- internal/store: the rows of the tables. The times of creation and change are left out.
use logtailr.Logline.{Json}
use logtailr.Base.{ℕ, String, Bool}
use logtailr.Base.Int.{ℤ}

-- `kind` is the field `Type` of a row
pub record SourceRow : Type 0 where
  pub id : ℕ
  pub name : String
  pub kind : String
  pub path : String
  pub container : String
  pub unit : String
  pub priority : String
  pub output_format : String
  pub namespace : String
  pub pod : String
  pub label_selector : String
  pub kubeconfig : String
  pub follow : Bool
  pub parser : String

-- `config` is a JSONB value
pub record OutputRow : Type 0 where
  pub id : ℕ
  pub name : String
  pub kind : String
  pub config : Json
  pub enabled : Bool

pub record AlertRuleRow : Type 0 where
  pub id : ℕ
  pub name : String
  pub kind : String
  pub severity : String
  pub pattern : String
  pub level : String
  pub source : String
  pub threshold : ℤ
  pub window : String
  pub cooldown : String
  pub enabled : Bool
