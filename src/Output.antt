-- ===== src/Output.antt =====
-- internal/output: the writers.
pub mod Multi
pub mod OpenSearch
pub mod File
pub mod Webhook
pub mod Tests
use logtailr.Base.{Option}
use logtailr.Logline.{LogLine}

-- output.go's `Writer`: a writer takes lines and is closed; either may fail, and changes it.
pub record Writers : Type 1 where
  pub Writer : Type 0
  pub Error : Type 0
  pub write : LogLine → Writer → Option Error × Writer
  pub close : Writer → Option Error × Writer
