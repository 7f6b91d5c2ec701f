-- ===== src/Preflight.antt =====
-- The data of the preflight webhook (pkg/webhook/preflight/preflight.go): causes, check results,
-- and a check as the outcome that one call of its Run method has.
pub mod Skip
pub mod Run
pub mod Handler
use cluster_api_runtime_exte.Prelude.{Bool, List, Option, Text}

pub record Cause : Type 0 where
  pub message : Text
  pub field : Text

pub record CheckResult : Type 0 where
  pub allowed : Bool
  pub internal_error : Bool
  pub causes : List Cause
  pub warnings : List Text

pub record NamedResult : Type 0 where
  pub name : Text
  pub result : CheckResult
  pub open result use *

-- What a call of `Run` does: it returns, or it panics with a value that prints as a text.
pub data Outcome : Type 0 where
  returned : CheckResult → Outcome
  panicked : Text → Outcome

pub record Check : Type 0 where
  pub name : Text
  pub run : Outcome
