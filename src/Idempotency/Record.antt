-- ===== src/Idempotency/Record.antt =====
-- internal/idempotency/record.go, and the types of guard.go and store.go.
use durable_agent_execution.Prelude.{ℕ, String, Bool, Option}
use durable_agent_execution.Prelude.Int64.{ℤ}

-- A string type in the source: any other string is kept as it is.
pub data RecordState : Type 0 where
  claimed resolved : RecordState
  other_state : String → RecordState

pub record IdemRecord : Type 0 where
  pub state : RecordState
  pub run_id : String
  pub step : ℤ
  pub tool_use_id : String
  pub tool_name : String
  pub args_hash : String
  pub claim_token : String
  pub claimed_by : String
  pub claimed_at : ℕ
  pub resolved_at : Option ℕ
  pub result : Option String
  pub status : Option String
  pub resolution : Option String

pub record ClaimResult : Type 0 where
  pub acquired : Bool
  pub existing : Option IdemRecord

pub data Resolution : Type 0 where
  executed cached reconciled reexecuted : Resolution

unfoldable pub resolution_name : Resolution → String
resolution_name executed = "executed"
resolution_name cached = "cached"
resolution_name reconciled = "reconciled"
resolution_name reexecuted = "reexecuted"

-- What the caller journals as ToolResulted.
pub record Outcome : Type 0 where
  pub result : String
  pub status : String
  pub resolution : Resolution

-- CrashPoint of crash.go.
pub data CrashPoint : Type 0 where
  after_claim after_execute after_resolve : CrashPoint
