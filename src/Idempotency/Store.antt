-- ===== src/Idempotency/Store.antt =====
-- The interface Store of internal/idempotency/store.go.
use durable_agent_execution.Prelude.{String, Option}
use durable_agent_execution.Idempotency.Process.{Process}
use durable_agent_execution.Idempotency.Record.{IdemRecord, ClaimResult}

pub record Store (W : Type 0) : Type 0 where
  pub claim : String → IdemRecord → Process W ClaimResult
  pub get_record : String → Process W (Option IdemRecord)
  pub resolve : String → String → IdemRecord → Process W (Unit {0})
  pub take_over : String → String → IdemRecord → Process W (Unit {0})
