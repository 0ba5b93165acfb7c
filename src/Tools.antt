-- ===== src/Tools.antt =====
-- internal/tools/tool.go: what a tool is asked, and what it answers.
pub mod Definitions
pub mod Deterministic
pub mod Host
pub mod Ledger
pub mod Mocks
pub mod Written
pub mod Effects
pub mod Recorded
pub mod Executing
pub mod Fenced
use durable_agent_execution.Prelude.Dict.{get, put}
use durable_agent_execution.Prelude.{String, Bool, Option, List, ◌∷◌, str_dec, []}
use durable_agent_execution.Prelude.Int64.{ℤ}
use durable_agent_execution.Json.{RawMessage}
use durable_agent_execution.Idempotency.Process.{Process}

pub record Invocation : Type 0 where
  pub run_id : String
  pub step : ℤ
  pub tool_use_id : String
  pub idempotency_key : Option String

-- The error of an Execute: ErrOutcomeUnknown, or any other, by its text.
pub data ExecError : Type 0 where
  outcome_unknown_error : ExecError
  failure : String → ExecError

-- What an Execute under a deadline comes back with: a result, perhaps an error, and whether its
-- context was done by then (execCtx.Err() != nil).
pub record Executed : Type 0 where
  pub result : String
  pub error : Option ExecError
  pub ctx_done : Bool

pub record ReconcileResult : Type 0 where
  pub applied : Bool
  pub result : String

-- A Tool; `reconcile` is `some` for a tool that implements Reconciler.
pub record Tool (W : Type 0) : Type 0 where
  pub name : String
  pub has_side_effect : Bool
  pub execute : Invocation → RawMessage → Process W Executed
  pub reconcile : Option (Invocation → RawMessage → Process W ReconcileResult)

-- Registry: the tools by their names, the last one of a name wins.
abbrev pub Registry : Type 0 → Type 0
Registry W = List (String × Tool W)

unfoldable pub new_registry : {W : Type 0} → List (Tool W) → Registry W
new_registry ts = register [] ts
  where
    register : {W : Type 0} → Registry W → List (Tool W) → Registry W
    register reg [] = reg
    register reg (t ∷ ts) = register (put str_dec reg t.name t) ts

unfoldable pub lookup : {W : Type 0} → Registry W → String → Option (Tool W)
lookup reg name = get str_dec reg name
