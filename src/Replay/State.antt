-- ===== src/Replay/State.antt =====
-- internal/replay/state.go: the state of a run, and what the fold reads of a content block.
use durable_agent_execution.Prelude.{ℕ, String, Bool, false, Option, none, List, []}
use durable_agent_execution.Prelude.Int64.{ℤ, pos}
use durable_agent_execution.Json.{Json, RawMessage}
use durable_agent_execution.Events.{RunFailedPayload, ToolResultedPayload}

pub data RunStatus : Type 0 where
  unset running awaiting_approval completed failed cancelled : RunStatus

pub data NextAction : Type 0 where
  unset call_llm execute_tool resolve_in_flight_tool fail_max_steps finish_run nothing : NextAction

-- What block.AsAny() of the SDK gives: a TextBlock, a ToolUseBlock (id, name, input), or another.
pub data BlockView : Type 0 where
  text : String → BlockView
  tool_use : String → String → RawMessage → BlockView
  other : BlockView

-- anthropic.ContentBlockUnion: the JSON that it was decoded from, and its view.
pub record Block : Type 0 where
  pub raw_json : Json
  pub as_any : BlockView

-- The SDK's decoding of a content array. What it accepts is not part of this repository.
pub record Sdk : Type 0 where
  pub decode_content : Json → Option (List Block)

pub record ToolCall : Type 0 where
  pub tool_use_id : String
  pub tool_name : String
  pub tool_args : RawMessage
  pub has_side_effect : Bool
  pub idempotency_key : Option String
  pub invoked_at : ℕ

-- `invocation` in the source.
pub record Journaled : Type 0 where
  pub has_side_effect : Bool
  pub idempotency_key : Option String
  pub invoked_at : ℕ

-- The zero value, which a read of an absent key gives.
abbrev pub no_journaled : Journaled
no_journaled = record { has_side_effect = false; idempotency_key = none; invoked_at = 0 }

pub record StepRecord : Type 0 where
  pub content : List Block
  pub is_terminal : Bool
  pub stop_reason : String
  pub invoked : List (String × Journaled)
  pub order : List String
  pub invoked_order : List String
  pub results : List (String × ToolResultedPayload)

pub record RunState : Type 0 where
  pub run_id : String
  pub tenant_id : String
  pub status : RunStatus
  pub current_step : ℤ
  pub max_steps : ℤ
  pub next_sequence : ℤ
  pub last_event_id : String
  pub last_event_at : ℕ
  pub pending_tool_calls : List ToolCall
  pub in_flight_tool : Option ToolCall
  pub next_action : NextAction
  pub final_output : String
  pub failure : Option RunFailedPayload
  pub prompt : String
  pub steps : List StepRecord
  pub seen : List (ℤ × String)

-- RunState{}
abbrev pub empty_state : RunState
empty_state = record {
  run_id = "";
  tenant_id = "";
  status = RunStatus.unset;
  current_step = pos 0;
  max_steps = pos 0;
  next_sequence = pos 0;
  last_event_id = "";
  last_event_at = 0;
  pending_tool_calls = [];
  in_flight_tool = none;
  next_action = NextAction.unset;
  final_output = "";
  failure = none;
  prompt = "";
  steps = [];
  seen = [];
}
