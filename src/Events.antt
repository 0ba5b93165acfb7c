-- ===== src/Events.antt =====
-- internal/events/types.go and the envelope of internal/events/envelope.go.
pub mod Codec
pub mod Payloads
pub mod RoundTrip
use durable_agent_execution.Prelude.{ℕ, String, Bool, true, false, Option, none, some, ite, str_dec}
use durable_agent_execution.Prelude.Int64.{ℤ}
use durable_agent_execution.Json.{RawMessage}

-- A string type in the source: any other string is kept as it is.
pub data EventType : Type 0 where
  run_started llm_responded tool_invoked tool_resulted awaiting_approval : EventType
  run_approved run_completed run_failed run_cancelled : EventType
  other_type : String → EventType

unfoldable pub type_name : EventType → String
type_name run_started = "RunStarted"
type_name llm_responded = "LLMResponded"
type_name tool_invoked = "ToolInvoked"
type_name tool_resulted = "ToolResulted"
type_name awaiting_approval = "AwaitingApproval"
type_name run_approved = "RunApproved"
type_name run_completed = "RunCompleted"
type_name run_failed = "RunFailed"
type_name run_cancelled = "RunCancelled"
type_name (other_type s) = s

unfoldable pub type_of_name : String → EventType
type_of_name s = ite (str_dec s "RunStarted") run_started (
    ite (str_dec s "LLMResponded") llm_responded (
      ite (str_dec s "ToolInvoked") tool_invoked (
        ite (str_dec s "ToolResulted") tool_resulted (
          ite (str_dec s "AwaitingApproval") awaiting_approval (
            ite (str_dec s "RunApproved") run_approved (
              ite (str_dec s "RunCompleted") run_completed (
                ite (str_dec s "RunFailed") run_failed
                  (ite (str_dec s "RunCancelled") run_cancelled (other_type s)))))))))

-- knownEventTypes
abbrev pub known_event_types : EventType → Bool
known_event_types (other_type s) = false
known_event_types _ = true

pub record RunStartedPayload : Type 0 where
  pub workload_type : String
  pub input : RawMessage
  pub max_steps : ℤ

pub record LlmRespondedPayload : Type 0 where
  pub step : ℤ
  pub stop_reason : String
  pub content : RawMessage
  pub is_terminal : Bool

pub record ToolInvokedPayload : Type 0 where
  pub step : ℤ
  pub tool_use_id : String
  pub tool_name : String
  pub tool_args : RawMessage
  pub idempotency_key : Option String
  pub has_side_effect : Bool

pub record ToolResultedPayload : Type 0 where
  pub step : ℤ
  pub tool_use_id : String
  pub tool_name : String
  pub result : String
  pub status : String
  pub was_replayed_from_cache : Bool
  pub resolution : String

pub record AwaitingApprovalPayload : Type 0 where
  pub step : ℤ
  pub reason : String
  pub approval_payload : RawMessage

pub record RunApprovedPayload : Type 0 where
  pub step : ℤ
  pub approved_by : String
  pub decision : String
  pub notes : String

pub record RunCompletedPayload : Type 0 where
  pub final_output : String
  pub total_steps : ℤ

pub record RunFailedPayload : Type 0 where
  pub step : ℤ
  pub error_class : String
  pub error_message : String
  pub retryable : Bool

pub record RunCancelledPayload : Type 0 where
  pub step : ℤ
  pub cancelled_by : String
  pub reason : String

-- The interface Payload, by its nine implementations.
pub data Payload : Type 0 where
  started : RunStartedPayload → Payload
  responded : LlmRespondedPayload → Payload
  invoked : ToolInvokedPayload → Payload
  resulted : ToolResultedPayload → Payload
  awaiting : AwaitingApprovalPayload → Payload
  approved : RunApprovedPayload → Payload
  completed : RunCompletedPayload → Payload
  failed : RunFailedPayload → Payload
  cancelled : RunCancelledPayload → Payload

-- The EventType method of each payload.
abbrev pub event_type_of : Payload → EventType
event_type_of (started p) = run_started
event_type_of (responded p) = llm_responded
event_type_of (invoked p) = tool_invoked
event_type_of (resulted p) = tool_resulted
event_type_of (awaiting p) = awaiting_approval
event_type_of (approved p) = run_approved
event_type_of (completed p) = run_completed
event_type_of (failed p) = run_failed
event_type_of (cancelled p) = run_cancelled

-- `occurred_at` counts the nanoseconds since Go's zero time.
pub record Envelope : Type 0 where
  pub event_id : String
  pub run_id : String
  pub tenant_id : String
  pub sequence_number : ℤ
  pub event_type : EventType
  pub payload : RawMessage
  pub occurred_at : ℕ
  pub idempotency_key : Option String
