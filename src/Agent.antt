-- ===== src/Agent.antt =====
-- internal/agent: the loop that runs a task, and the types of types.go and llmclient.go.
pub mod Loop
pub mod Drive
pub mod Accepted
pub mod Offers
pub mod Progress
pub mod Journal
pub mod Live
use durable_agent_execution.Errors.{Error}
use durable_agent_execution.Idempotency.Record.{Outcome as Verdict}
use durable_agent_execution.Tools.{Invocation, Tool}
use durable_agent_execution.Replay.Messages.{Message}
use durable_agent_execution.Idempotency.Process.{Process}
use durable_agent_execution.Events.{Envelope}
use durable_agent_execution.Replay.State.{Block, ToolCall}
use durable_agent_execution.Prelude.Int64.{ℤ}
use durable_agent_execution.Prelude.{ℕ, String, Bool, Option, List}

pub record Task : Type 0 where
  pub prompt : String

pub record Outcome : Type 0 where
  pub terminal : Bool
  pub max_steps_exceeded : Bool
  pub steps : ℤ
  pub final_text : String
  pub truncated : Bool
  pub failed : Bool

-- An error of the Messages API (its status code), of the network, or another; with its text.
pub data LlmError : Type 0 where
  api_error : ℕ → String → LlmError
  network_error : String → LlmError
  other_error : String → LlmError

abbrev pub llm_error_text : LlmError → String
llm_error_text (api_error status text) = text
llm_error_text (network_error text) = text
llm_error_text (other_error text) = text

-- anthropic.Message, as far as the loop reads it.
pub record LlmResponse : Type 0 where
  pub stop_reason : String
  pub content : List Block

pub data LlmReply : Type 0 where
  replied : Option LlmResponse → LlmReply
  call_failed : LlmError → LlmReply

pub record JournalConfig : Type 0 where
  pub run_id : String
  pub tenant_id : String
  pub workload_type : String
  pub crash_after_seq : ℤ

-- What a Loop is given: the Publisher, the wait between two tries (which a context that is done
-- ends with an error), the clock, fresh uuids, the model, and the fence.
pub record Surroundings (W : Type 0) : Type 0 where
  pub publish : Envelope → Process W (Unit {0})
  pub wait : ℕ → Process W (Unit {0})
  pub now : Process W ℕ
  pub new_uuid : Process W String
  pub create_message : List Message → Process W LlmReply
  pub fence : Option (Invocation → ToolCall → Tool W → Process W Verdict)
  -- The text of an error, which the errors of the model do not carry.
  pub error_text : Error → String
