-- ===== src/Replay/Transitions.antt =====
-- internal/replay/fold.go: applyPayload and the transition of each payload.
use durable_agent_execution.Prelude.{
  ℕ, String, Bool, true, false, Option, none, some, List, [], ◌∷◌, ◌++◌, ite, str_dec, is_nil,
  if◌then◌else◌, get_last?, set_last, Result, ok, err, ◌>>=◌,
}
use durable_agent_execution.Prelude.Dict.{get, put}
use durable_agent_execution.Prelude.Int64.{pos}
use durable_agent_execution.Json.{RawMessage, into_string, read, members}
use durable_agent_execution.Errors.{Error, unknown_tool_use_id, tool_order, message}
use durable_agent_execution.Events.{
  Payload, started, responded, invoked, resulted, awaiting, approved, completed, failed, cancelled,
  RunStartedPayload, LlmRespondedPayload, ToolInvokedPayload, ToolResultedPayload,
}
use durable_agent_execution.Replay.State.{RunStatus, tool_use, Block, Sdk, StepRecord, RunState}

unfoldable pub contains : List String → String → Bool
contains [] id = false
contains (existing ∷ ids) id = ite (str_dec existing id) true (contains ids id)

unfoldable pub has_result : StepRecord → String → Bool
has_result step id = elim (get str_dec step.results id) [ some r ↦ true | none ↦ false ]

-- The loop of allResulted over the remaining ids.
unfoldable pub all_of_resulted : StepRecord → List String → Bool
unfolding has_result
all_of_resulted step [] = true
all_of_resulted step (id ∷ ids) = if has_result step id then all_of_resulted step ids else false

unfoldable pub all_resulted : StepRecord → Bool
unfolding all_of_resulted
all_resulted step = all_of_resulted step step.order

-- The decoding of {"prompt": string}.
unfoldable pub decode_prompt : RawMessage → Option String
unfolding members read into_string
decode_prompt none = none
decode_prompt (some j) = elim (members j) [
  | none ↦ none
  | some fs ↦ read into_string "prompt" "" fs
]

unfoldable pub apply_run_started : RunState → RunStartedPayload → Result Error RunState
unfolding decode_prompt
apply_run_started next p = elim (decode_prompt p.input) [
  | none ↦ err (message "decoding RunStarted input")
  | some prompt ↦ ok (record next {
    status = RunStatus.running;
    current_step = pos 0;
    max_steps = p.max_steps;
    prompt = prompt;
  })
]

-- The tool_use ids of a content, in content order.
unfoldable pub tool_use_ids : List Block → List String
tool_use_ids [] = []
tool_use_ids (b ∷ bs) = elim b.as_any [
  | tool_use id name input ↦ id ∷ tool_use_ids bs
  | _ ↦ tool_use_ids bs
]

-- The batch of the last step is still open.
unfoldable pub batch_open : List StepRecord → Bool
unfolding all_resulted
batch_open steps = elim (get_last? steps) [
  | none ↦ false
  | some prev ↦ if is_nil prev.order then false else if all_resulted prev then false else true
]

unfoldable pub decode_blocks : Sdk → RawMessage → Option (List Block)
decode_blocks sdk none = none
decode_blocks sdk (some j) = sdk.decode_content j

unfoldable pub new_step : LlmRespondedPayload → List Block → StepRecord
unfolding tool_use_ids
new_step p content = record {
  content = content;
  is_terminal = p.is_terminal;
  stop_reason = p.stop_reason;
  invoked = [];
  order = tool_use_ids content;
  invoked_order = [];
  results = [];
}

unfoldable pub apply_llm_responded : Sdk → RunState → LlmRespondedPayload → Result Error RunState
unfolding batch_open decode_blocks new_step
apply_llm_responded sdk next p =
    if batch_open next.steps then err tool_order else elim (decode_blocks sdk p.content) [
      | none ↦ err (message "decoding LLMResponded content")
      | some content ↦
          ok (record next { current_step = p.step; steps = next.steps ++ new_step p content ∷ [] })
    ]

-- The last step, if the tool_use_id belongs to it. The source's pointer into next.steps is the
-- `set_last` of the callers.
unfoldable pub current_step_for : RunState → String → Result Error StepRecord
unfolding contains
current_step_for next id = elim (get_last? next.steps) [
  | none ↦ err unknown_tool_use_id
  | some step ↦ if contains step.order id then ok step else err unknown_tool_use_id
]

-- The writes of applyToolInvoked to its step.
unfoldable pub note_invoked : StepRecord → ToolInvokedPayload → ℕ → StepRecord
unfolding put
note_invoked step p occurred_at = record step {
  invoked_order = step.invoked_order ++ p.tool_use_id ∷ [];
  invoked = put str_dec step.invoked p.tool_use_id (record {
    has_side_effect = p.has_side_effect;
    idempotency_key = p.idempotency_key;
    invoked_at = occurred_at;
  });
}

unfoldable pub apply_tool_invoked : RunState → ToolInvokedPayload → ℕ → Result Error RunState
unfolding current_step_for note_invoked
apply_tool_invoked next p occurred_at = do
  step ← current_step_for next p.tool_use_id
  if contains step.invoked_order p.tool_use_id
      then err tool_order
      else ok (record next { steps = set_last next.steps (note_invoked step p occurred_at) })

unfoldable pub note_result : StepRecord → ToolResultedPayload → StepRecord
unfolding put
note_result step p = record step { results = put str_dec step.results p.tool_use_id p }

-- The second half of applyToolResulted.
unfoldable pub result_once : RunState → ToolResultedPayload → StepRecord → Result Error RunState
unfolding note_result has_result
result_once next p step =
    if has_result step p.tool_use_id
    then err tool_order
    else ok (record next { steps = set_last next.steps (note_result step p) })

unfoldable pub apply_tool_resulted : RunState → ToolResultedPayload → Result Error RunState
unfolding current_step_for result_once
apply_tool_resulted next p = do
  step ← current_step_for next p.tool_use_id
  if contains step.invoked_order p.tool_use_id then result_once next p step else err tool_order

unfoldable pub apply_payload : Sdk → RunState → Payload → ℕ → Result Error RunState
unfolding apply_run_started apply_llm_responded apply_tool_invoked apply_tool_resulted
apply_payload sdk next (started p) occurred_at = apply_run_started next p
apply_payload sdk next (responded p) occurred_at = apply_llm_responded sdk next p
apply_payload sdk next (invoked p) occurred_at = apply_tool_invoked next p occurred_at
apply_payload sdk next (resulted p) occurred_at = apply_tool_resulted next p
apply_payload sdk next (awaiting p) occurred_at =
    ok (record next { status = RunStatus.awaiting_approval })
apply_payload sdk next (approved p) occurred_at = ok (record next { status = RunStatus.running })
apply_payload sdk next (completed p) occurred_at =
    ok (record next { status = RunStatus.completed; final_output = p.final_output })
apply_payload sdk next (failed p) occurred_at =
    ok (record next { status = RunStatus.failed; failure = some p })
apply_payload sdk next (cancelled p) occurred_at = ok (record next { status = RunStatus.cancelled })
