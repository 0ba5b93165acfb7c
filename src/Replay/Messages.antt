-- ===== src/Replay/Messages.antt =====
-- internal/replay/messages.go: Messages, the conversation that a run's steps stand for.
use durable_agent_execution.Prelude.{
  String, Bool, true, false, none, some, List, [], ◌∷◌, ite, str_dec, if◌then◌else◌, is_nil,
}
use durable_agent_execution.Prelude.Dict.{get}
use durable_agent_execution.Prelude.Int64.{pos}
use durable_agent_execution.Events.{ToolResultedPayload}
use durable_agent_execution.Replay.State.{Block, StepRecord, RunState}
use durable_agent_execution.Replay.Transitions.{all_resulted}

-- anthropic.ContentBlockParamUnion: a text, a response block through ToParam(), or a tool result
-- (its id, its text, whether it is an error).
pub data ParamBlock : Type 0 where
  new_text : String → ParamBlock
  to_param : Block → ParamBlock
  new_tool_result : String → String → Bool → ParamBlock

-- anthropic.MessageParam, by its role.
pub data Message : Type 0 where
  user : List ParamBlock → Message
  assistant : List ParamBlock → Message

unfoldable pub params : List Block → List ParamBlock
params [] = []
params (b ∷ bs) = to_param b ∷ params bs

-- The zero ToolResultedPayload, which a read of an absent key gives.
abbrev no_result : ToolResultedPayload
no_result = record {
  step = pos 0;
  tool_use_id = "";
  tool_name = "";
  result = "";
  status = "";
  was_replayed_from_cache = false;
  resolution = "";
}

unfoldable pub result_for : StepRecord → String → ToolResultedPayload
unfolding get
result_for step id = elim (get str_dec step.results id) [ some r ↦ r | none ↦ no_result ]

unfoldable pub result_blocks : StepRecord → List String → List ParamBlock
unfolding result_for
result_blocks step [] = []
result_blocks step (id ∷ ids) =
    let r = result_for step id in
    new_tool_result id r.result (ite (str_dec r.status "error") true false) ∷ result_blocks step ids

-- The loop over the steps: a step whose batch is open ends it.
unfoldable pub step_messages : List StepRecord → List Message
unfolding params all_resulted result_blocks
step_messages [] = []
step_messages (step ∷ steps) =
    let rest = step_messages steps in
    assistant (params step.content)
    ∷ (if is_nil step.order
        then rest
        else if all_resulted step
        then user (result_blocks step step.order) ∷ rest
        else [])

unfoldable pub messages : RunState → List Message
unfolding step_messages
messages s = user (new_text s.prompt ∷ []) ∷ step_messages s.steps
