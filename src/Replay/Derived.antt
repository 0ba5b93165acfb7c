-- ===== src/Replay/Derived.antt =====
-- internal/replay/fold.go: deriveToolState and computeNextAction.
use durable_agent_execution.Prelude.{
  String, false, Option, none, some, List, [], ◌∷◌, ◌++◌, ite, str_dec, is_nil, if◌then◌else◌,
  get_last?,
}
use durable_agent_execution.Prelude.Dict.{get}
use durable_agent_execution.Prelude.Int64.{lt_int}
use durable_agent_execution.Replay.State.{
  RunStatus, NextAction, tool_use, Block, ToolCall, no_journaled, Journaled, StepRecord, RunState,
}
use durable_agent_execution.Replay.Transitions.{contains, has_result}

-- The first tool_use block with the id.
unfoldable pub tool_call_from_content : List Block → String → Option ToolCall
tool_call_from_content [] tool_use_id = none
tool_call_from_content (b ∷ bs) tool_use_id = elim b.as_any [
  | tool_use id name input ↦
      ite (str_dec id tool_use_id)
        (some (record {
          tool_use_id = id;
          tool_name = name;
          tool_args = input;
          has_side_effect = false;
          idempotency_key = none;
          invoked_at = 0;
        }))
        (tool_call_from_content bs tool_use_id)
  | _ ↦ tool_call_from_content bs tool_use_id
]

-- The copy of a journaled ToolInvoked into the call in flight.
unfoldable pub journaled_for : StepRecord → String → Journaled
unfolding get
journaled_for last id = elim (get str_dec last.invoked id) [ some j ↦ j | none ↦ no_journaled ]

unfoldable pub with_journaled : StepRecord → ToolCall → String → ToolCall
with_journaled last tc id =
    let inv = journaled_for last id in
    record tc {
      has_side_effect = inv.has_side_effect;
      idempotency_key = inv.idempotency_key;
      invoked_at = inv.invoked_at;
    }

-- One round of the loop of deriveToolState, over the pending calls and the call in flight so far.
unfoldable pub derive_one :
    StepRecord → String → List ToolCall × Option ToolCall → List ToolCall × Option ToolCall
derive_one last id (pending, flight) =
    if has_result last id
    then (pending, flight)
    else elim (tool_call_from_content last.content id) [
      | none ↦ (pending, flight)
      | some tc ↦
          if contains last.invoked_order id
          then elim flight [
            | none ↦ (pending, some (with_journaled last tc id))
            | some c ↦ (pending, some c)
          ]
          else (pending ++ tc ∷ [], flight)
    ]

unfoldable pub derive_loop :
    StepRecord → List String → List ToolCall × Option ToolCall → List ToolCall × Option ToolCall
derive_loop last [] acc = acc
derive_loop last (id ∷ ids) acc = derive_loop last ids (derive_one last id acc)

unfoldable pub derived_calls : List StepRecord → List ToolCall × Option ToolCall
derived_calls steps = elim (get_last? steps) [
  | none ↦ ([], none)
  | some last ↦ derive_loop last last.order ([], none)
]

unfoldable pub derive_tool_state : RunState → RunState
derive_tool_state next = record next {
  pending_tool_calls = (derived_calls next.steps).0;
  in_flight_tool = (derived_calls next.steps).1;
}

-- computeNextAction for a run that is not terminal and does not wait for an approval.
unfoldable pub running_action : RunState → NextAction
running_action s = elim (get_last? s.steps) [
  | none ↦ NextAction.call_llm
  | some last ↦ elim s.in_flight_tool [
    | some call ↦ NextAction.resolve_in_flight_tool
    | none ↦
        if last.is_terminal
        then NextAction.finish_run
        else if is_nil s.pending_tool_calls
        then (if is_nil last.order
            then NextAction.finish_run
            else if lt_int s.current_step s.max_steps
            then NextAction.call_llm
            else NextAction.fail_max_steps)
        else NextAction.execute_tool
  ]
]

unfoldable pub compute_next_action : RunState → NextAction
compute_next_action s = elim s.status [
  | RunStatus.completed ↦ NextAction.nothing
  | RunStatus.failed ↦ NextAction.nothing
  | RunStatus.cancelled ↦ NextAction.nothing
  | RunStatus.awaiting_approval ↦ NextAction.nothing
  | _ ↦ running_action s
]
