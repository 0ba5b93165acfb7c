-- ===== src/Replay/Terminal.antt =====
-- internal/replay/terminal.go: how a run finishes, and what it shows of its tools.
use Prim.Native.String.{◌++◌ as append}
use durable_agent_execution.Prelude.{
  String, Bool, true, false, none, some, List, [], ◌∷◌, ◌++◌, ite, str_dec, if◌then◌else◌,
  get_last?, Result, ok, err,
}
use durable_agent_execution.Prelude.Dict.{get}
use durable_agent_execution.Errors.{Error, message}
use durable_agent_execution.Events.{Payload, completed, failed}
use durable_agent_execution.Replay.State.{NextAction, text, Block, StepRecord, RunState}

-- The text blocks of a content, joined.
unfoldable pub join_text : List Block → String
join_text [] = ""
join_text (b ∷ bs) = elim b.as_any [ text t ↦ append t (join_text bs) | _ ↦ join_text bs ]

unfoldable pub last_step_text : RunState → String
unfolding join_text
last_step_text s = elim (get_last? s.steps) [ none ↦ "" | some last ↦ join_text last.content ]

abbrev pub is_finish_run : NextAction → Bool
is_finish_run NextAction.finish_run = true
is_finish_run _ = false

-- The switch of TerminalPayload over the last step.
unfoldable pub finish_payload : RunState → StepRecord → Payload
unfolding last_step_text
finish_payload s last =
    if last.is_terminal
    then ite (str_dec last.stop_reason "max_tokens")
        (failed (record {
          step = s.current_step;
          error_class = "llm_output_truncated";
          error_message = "llm response was truncated (stop_reason=max_tokens)";
          retryable = false;
        }))
        (completed (record { final_output = last_step_text s; total_steps = s.current_step }))
    else failed (record {
      step = s.current_step;
      error_class = "malformed_llm_response";
      error_message =
          "llm reported stop_reason=tool_use but the response had no tool_use content block";
      retryable = false;
    })

-- The index of the last step is out of range, a panic, where there is no step.
unfoldable pub terminal_payload : RunState → Result Error Payload
unfolding finish_payload
terminal_payload s =
    if is_finish_run s.next_action
    then elim (get_last? s.steps) [
      | none ↦ err (message "panic: index out of range")
      | some last ↦ ok (finish_payload s last)
    ]
    else err (message "terminal payload: next_action is not FINISH_RUN")

pub record ToolResult : Type 0 where
  pub tool_use_id : String
  pub tool_name : String
  pub status : String
  pub resolution : String
  pub was_replayed_from_cache : Bool

-- The results of one step, in tool_use order.
unfoldable pub step_results : StepRecord → List String → List ToolResult
unfolding get
step_results step [] = []
step_results step (id ∷ ids) = elim (get str_dec step.results id) [
  | none ↦ step_results step ids
  | some r ↦
      record {
        tool_use_id = id;
        tool_name = r.tool_name;
        status = r.status;
        resolution = r.resolution;
        was_replayed_from_cache = r.was_replayed_from_cache;
      }
      ∷ step_results step ids
]

unfoldable pub results_of : List StepRecord → List ToolResult
unfolding step_results
results_of [] = []
results_of (step ∷ steps) = step_results step step.order ++ results_of steps

unfoldable pub tool_results : RunState → List ToolResult
unfolding results_of
tool_results s = results_of s.steps
