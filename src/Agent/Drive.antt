-- ===== src/Agent/Drive.antt =====
-- internal/agent/loop.go: the tool calls, and drive, Run and Resume.
use durable_agent_execution.Idempotency.Key.{key}
use durable_agent_execution.Json.{obj, field, str, end}
use durable_agent_execution.Prelude.Int64.{ℤ}
use durable_agent_execution.Errors.{Error, message, unresolvable, record_mismatch}
use durable_agent_execution.Agent.Loop.{
  publish_apply_print, failed_payload, call_llm_and_journal, finish_run, fail_max_steps,
}
use durable_agent_execution.Agent.{Surroundings, Outcome, JournalConfig, Task}
use durable_agent_execution.Tools.{
  Executed, failure, Tool, outcome_unknown_error, Registry, Invocation, lookup,
}
use durable_agent_execution.Replay.State.{NextAction, RunState, Sdk, ToolCall, empty_state}
use durable_agent_execution.Prelude.{
  none, some, [], ◌∷◌, Option, String, Bool, true, false, if◌then◌else◌, Result, ℕ, ok, err, suc,
  zero,
}
use durable_agent_execution.Idempotency.Process.{◌>>=◌, Process, raise, pure, try}
use durable_agent_execution.Events.{Payload, invoked, resulted, started}
use Prim.Native.String.{◌++◌ as append}
use durable_agent_execution.Idempotency.Record.{
  Outcome as Verdict, executed, cached, Resolution, resolution_name,
}

-- A step of drive: the next state, and the outcome if the run is over.
abbrev pub Progress : Type 0
Progress = RunState × Option Outcome

unfoldable pub invoked_payload : String → RunState → ToolCall → Bool → Payload
invoked_payload run_id s call has_side_effect = invoked (record {
  step = s.current_step;
  tool_use_id = call.tool_use_id;
  tool_name = call.tool_name;
  tool_args = call.tool_args;
  idempotency_key =
      if has_side_effect then some (key run_id s.current_step call.tool_use_id) else none;
  has_side_effect = has_side_effect;
})

-- %q of package fmt, for a text of printable ASCII without quotes and backslashes.
unfoldable pub quoted : String → String
quoted s = append "\"" (append s "\"")

-- tool %q (tool_use_id=%s) and what is wrong with it
unfoldable pub call_text : ToolCall → String → String
call_text call wrong = append "tool " (
    append (quoted call.tool_name)
      (append " (tool_use_id=" (append call.tool_use_id (append ") " wrong))))

abbrev is_cached : Resolution → Bool
is_cached cached = true
is_cached _ = false

unfoldable pub resulted_payload : RunState → ToolCall → Verdict → Payload
resulted_payload s call o = resulted (record {
  step = s.current_step;
  tool_use_id = call.tool_use_id;
  tool_name = call.tool_name;
  result = o.result;
  status = o.status;
  was_replayed_from_cache = is_cached o.resolution;
  resolution = resolution_name o.resolution;
})

-- The result of a tool without a side effect.
unfoldable pub unfenced_verdict : Executed → Verdict
unfenced_verdict x = elim x.error [
  | none ↦ record { result = x.result; status = "success"; resolution = executed }
  | some (failure text) ↦ record {
    result = append "error: " text;
    status = "error";
    resolution = executed;
  }
  | some outcome_unknown_error ↦ record {
    result = "error: tool: side effect outcome unknown";
    status = "error";
    resolution = executed;
  }
]

unfoldable pub has_effect : {W : Type 0} → Option (Tool W) → Bool
has_effect none = false
has_effect (some tool) = tool.has_side_effect

module _ {W : Type 0} (sur : Surroundings W) (sdk : Sdk) (journal : JournalConfig)
    (registry : Registry W) where
  unfoldable pub journal_tool_result : RunState → ToolCall → Verdict → Process W Progress
  journal_tool_result s call o = do
    next ← publish_apply_print sur sdk journal s (resulted_payload s call o)
    pure (next, none)

  unfoldable pub fail_run : RunState → String → String → Process W Progress
  fail_run s error_class text = do
    final ← publish_apply_print sur sdk journal s (failed_payload s error_class text false)
    pure (
      final,
      some (record {
        terminal = false;
        max_steps_exceeded = false;
        steps = final.current_step;
        final_text = "";
        truncated = false;
        failed = true;
      }),
    )

  unfoldable pub execute_unfenced :
      RunState → ToolCall → Invocation → Option (Tool W) → Process W Progress
  execute_unfenced s call inv none = journal_tool_result s call (record {
    result = append "error: unknown tool " (quoted call.tool_name);
    status = "error";
    resolution = executed;
  })
  execute_unfenced s call inv (some tool) = do
    x ← tool.execute inv call.tool_args
    journal_tool_result s call (unfenced_verdict x)

  -- The Guard's verdict: only an unresolvable or a mismatched record fails the run.
  unfoldable pub after_fence : RunState → ToolCall → Result Error Verdict → Process W Progress
  after_fence s call (ok o) = journal_tool_result s call o
  after_fence s call (err unresolvable) =
      fail_run s "unresolved_side_effect" (sur.error_text unresolvable)
  after_fence s call (err record_mismatch) =
      fail_run s "idempotency_record_mismatch" (sur.error_text record_mismatch)
  after_fence s call (err x) = raise x

  unfoldable pub execute_fenced : RunState → ToolCall → Invocation → Tool W → Process W Progress
  execute_fenced s call inv tool = elim sur.fence [
    | none ↦ raise (message "no idempotency fence configured")
    | some fence ↦ (try (fence inv call tool) >>= after_fence s call)
  ]

  -- A call that was journaled with a side effect: it needs its tool and its key.
  unfoldable pub run_effect :
      RunState → ToolCall → Invocation → Option (Tool W) → Process W Progress
  run_effect s call inv none = fail_run s "unresolved_side_effect" (
      call_text call
        "was journaled with has_side_effect=true but is not registered, so whether it ran cannot be checked")
  run_effect s call inv (some tool) = elim call.idempotency_key [
    | none ↦ fail_run s "unresolved_side_effect" (
        call_text call
          "has a side effect but its ToolInvoked has no idempotency key, so whether it ran cannot be checked")
    | some k ↦ execute_fenced s call inv tool
  ]

  unfoldable pub run_call : RunState → ToolCall → Process W Progress
  run_call s call =
      let inv : Invocation = record {
        run_id = journal.run_id;
        step = s.current_step;
        tool_use_id = call.tool_use_id;
        idempotency_key = call.idempotency_key;
      } in
      if call.has_side_effect
      then run_effect s call inv (lookup registry call.tool_name)
      else execute_unfenced s call inv (lookup registry call.tool_name)

  -- A nil InFlightTool is a panic.
  unfoldable pub run_in_flight_tool : RunState → Process W Progress
  run_in_flight_tool s = elim s.in_flight_tool [
    | none ↦ raise (message "panic: nil pointer dereference")
    | some call ↦ run_call s call
  ]

  unfoldable pub invoke_call : RunState → ToolCall → Process W Progress
  invoke_call s call = do
    next ←
        publish_apply_print sur sdk journal s
          (invoked_payload journal.run_id s call (has_effect (lookup registry call.tool_name)))
    run_in_flight_tool next

  -- An empty PendingToolCalls is a panic.
  unfoldable pub invoke_tool_and_journal : RunState → Process W Progress
  invoke_tool_and_journal s = elim s.pending_tool_calls [
    | [] ↦ raise (message "panic: index out of range")
    | call ∷ calls ↦ invoke_call s call
  ]

  unfoldable pub continued : (RunState → Process W Outcome) → Progress → Process W Outcome
  continued again (next, none) = again next
  continued again (next, some done) = pure done

  -- The loop of drive, on fuel: one round journals at least one event.
  unfoldable pub drive : ℕ → RunState → Process W Outcome
  drive zero s = raise (message "out of fuel")
  drive (suc fuel) s = elim s.next_action [
    | NextAction.call_llm ↦ (call_llm_and_journal sur sdk journal s >>= drive fuel)
    | NextAction.execute_tool ↦ (invoke_tool_and_journal s >>= continued (drive fuel))
    | NextAction.resolve_in_flight_tool ↦ (run_in_flight_tool s >>= continued (drive fuel))
    | NextAction.finish_run ↦ finish_run sur sdk journal s
    | NextAction.fail_max_steps ↦ fail_max_steps sur sdk journal s
    | _ ↦ raise (message "run: state produced unexpected next_action")
  ]

  unfoldable pub run : ℕ → ℤ → Task → Process W Outcome
  run fuel max_steps task = do
    s ← publish_apply_print sur sdk journal empty_state (
        started (record {
          workload_type = journal.workload_type;
          input = some (obj (field "prompt" (str task.prompt) end));
          max_steps = max_steps;
        }))
    drive fuel s

  unfoldable pub resume : ℕ → RunState → Process W Outcome
  resume fuel s = drive fuel s
