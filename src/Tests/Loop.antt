-- ===== src/Tests/Loop.antt =====
-- The loop of internal/agent on the journal of Tests/Journal, and the end of a run.
use durable_agent_execution.Tests.Journal.{sdk, journal, rebuilt, journal_folds}
use durable_agent_execution.Agent.Live.{publish_apply_print-FoldsTo}
use durable_agent_execution.Idempotency.Process.{returned}
use durable_agent_execution.Idempotency.Triple.{Ends}
use durable_agent_execution.Agent.Journal.{IsAppended, FoldsTo, IsFoldable}
use durable_agent_execution.Agent.Accepted.{offers_result}
use durable_agent_execution.Agent.Progress.{apply-envelope_for}
use durable_agent_execution.Agent.Drive.{resulted_payload}
use durable_agent_execution.Worker.{
  terminal_exit_code, exit_code_for, exit_code_for-terminal_exit_code,
}
use durable_agent_execution.Replay.Terminal.{
  terminal_payload, finish_payload, last_step_text, join_text,
}
use durable_agent_execution.Agent.Loop.{envelope_for, outcome_of, publish_apply_print}
use durable_agent_execution.Agent.{JournalConfig, Surroundings, replied}
use durable_agent_execution.Idempotency.Record.{Outcome as Verdict, executed}
use durable_agent_execution.Events.{completed}
use native.Mathlib.Decide.{ℕ_discrete}
use durable_agent_execution.Replay.Clone.{
  clone_run_state, clone_steps, clone_step_record, clone_calls, clone_in_flight, clone_tool_call,
  clone_content_blocks, clone_invoked, copy_entries, copy_ids, copy_ptr, copy_failure,
}
use durable_agent_execution.Prelude.Dict.{get, put}
use durable_agent_execution.Replay.Derived.{
  derive_tool_state, derived_calls, derive_loop, derive_one, with_journaled, journaled_for,
  tool_call_from_content, compute_next_action, running_action,
}
use durable_agent_execution.Replay.Transitions.{
  apply_payload, apply_run_started, apply_llm_responded, apply_tool_invoked, apply_tool_resulted,
  result_once, current_step_for, note_invoked, note_result, batch_open, all_resulted,
  all_of_resulted, has_result, decode_prompt, decode_blocks, new_step, tool_use_ids, contains,
}
use durable_agent_execution.Replay.Transitions.{apply_payload}
use durable_agent_execution.Events.Payloads.{decode_payload, unmarshal, payload_members, marshal}
use durable_agent_execution.Events.Codec.{new_envelope}
use durable_agent_execution.Json.{
  null, write_raw, write_ptr, read, members, same_name, into_string, into_bool, into_int, into_ptr,
  into_raw, find, fits_int64,
}
use durable_agent_execution.Replay.Fold.{
  fold, fold_from, apply, transition, with_ids, structural_error, finish, is_empty,
  is_terminal_status,
}
use durable_agent_execution.Events.{Envelope, completed}
use durable_agent_execution.Prelude.Int64.{pos, int_dec, lt_int, inc, negsuc}
use durable_agent_execution.Replay.State.{
  RunState, empty_state, ToolCall, NextAction, StepRecord, RunStatus, text,
}
use durable_agent_execution.Prelude.{
  ◌≡◌, refl, none, some, [], ◌∷◌, List, ok, true, str_dec, arith, sym, ◌++◌,
}

abbrev flying : ToolCall
flying = record {
  tool_use_id = "t";
  tool_name = "open_pr";
  tool_args = none;
  has_side_effect = true;
  idempotency_key = some "idem:r:1:t";
  invoked_at = 7000;
}

rebuilt_lem :
    (rebuilt.next_action ≡ NextAction.resolve_in_flight_tool)
    × (rebuilt.in_flight_tool ≡ some flying)
    × (rebuilt.run_id ≡ "r")
    × (fits_int64 rebuilt.current_step ≡ true)
unfolding fold fold_from apply transition with_ids structural_error finish is_empty
    is_terminal_status decode_payload unmarshal payload_members marshal new_envelope write_raw
    write_ptr read members same_name into_string into_bool into_int into_ptr into_raw find
    apply_payload apply_run_started apply_llm_responded apply_tool_invoked apply_tool_resulted
    result_once current_step_for note_invoked note_result batch_open all_resulted all_of_resulted
    has_result decode_prompt decode_blocks new_step tool_use_ids contains derive_tool_state
    derived_calls derive_loop derive_one with_journaled journaled_for tool_call_from_content
    compute_next_action running_action get put int_dec str_dec lt_int inc clone_run_state
    clone_steps clone_step_record clone_calls clone_in_flight clone_tool_call clone_content_blocks
    clone_invoked copy_entries copy_ids copy_ptr copy_failure ℕ_discrete
rebuilt_lem = (refl, refl, refl, refl)

abbrev pub config : JournalConfig
config = record {
  run_id = "r";
  tenant_id = "tenant";
  workload_type = "repo";
  crash_after_seq = negsuc 0;
}

abbrev opened : Verdict
opened = record { result = "opened"; status = "success"; resolution = executed }

apply-envelope_for_example :
    (apply sdk rebuilt
      (envelope_for config rebuilt (resulted_payload rebuilt flying opened) "e3" 9)).1
    ≡ none
apply-envelope_for_example =
    apply-envelope_for sdk config journal rebuilt (resulted_payload rebuilt flying opened) "e3" 9
      journal_folds (omega arith) (sym rebuilt_lem.2) rebuilt_lem.3
      (offers_result flying opened rebuilt_lem.0 rebuilt_lem.1)

abbrev last_step : StepRecord
last_step = record {
  content = record { raw_json = null; as_any = text "all done" } ∷ [];
  is_terminal = true;
  stop_reason = "end_turn";
  invoked = [];
  order = [];
  invoked_order = [];
  results = [];
}

abbrev pub finishing : RunState
finishing = record empty_state {
  status = RunStatus.running;
  next_action = NextAction.finish_run;
  current_step = pos 2;
  steps = last_step ∷ [];
}

pub finishing_ends :
    terminal_payload finishing
    ≡ ok (completed (record { final_output = "all done"; total_steps = pos 2 }))
unfolding terminal_payload finish_payload last_step_text join_text str_dec
finishing_ends = refl

pub finishing_goes :
    apply_payload sdk finishing
      (completed (record { final_output = "all done"; total_steps = pos 2 }))
      7
    ≡ ok (record finishing { status = RunStatus.completed; final_output = "all done" })
unfolding apply_payload
finishing_goes = refl

exit_code_for-terminal_exit_code_example :
    terminal_exit_code RunStatus.completed
    ≡ some (
        exit_code_for (
          ok (
            outcome_of finishing
              (pos 2)
              (completed (record { final_output = "all done"; total_steps = pos 2 })))))
exit_code_for-terminal_exit_code_example =
    exit_code_for-terminal_exit_code sdk finishing
      (record finishing { status = RunStatus.completed; final_output = "all done" })
      (completed (record { final_output = "all done"; total_steps = pos 2 })) 7 (pos 2)
      finishing_ends finishing_goes

-- A topic in memory: the world is the log of the run.
abbrev topic : Surroundings (List Envelope)
topic = record {
  publish = λ e w. returned tt (w ++ e ∷ []);
  wait = λ d w. returned tt w;
  now = λ w. returned 9 w;
  new_uuid = λ w. returned "e3" w;
  create_message = λ ms w. returned (replied none) w;
  fence = none;
  error_text = λ e. "";
}

topic-IsAppended : IsAppended (λ w. w) topic
topic-IsAppended = record {
  publish_spec = λ e w. refl;
  wait_keeps = λ d w. refl;
  now_keeps = λ w. refl;
  uuid_keeps = λ w. refl;
}

publish_apply_print-FoldsTo_example :
    Ends (FoldsTo (λ w. w) sdk) (IsFoldable (λ w. w) sdk) (
      publish_apply_print topic sdk config rebuilt (resulted_payload rebuilt flying opened) journal)
publish_apply_print-FoldsTo_example =
    publish_apply_print-FoldsTo (λ w. w) sdk topic topic-IsAppended config rebuilt
      (resulted_payload rebuilt flying opened) journal journal_folds (omega arith)
      (sym rebuilt_lem.2) rebuilt_lem.3 (offers_result flying opened rebuilt_lem.0 rebuilt_lem.1)
