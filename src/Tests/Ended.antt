-- ===== src/Tests/Ended.antt =====
-- A run that failed, and a redelivery after its end.
use durable_agent_execution.Replay.State.{NextAction}
use durable_agent_execution.Replay.Finish.{terminal_payload-is_ok}
use durable_agent_execution.Replay.Terminal.{terminal_payload}
use durable_agent_execution.Tests.Journal.{sdk, journal, event, state_of, folds, start}
use durable_agent_execution.Events.{failed, responded}
use native.Mathlib.Decide.{ℕ_discrete}
use durable_agent_execution.Replay.Clone.{
  clone_run_state, clone_steps, clone_step_record, clone_calls, clone_in_flight, clone_tool_call,
  clone_content_blocks, clone_invoked, copy_entries, copy_ids, copy_ptr, copy_failure,
}
use durable_agent_execution.Prelude.Dict.{get, put}
use durable_agent_execution.Replay.Derived.{
  derive_tool_state, derived_calls, derive_loop, derive_one, with_journaled, journaled_for,
  tool_call_from_content, compute_next_action, running_action,
}
use durable_agent_execution.Replay.Transitions.{
  apply_payload, apply_run_started, apply_llm_responded, apply_tool_invoked, apply_tool_resulted,
  result_once, current_step_for, note_invoked, note_result, batch_open, all_resulted,
  all_of_resulted, has_result, decode_prompt, decode_blocks, new_step, tool_use_ids, contains,
}
use durable_agent_execution.Replay.Transitions.{apply_payload}
use durable_agent_execution.Events.Payloads.{decode_payload, unmarshal, payload_members, marshal}
use durable_agent_execution.Events.Codec.{new_envelope}
use durable_agent_execution.Json.{
  write_raw, write_ptr, read, members, same_name, into_string, into_bool, into_int, into_ptr,
  into_raw, find, arr, nil,
}
use durable_agent_execution.Replay.Fold.{
  fold, fold_from, apply, transition, with_ids, structural_error, finish, is_empty,
  is_terminal_status,
}
use durable_agent_execution.Events.{Envelope}
use durable_agent_execution.Prelude.Int64.{pos, int_dec, lt_int, inc}
use durable_agent_execution.Prelude.{
  ◌≡◌, refl, [], ◌∷◌, List, ok, true, false, str_dec, ◌++◌, is_ok, some,
}

abbrev ended : List Envelope
ended =
    journal
    ++ event (pos 3) "e3" (
        failed (record {
          step = pos 1;
          error_class = "unresolved_side_effect";
          error_message = "";
          retryable = false;
        }))
      ∷ []

-- The model answers at once, and ends.
abbrev answered : List Envelope
answered =
    start
    ∷ event (pos 1) "e1" (
        responded (record {
          step = pos 1;
          stop_reason = "end_turn";
          content = some (arr nil);
          is_terminal = true;
        }))
    ∷ []

answered_lem :
    (fold sdk answered ≡ ok (state_of answered))
    × ((state_of answered).next_action ≡ NextAction.finish_run)
unfolding fold fold_from apply transition with_ids structural_error finish is_empty
    is_terminal_status decode_payload unmarshal payload_members marshal new_envelope write_raw
    write_ptr read members same_name into_string into_bool into_int into_ptr into_raw find
    apply_payload apply_run_started apply_llm_responded apply_tool_invoked apply_tool_resulted
    result_once current_step_for note_invoked note_result batch_open all_resulted all_of_resulted
    has_result decode_prompt decode_blocks new_step tool_use_ids contains derive_tool_state
    derived_calls derive_loop derive_one with_journaled journaled_for tool_call_from_content
    compute_next_action running_action get put int_dec str_dec lt_int inc clone_run_state
    clone_steps clone_step_record clone_calls clone_in_flight clone_tool_call clone_content_blocks
    clone_invoked copy_entries copy_ids copy_ptr copy_failure ℕ_discrete
answered_lem = (folds (fold sdk answered) refl, refl)

terminal_payload-is_ok_example : is_ok (terminal_payload (state_of answered)) ≡ true
terminal_payload-is_ok_example =
    terminal_payload-is_ok sdk answered (state_of answered) answered_lem.0 answered_lem.1
