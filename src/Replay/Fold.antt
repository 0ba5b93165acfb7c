-- ===== src/Replay/Fold.antt =====
-- internal/replay/fold.go: Apply and Fold.
use durable_agent_execution.Prelude.{
  Bool, true, false, Option, none, some, List, [], ◌∷◌, ite, str_dec, is_nil, if◌then◌else◌, Result,
  ok, err, ◌>>=◌,
}
use durable_agent_execution.Prelude.Dict.{get, put}
use durable_agent_execution.Prelude.Int64.{pos, int_dec, inc}
use durable_agent_execution.Errors.{
  Error, run_not_found, first_event_not_start, sequence_gap, conflicting_event,
  event_after_terminal, run_id_mismatch, at_seq,
}
use durable_agent_execution.Events.{EventType, run_started, Envelope}
use durable_agent_execution.Events.Payloads.{decode_payload}
use durable_agent_execution.Replay.State.{RunStatus, Sdk, RunState, empty_state}
use durable_agent_execution.Replay.Clone.{clone_run_state}
use durable_agent_execution.Replay.Transitions.{apply_payload}
use durable_agent_execution.Replay.Derived.{derive_tool_state, compute_next_action}

unfoldable pub is_empty : RunState → Bool
is_empty s = is_nil s.seen

unfoldable pub is_terminal_status : RunStatus → Bool
is_terminal_status RunStatus.completed = true
is_terminal_status RunStatus.failed = true
is_terminal_status RunStatus.cancelled = true
is_terminal_status _ = false

abbrev pub is_run_started : EventType → Bool
is_run_started run_started = true
is_run_started _ = false

-- (2) of Apply: the checks that do not need the payload.
unfoldable pub structural_error : RunState → Envelope → Option Error
unfolding is_empty is_terminal_status
structural_error s e =
    if is_empty s
    then (ite (int_dec e.sequence_number (pos 0))
        (if is_run_started e.event_type then none else some first_event_not_start)
        (some first_event_not_start))
    else ite (str_dec e.run_id s.run_id)
        (if is_terminal_status s.status
          then some event_after_terminal
          else ite (int_dec e.sequence_number s.next_sequence) none (some sequence_gap))
        (some run_id_mismatch)

-- The first event names the run.
unfoldable pub with_ids : RunState → RunState → Envelope → RunState
unfolding is_empty
with_ids s next e =
    if is_empty s then record next { run_id = e.run_id; tenant_id = e.tenant_id } else next

-- (5) and (6) of Apply: the derived fields and the bookkeeping.
unfoldable pub finish : RunState → Envelope → RunState
unfolding derive_tool_state compute_next_action put
finish next e =
    let d = derive_tool_state next in
    record d {
      next_action = compute_next_action d;
      next_sequence = inc e.sequence_number;
      last_event_id = e.event_id;
      last_event_at = e.occurred_at;
      seen = put int_dec d.seen e.sequence_number e.event_id;
    }

-- (3) to (6) of Apply, for an event that passed the checks.
unfoldable pub transition : Sdk → RunState → Envelope → Result Error RunState
transition sdk s e = do
  payload ← decode_payload e
  next ← apply_payload sdk (with_ids s (clone_run_state s) e) payload e.occurred_at
  ok (finish next e)

-- Apply returns a state beside its error: on an error, the state that it was given.
unfoldable pub apply : Sdk → RunState → Envelope → RunState × Option Error
unfolding get
apply sdk s e = elim (get int_dec s.seen e.sequence_number) [
  | some existing_id ↦
      ite (str_dec existing_id e.event_id) (s, none)
        (s, some (at_seq e.sequence_number conflicting_event))
  | none ↦ elim (structural_error s e) [
    | some x ↦ (s, some (at_seq e.sequence_number x))
    | none ↦ elim (transition sdk s e) [
      | err x ↦ (s, some (at_seq e.sequence_number x))
      | ok next ↦ (next, none)
    ]
  ]
]

-- The loop of Fold.
unfoldable pub fold_from : Sdk → RunState → List Envelope → Result Error RunState
fold_from sdk s [] = ok s
fold_from sdk s (e ∷ evs) =
    let (next, failure) = apply sdk s e in
    elim failure [ none ↦ fold_from sdk next evs | some x ↦ err x ]

unfoldable pub fold : Sdk → List Envelope → Result Error RunState
unfolding fold_from
fold sdk evs = if is_nil evs then err run_not_found else fold_from sdk empty_state evs
