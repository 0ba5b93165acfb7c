-- ===== src/Events/Payloads.antt =====
-- The JSON of each payload (the struct tags of internal/events/types.go), and DecodePayload of
-- internal/events/envelope.go.
use durable_agent_execution.Prelude.{false, Option, none, some, Result, ok, err, ◌>>=◌}
use durable_agent_execution.Prelude.Int64.{pos}
use durable_agent_execution.Json.{
  Json, bool, num, str, obj, Fields, end, field, RawMessage, write_raw, write_ptr, into_string,
  into_bool, into_int, into_ptr, into_raw, read, members,
}
use durable_agent_execution.Errors.{Error, unknown_event_type, invalid_payload}
use durable_agent_execution.Events.{
  EventType, run_started, llm_responded, tool_invoked, tool_resulted, awaiting_approval,
  run_approved, run_completed, run_failed, run_cancelled, other_type, Payload, started, responded,
  invoked, resulted, awaiting, approved, completed, failed, cancelled, Envelope,
}

-- json.Marshal of a payload: every field in order, none left out.
unfoldable pub marshal : Payload → Json
unfolding write_raw write_ptr
marshal (started p) = obj (
    field "workload_type" (str p.workload_type)
      (field "input" (write_raw p.input) (field "max_steps" (num p.max_steps) end)))
marshal (responded p) = obj (
    field "step" (num p.step) (
      field "stop_reason" (str p.stop_reason)
        (field "content" (write_raw p.content) (field "is_terminal" (bool p.is_terminal) end))))
marshal (invoked p) = obj (
    field "step" (num p.step) (
      field "tool_use_id" (str p.tool_use_id) (
        field "tool_name" (str p.tool_name) (
          field "tool_args" (write_raw p.tool_args) (
            field "idempotency_key" (write_ptr p.idempotency_key)
              (field "has_side_effect" (bool p.has_side_effect) end))))))
marshal (resulted p) = obj (
    field "step" (num p.step) (
      field "tool_use_id" (str p.tool_use_id) (
        field "tool_name" (str p.tool_name) (
          field "result" (str p.result) (
            field "status" (str p.status) (
              field "was_replayed_from_cache" (bool p.was_replayed_from_cache)
                (field "resolution" (str p.resolution) end)))))))
marshal (awaiting p) = obj (
    field "step" (num p.step)
      (field "reason" (str p.reason) (field "approval_payload" (write_raw p.approval_payload) end)))
marshal (approved p) = obj (
    field "step" (num p.step) (
      field "approved_by" (str p.approved_by)
        (field "decision" (str p.decision) (field "notes" (str p.notes) end))))
marshal (completed p) =
    obj (field "final_output" (str p.final_output) (field "total_steps" (num p.total_steps) end))
marshal (failed p) = obj (
    field "step" (num p.step) (
      field "error_class" (str p.error_class)
        (field "error_message" (str p.error_message) (field "retryable" (bool p.retryable) end))))
marshal (cancelled p) = obj (
    field "step" (num p.step)
      (field "cancelled_by" (str p.cancelled_by) (field "reason" (str p.reason) end)))

-- A mismatch anywhere is ErrInvalidPayload.
abbrev or_invalid : {A : Type 0} → Option A → Result Error A
or_invalid none = err invalid_payload
or_invalid (some a) = ok a

-- unmarshalPayload: the members of a payload that is a JSON object (or null).
unfoldable pub payload_members : RawMessage → Result Error Fields
unfolding members
payload_members none = err invalid_payload
payload_members (some j) = or_invalid (members j)

-- The struct of one event type, from the zero value, over the members of the payload.
unfoldable pub unmarshal : EventType → Fields → Result Error Payload
unfolding read into_string into_bool into_int into_ptr into_raw
unmarshal run_started fs = do
  w ← or_invalid (read into_string "workload_type" "" fs)
  i ← or_invalid (read into_raw "input" none fs)
  m ← or_invalid (read into_int "max_steps" (pos 0) fs)
  ok (started (record { workload_type = w; input = i; max_steps = m }))
unmarshal llm_responded fs = do
  s ← or_invalid (read into_int "step" (pos 0) fs)
  r ← or_invalid (read into_string "stop_reason" "" fs)
  c ← or_invalid (read into_raw "content" none fs)
  t ← or_invalid (read into_bool "is_terminal" false fs)
  ok (responded (record { step = s; stop_reason = r; content = c; is_terminal = t }))
unmarshal tool_invoked fs = do
  s ← or_invalid (read into_int "step" (pos 0) fs)
  i ← or_invalid (read into_string "tool_use_id" "" fs)
  n ← or_invalid (read into_string "tool_name" "" fs)
  a ← or_invalid (read into_raw "tool_args" none fs)
  k ← or_invalid (read into_ptr "idempotency_key" none fs)
  h ← or_invalid (read into_bool "has_side_effect" false fs)
  ok (
      invoked (record {
        step = s;
        tool_use_id = i;
        tool_name = n;
        tool_args = a;
        idempotency_key = k;
        has_side_effect = h;
      }))
unmarshal tool_resulted fs = do
  s ← or_invalid (read into_int "step" (pos 0) fs)
  i ← or_invalid (read into_string "tool_use_id" "" fs)
  n ← or_invalid (read into_string "tool_name" "" fs)
  r ← or_invalid (read into_string "result" "" fs)
  t ← or_invalid (read into_string "status" "" fs)
  c ← or_invalid (read into_bool "was_replayed_from_cache" false fs)
  o ← or_invalid (read into_string "resolution" "" fs)
  ok (
      resulted (record {
        step = s;
        tool_use_id = i;
        tool_name = n;
        result = r;
        status = t;
        was_replayed_from_cache = c;
        resolution = o;
      }))
unmarshal awaiting_approval fs = do
  s ← or_invalid (read into_int "step" (pos 0) fs)
  r ← or_invalid (read into_string "reason" "" fs)
  a ← or_invalid (read into_raw "approval_payload" none fs)
  ok (awaiting (record { step = s; reason = r; approval_payload = a }))
unmarshal run_approved fs = do
  s ← or_invalid (read into_int "step" (pos 0) fs)
  b ← or_invalid (read into_string "approved_by" "" fs)
  d ← or_invalid (read into_string "decision" "" fs)
  n ← or_invalid (read into_string "notes" "" fs)
  ok (approved (record { step = s; approved_by = b; decision = d; notes = n }))
unmarshal run_completed fs = do
  o ← or_invalid (read into_string "final_output" "" fs)
  t ← or_invalid (read into_int "total_steps" (pos 0) fs)
  ok (completed (record { final_output = o; total_steps = t }))
unmarshal run_failed fs = do
  s ← or_invalid (read into_int "step" (pos 0) fs)
  c ← or_invalid (read into_string "error_class" "" fs)
  m ← or_invalid (read into_string "error_message" "" fs)
  r ← or_invalid (read into_bool "retryable" false fs)
  ok (failed (record { step = s; error_class = c; error_message = m; retryable = r }))
unmarshal run_cancelled fs = do
  s ← or_invalid (read into_int "step" (pos 0) fs)
  b ← or_invalid (read into_string "cancelled_by" "" fs)
  r ← or_invalid (read into_string "reason" "" fs)
  ok (cancelled (record { step = s; cancelled_by = b; reason = r }))
unmarshal (other_type t) fs = err unknown_event_type

-- The switch on the event type stands outside the decoding of the payload.
unfoldable pub decode_payload : Envelope → Result Error Payload
unfolding payload_members unmarshal
decode_payload e = elim e.event_type [
  | other_type t ↦ err unknown_event_type
  | known ↦ (payload_members e.payload >>= unmarshal known)
]
