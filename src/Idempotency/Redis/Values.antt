-- ===== src/Idempotency/Redis/Values.antt =====
-- The JSON value under an idempotency key: IdemRecord of internal/idempotency/record.go and
-- decodeRecord of store.go.
use durable_agent_execution.Prelude.{
  ℕ, String, Option, none, some, Bool, true, ◌&&◌, Result, ok, err, ◌>>=◌, ltb, str_dec, ite,
  if◌then◌else◌,
}
use durable_agent_execution.Prelude.Int64.{pos}
use durable_agent_execution.Errors.{Error, corrupt_record}
use durable_agent_execution.Json.{
  Json, null, str, num, obj, Fields, end, field, Bytes, malformed, doc, write_ptr, read, members,
  into_string, into_int, into_ptr,
}
use durable_agent_execution.Events.Codec.{TimeText, time_limit, into_time}
use durable_agent_execution.Idempotency.Record.{
  RecordState, claimed, resolved, other_state, IdemRecord,
}

-- RecordState, by its string.
unfoldable pub state_name : RecordState → String
state_name claimed = "claimed"
state_name resolved = "resolved"
state_name (other_state s) = s

unfoldable pub state_of_name : String → RecordState
state_of_name s =
    ite (str_dec s "claimed") claimed (ite (str_dec s "resolved") resolved (other_state s))

module _ (text : TimeText) where
  -- A *time.Time.
  unfoldable pub write_time_ptr : Option ℕ → Json
  write_time_ptr none = null
  write_time_ptr (some t) = str (text.format t)

  unfoldable pub into_time_ptr : Option ℕ → Json → Option (Option ℕ)
  into_time_ptr cur null = some none
  into_time_ptr cur (str s) = elim (text.parse s) [ none ↦ none | some t ↦ some (some t) ]
  into_time_ptr cur _ = none

  -- The record's fields, by their struct tags.
  unfoldable pub record_wire : IdemRecord → Fields
  unfolding write_ptr
  record_wire rec = field "state" (str (state_name rec.state)) (
      field "run_id" (str rec.run_id) (
        field "step" (num rec.step) (
          field "tool_use_id" (str rec.tool_use_id) (
            field "tool_name" (str rec.tool_name) (
              field "args_hash" (str rec.args_hash) (
                field "claim_token" (str rec.claim_token) (
                  field "claimed_by" (str rec.claimed_by) (
                    field "claimed_at" (str (text.format rec.claimed_at)) (
                      field "resolved_at" (write_time_ptr rec.resolved_at) (
                        field "result" (write_ptr rec.result) (
                          field "status" (write_ptr rec.status)
                            (field "resolution" (write_ptr rec.resolution) end))))))))))))

  abbrev pub is_early : Option ℕ → Bool
  is_early none = true
  is_early (some t) = ltb t time_limit

  -- json.Marshal of a record fails on a time from the year 10000 on.
  unfoldable pub encode_record : IdemRecord → Option Bytes
  encode_record rec =
      if is_early (some rec.claimed_at) && is_early rec.resolved_at
      then some (doc (obj (record_wire rec)))
      else none

  abbrev or_corrupt : {A : Type 0} → Option A → Result Error A
  or_corrupt none = err corrupt_record
  or_corrupt (some a) = ok a

  unfoldable pub read_record : Fields → Result Error IdemRecord
  unfolding read into_string into_int into_ptr into_time
  read_record fs = do
    st ← or_corrupt (read into_string "state" "" fs)
    r ← or_corrupt (read into_string "run_id" "" fs)
    n ← or_corrupt (read into_int "step" (pos 0) fs)
    u ← or_corrupt (read into_string "tool_use_id" "" fs)
    t ← or_corrupt (read into_string "tool_name" "" fs)
    h ← or_corrupt (read into_string "args_hash" "" fs)
    k ← or_corrupt (read into_string "claim_token" "" fs)
    b ← or_corrupt (read into_string "claimed_by" "" fs)
    at ← or_corrupt (read (into_time text) "claimed_at" 0 fs)
    ra ← or_corrupt (read into_time_ptr "resolved_at" none fs)
    x ← or_corrupt (read into_ptr "result" none fs)
    s ← or_corrupt (read into_ptr "status" none fs)
    o ← or_corrupt (read into_ptr "resolution" none fs)
    ok (record {
      state = state_of_name st;
      run_id = r;
      step = n;
      tool_use_id = u;
      tool_name = t;
      args_hash = h;
      claim_token = k;
      claimed_by = b;
      claimed_at = at;
      resolved_at = ra;
      result = x;
      status = s;
      resolution = o;
    })

  -- decodeRecord
  unfoldable pub decode_record : Bytes → Result Error IdemRecord
  unfolding members
  decode_record malformed = err corrupt_record
  decode_record (doc j) = or_corrupt (members j) >>= read_record
