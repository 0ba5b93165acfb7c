-- ===== src/Events/Codec.antt =====
-- NewEnvelope, Encode and Decode of internal/events/envelope.go.
use durable_agent_execution.Prelude.{
  ℕ, ◌-◌, ◌<◌, ◌≡◌, String, Bool, true, false, Option, none, some, List, [], ◌∷◌, ltb,
  if◌then◌else◌, Result, ok, err, ◌>>=◌,
}
use Prim.Native.Nat.{◌%◌}
use durable_agent_execution.Prelude.Int64.{ℤ, pos}
use durable_agent_execution.Json.{
  Json, null, num, str, obj, Fields, end, field, Bytes, malformed, doc, write_raw, write_ptr,
  into_string, into_int, into_ptr, into_raw, read, members, find,
}
use durable_agent_execution.Errors.{Error, unknown_event_type, missing_field, message}
use durable_agent_execution.Events.{
  type_name, type_of_name, known_event_types, Payload, event_type_of, Envelope,
}
use durable_agent_execution.Events.Payloads.{marshal}

-- time.Time cannot be written as RFC 3339 from the year 10000 on.
abbrev pub time_limit : ℕ
time_limit = 315537897600000000000

-- The text of a time, by package time: what is written is read back.
pub record TimeText : Type 0 where
  pub format : ℕ → String
  pub parse : String → Option ℕ
  pub parse-format : (t : ℕ) → t < time_limit → parse (format t) ≡ some t

-- t.UTC().Truncate(time.Microsecond)
abbrev pub truncate_us : ℕ → ℕ
truncate_us t = t - t % 1000

-- `event_id` is the fresh uuid, `now` the clock's reading.
unfoldable pub new_envelope : String → String → String → ℤ → Payload → ℕ → Envelope
unfolding marshal
new_envelope event_id run_id tenant_id seq p now = record {
  event_id = event_id;
  run_id = run_id;
  tenant_id = tenant_id;
  sequence_number = seq;
  event_type = event_type_of p;
  payload = some (marshal p);
  occurred_at = truncate_us now;
  idempotency_key = none;
}

abbrev or_bad_json : {A : Type 0} → Option A → Result Error A
or_bad_json none = err (message "decoding envelope")
or_bad_json (some a) = ok a

-- requiredEnvelopeFields
abbrev pub required_envelope_fields : List String
required_envelope_fields = "event_id" ∷ "run_id" ∷ "event_type" ∷ "occurred_at" ∷ []

-- Present, and not null.
is_given : Option Json → Bool
is_given none = false
is_given (some null) = false
is_given (some j) = true

unfoldable pub check_required : List String → Fields → Result Error (Unit {0})
unfolding is_given find
check_required [] fs = ok tt
check_required (name ∷ names) fs =
    if is_given (find name fs) then check_required names fs else err missing_field

module _ (text : TimeText) where
  unfoldable pub into_time : ℕ → Json → Option ℕ
  into_time cur null = some cur
  into_time cur (str s) = text.parse s
  into_time cur _ = none

  -- The envelope's fields, by their struct tags.
  unfoldable pub wire : Envelope → Fields
  unfolding write_raw write_ptr
  wire e = field "event_id" (str e.event_id) (
      field "run_id" (str e.run_id) (
        field "tenant_id" (str e.tenant_id) (
          field "sequence_number" (num e.sequence_number) (
            field "event_type" (str (type_name e.event_type)) (
              field "payload" (write_raw e.payload) (
                field "occurred_at" (str (text.format e.occurred_at))
                  (field "idempotency_key" (write_ptr e.idempotency_key) end)))))))

  unfoldable pub encode : Envelope → Result Error Bytes
  encode e =
      if ltb e.occurred_at time_limit
      then ok (doc (obj (wire e)))
      else err (message "encoding envelope")

  -- The typed Unmarshal into Envelope.
  unfoldable pub read_envelope : Fields → Result Error Envelope
  unfolding read into_string into_int into_ptr into_raw into_time
  read_envelope fs = do
    i ← or_bad_json (read into_string "event_id" "" fs)
    r ← or_bad_json (read into_string "run_id" "" fs)
    t ← or_bad_json (read into_string "tenant_id" "" fs)
    n ← or_bad_json (read into_int "sequence_number" (pos 0) fs)
    y ← or_bad_json (read into_string "event_type" "" fs)
    p ← or_bad_json (read into_raw "payload" none fs)
    o ← or_bad_json (read into_time "occurred_at" 0 fs)
    k ← or_bad_json (read into_ptr "idempotency_key" none fs)
    ok (record {
      event_id = i;
      run_id = r;
      tenant_id = t;
      sequence_number = n;
      event_type = type_of_name y;
      payload = p;
      occurred_at = o;
      idempotency_key = k;
    })

  abbrev pub check_known : Envelope → Result Error Envelope
  check_known e = if known_event_types e.event_type then ok e else err unknown_event_type

  unfoldable pub decode : Bytes → Result Error Envelope
  unfolding members
  decode malformed = err (message "decoding envelope")
  decode (doc j) = do
    fs ← or_bad_json (members j)
    tt ← check_required required_envelope_fields fs
    e ← read_envelope fs
    check_known e
