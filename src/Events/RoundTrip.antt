-- ===== src/Events/RoundTrip.antt =====
-- What is written is read back: payloads (NewEnvelope, DecodePayload) and whole envelopes (Encode,
-- Decode) of internal/events/envelope.go.
use durable_agent_execution.Prelude.{
  str_dec, ℕ, ◌<◌, ◌≡◌, refl, String, true, none, some, ok, ◌>>=◌, arith,
}
use durable_agent_execution.Prelude.Int64.{ℤ}
use durable_agent_execution.Json.{null, RawMessage, fits_int64}
use durable_agent_execution.Events.{
  EventType, run_started, other_type, type_name, type_of_name, known_event_types, Payload, started,
  responded, invoked, resulted, awaiting, approved, completed, failed, cancelled, Envelope,
}
use durable_agent_execution.Events.Payloads.{decode_payload}
use durable_agent_execution.Events.Codec.{
  check_required, required_envelope_fields, wire, read_envelope, TimeText, time_limit, new_envelope,
  encode, decode,
}

-- A nil RawMessage is written as `null`, and read back as that.
abbrev pub settle_raw : RawMessage → RawMessage
settle_raw none = some null
settle_raw (some j) = some j

abbrev pub settle : Payload → Payload
settle (started p) = started (record p { input = settle_raw p.input })
settle (responded p) = responded (record p { content = settle_raw p.content })
settle (invoked p) = invoked (record p { tool_args = settle_raw p.tool_args })
settle (awaiting p) = awaiting (record p { approval_payload = settle_raw p.approval_payload })
settle p = p

-- The payload's integer, which in Go is an int64 by its type.
abbrev pub payload_int : Payload → ℤ
payload_int (started p) = p.max_steps
payload_int (responded p) = p.step
payload_int (invoked p) = p.step
payload_int (resulted p) = p.step
payload_int (awaiting p) = p.step
payload_int (approved p) = p.step
payload_int (completed p) = p.total_steps
payload_int (failed p) = p.step
payload_int (cancelled p) = p.step

-- The envelope that carries a payload whose integer is an int64 decodes to that payload, a nil raw
-- field as `null`.
pub decode_payload-new_envelope :
    (event_id run_id tenant_id : String) (seq : ℤ) (p : Payload) (now : ℕ)
    → fits_int64 (payload_int p) ≡ true
    → decode_payload (new_envelope event_id run_id tenant_id seq p now) ≡ ok (settle p)
unfolding decode_payload new_envelope
decode_payload-new_envelope event_id run_id tenant_id seq (started p) now h = ground arith
decode_payload-new_envelope event_id run_id tenant_id seq (responded p) now h = ground arith
decode_payload-new_envelope event_id run_id tenant_id seq (invoked p) now h = ground arith
decode_payload-new_envelope event_id run_id tenant_id seq _ now h = ground arith

type_of_name-type_name :
    (t : EventType) → known_event_types t ≡ true → type_of_name (type_name t) ≡ t
unfolding type_of_name type_name str_dec
type_of_name-type_name (other_type s) h = cc
type_of_name-type_name run_started h = refl
type_of_name-type_name _ h = refl

module _ (text : TimeText) (e : Envelope) where
  check_required-wire : check_required required_envelope_fields (wire text e) ≡ ok tt
  unfolding check_required wire str_dec
  check_required-wire = refl

  read_envelope-wire :
      known_event_types e.event_type ≡ true
      → fits_int64 e.sequence_number ≡ true
      → e.occurred_at < time_limit
      → read_envelope text (wire text e) ≡ ok (record e { payload = settle_raw e.payload })
  unfolding read_envelope wire
  read_envelope-wire known fits early =
      ground (arith, text.parse-format e.occurred_at, type_of_name-type_name e.event_type)

  -- An envelope of a known event type, with an int64 sequence number and a time before the year
  -- 10000, survives Encode and Decode: only a nil payload comes back as `null`.
  pub decode-encode :
      known_event_types e.event_type ≡ true
      → fits_int64 e.sequence_number ≡ true
      → e.occurred_at < time_limit
      → (encode text e >>= decode text) ≡ ok (record e { payload = settle_raw e.payload })
  unfolding encode decode
  decode-encode known fits early =
      ground (arith, check_required-wire, read_envelope-wire known fits early)
