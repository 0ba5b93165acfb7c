-- ===== src/Store/Reader.antt =====
-- EventReader of internal/store/reader.go: a run's events from the table events. The columns but the
-- payload's hold an envelope's fields as they are (NewEnvelope cuts the time to microseconds); what
-- JSONB gives back of a payload is a parameter.
use durable_agent_execution.Json.{RawMessage}
use durable_agent_execution.Prelude.{
  String, List, ◌∷◌, if◌then◌else◌, ite, is_nil, [], str_dec, err, true, ok, false,
}
use durable_agent_execution.Errors.{run_not_found}
use durable_agent_execution.Events.{Envelope}
use durable_agent_execution.Prelude.Int64.{lt_int}
use durable_agent_execution.Replay.Source.{EventSource}
use durable_agent_execution.Store.Projection.{Database}

-- WHERE run_id = $1
unfoldable pub rows_of_run : String → List Envelope → List Envelope
rows_of_run run_id [] = []
rows_of_run run_id (e ∷ es) =
    let rest = rows_of_run run_id es in
    if ite (str_dec e.run_id run_id) true false then e ∷ rest else rest

unfoldable pub insert_row : Envelope → List Envelope → List Envelope
insert_row e [] = e ∷ []
insert_row e (x ∷ rows) =
    let rest = insert_row e rows in
    if lt_int x.sequence_number e.sequence_number then x ∷ rest else e ∷ x ∷ rows

-- ORDER BY sequence_number
unfoldable pub by_sequence : List Envelope → List Envelope
by_sequence [] = []
by_sequence (e ∷ es) = insert_row e (by_sequence es)

-- rows.Scan: the column of the payload is JSONB, which keeps a value but not its text and the
-- order of its members.
unfoldable pub scan_rows : (RawMessage → RawMessage) → List Envelope → List Envelope
scan_rows jsonb [] = []
scan_rows jsonb (e ∷ es) = record e { payload = jsonb e.payload } ∷ scan_rows jsonb es

-- EventReader.Events
unfoldable pub event_reader : (RawMessage → RawMessage) → Database → EventSource
event_reader jsonb db run_id =
    let out = scan_rows jsonb (by_sequence (rows_of_run run_id db.events)) in
    if is_nil out then err run_not_found else ok out
