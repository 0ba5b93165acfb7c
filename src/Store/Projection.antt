-- ===== src/Store/Projection.antt =====
-- internal/store/mapping.go and projection.go, for a database that answers.
use durable_agent_execution.Prelude.Dict.{put, get}
use durable_agent_execution.Events.Payloads.{decode_payload}
use durable_agent_execution.Errors.{Error, postgres, conflicting_event}
use durable_agent_execution.Prelude.Int64.{ℤ, pos, int_dec}
use durable_agent_execution.Replay.State.{RunStatus}
use durable_agent_execution.Prelude.{
  none, some, [], ◌∷◌, String, List, Option, Bool, Result, ℕ, ite, if◌then◌else◌, false, str_dec,
  err, true, ◌&&◌, ok, ◌>>=◌, ◌++◌,
}
use durable_agent_execution.Events.{
  failed, awaiting_approval, EventType, Payload, Envelope, started, responded, run_completed,
  invoked, run_failed, resulted, run_cancelled, awaiting, approved, cancelled,
}

-- statusForEvent, by the string of each status.
unfoldable pub status_for_event : EventType → RunStatus
status_for_event awaiting_approval = RunStatus.awaiting_approval
status_for_event run_completed = RunStatus.completed
status_for_event run_failed = RunStatus.failed
status_for_event run_cancelled = RunStatus.cancelled
status_for_event _ = RunStatus.running

unfoldable pub step_from_payload : Payload → Option ℤ
step_from_payload (responded p) = some p.step
step_from_payload (invoked p) = some p.step
step_from_payload (resulted p) = some p.step
step_from_payload (awaiting p) = some p.step
step_from_payload (approved p) = some p.step
step_from_payload (failed p) = some p.step
step_from_payload (cancelled p) = some p.step
step_from_payload _ = none

-- A row of the table runs.
pub record RunRow : Type 0 where
  pub tenant_id : String
  pub workload_type : String
  pub status : RunStatus
  pub current_step : ℤ
  pub created_at : ℕ
  pub updated_at : ℕ
  pub last_event_id : String

-- The tables events, in which event_id and (run_id, sequence_number) are unique, and runs.
pub record Database : Type 0 where
  pub events : List Envelope
  pub runs : List (String × RunRow)

unfoldable pub is_row_of : String → ℤ → Envelope → Bool
is_row_of run_id seq e =
    ite (str_dec e.run_id run_id) true false && ite (int_dec e.sequence_number seq) true false

-- SELECT event_id FROM events WHERE run_id = ... AND sequence_number = ...
unfoldable pub event_at : List Envelope → String → ℤ → Option String
event_at [] run_id seq = none
event_at (e ∷ es) run_id seq =
    if is_row_of run_id seq e then some e.event_id else event_at es run_id seq

unfoldable pub has_event_id : List Envelope → String → Bool
has_event_id [] id = false
has_event_id (e ∷ es) id =
    if ite (str_dec e.event_id id) true false then true else has_event_id es id

abbrev pub workload_of : Payload → String
workload_of (started p) = p.workload_type
workload_of _ = ""

abbrev pub or_step : Option ℤ → ℤ → ℤ
or_step none z = z
or_step (some step) z = step

-- The statement of upsertRun: a new row, or the update of the one that is there.
unfoldable pub upserted : Option RunRow → Envelope → Payload → RunRow
upserted none e p = record {
  tenant_id = e.tenant_id;
  workload_type = workload_of p;
  status = status_for_event e.event_type;
  current_step = or_step (step_from_payload p) (pos 0);
  created_at = e.occurred_at;
  updated_at = e.occurred_at;
  last_event_id = e.event_id;
}
upserted (some row) e p = record row {
  status = status_for_event e.event_type;
  current_step = or_step (step_from_payload p) row.current_step;
  updated_at = e.occurred_at;
  last_event_id = e.event_id;
}

unfoldable pub upsert_run :
    List (String × RunRow) → Envelope → Result Error (List (String × RunRow))
upsert_run runs e = do
  p ← decode_payload e
  ok (put str_dec runs e.run_id (upserted (get str_dec runs e.run_id) e p))

-- checkExistingEvent
unfoldable pub check_existing : Database → String → Envelope → Result Error (Database × Bool)
check_existing db existing e =
    if ite (str_dec existing e.event_id) true false then ok (db, false) else err conflicting_event

-- The row is new in its place: its event_id must be new too, or the insert is a unique_violation.
unfoldable pub insert_event : Database → Envelope → Result Error (Database × Bool)
insert_event db e =
    if has_event_id db.events e.event_id
    then err (postgres "23505")
    else (upsert_run db.runs e >>= λ runs.
        ok (record { events = db.events ++ e ∷ []; runs = runs }, true))

unfoldable pub apply_event : Database → Envelope → Result Error (Database × Bool)
apply_event db e = elim (event_at db.events e.run_id e.sequence_number) [
  | some existing ↦ check_existing db existing e
  | none ↦ insert_event db e
]
