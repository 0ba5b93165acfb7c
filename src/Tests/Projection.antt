-- ===== src/Tests/Projection.antt =====
-- The projection of internal/store on a first event and on the end of a run.
use durable_agent_execution.Errors.{Error}
use durable_agent_execution.Store.Firsts.{projected}
use durable_agent_execution.Agent.Accepted.{offers_end}
use durable_agent_execution.Replay.State.{RunStatus}
use durable_agent_execution.Events.Codec.{new_envelope}
use durable_agent_execution.Json.{
  members, read, same_name, into_string, into_raw, into_int, write_raw, into_bool, into_ptr,
  write_ptr, find, RawMessage,
}
use durable_agent_execution.Events.Payloads.{decode_payload, payload_members, unmarshal, marshal}
use durable_agent_execution.Prelude.Dict.{put, get}
use durable_agent_execution.Prelude.Int64.{pos, int_dec}
use durable_agent_execution.Store.Again.{apply_event-again}
use durable_agent_execution.Json.Canonical.{canonical}
use durable_agent_execution.Agent.Loop.{envelope_for}
use durable_agent_execution.Store.Agreement.{IsShown, upserted-IsShown}
use durable_agent_execution.Store.Projection.{
  Database, apply_event, RunRow, insert_event, upserted, event_at, has_event_id, upsert_run,
  status_for_event, step_from_payload, check_existing, is_row_of,
}
use durable_agent_execution.Prelude.{
  ◌≡◌, refl, some, [], ◌∷◌, ok, false, true, str_dec, List, Result, err, is_ok, none,
}
use durable_agent_execution.Events.{completed, Envelope}
use native.Mathlib.Decide.{ℕ_discrete}
use durable_agent_execution.Tests.Journal.{sdk, start, answer, call}
use durable_agent_execution.Tests.Loop.{config, finishing, finishing_ends, finishing_goes}

abbrev empty_tables : Database
empty_tables = record { events = []; runs = [] }

abbrev first_tables : Database
first_tables = record {
  events = start ∷ [];
  runs =
      (
        "r",
        record {
          tenant_id = "tenant";
          workload_type = "repo";
          status = RunStatus.running;
          current_step = pos 0;
          created_at = 7000;
          updated_at = 7000;
          last_event_id = "e0";
        },
      )
      ∷ [];
}

first_insert : apply_event empty_tables start ≡ ok (first_tables, true)
unfolding apply_event insert_event event_at has_event_id upsert_run upserted put get str_dec
    decode_payload payload_members unmarshal members read same_name into_string into_raw into_int
    new_envelope marshal write_raw status_for_event step_from_payload ℕ_discrete
first_insert = refl

abbrev row : RunRow
row = record {
  tenant_id = "tenant";
  workload_type = "repo";
  status = RunStatus.running;
  current_step = pos 2;
  created_at = 1;
  updated_at = 5;
  last_event_id = "e4";
}

upserted-IsShown_example :
    IsShown
      (upserted
        (some row)
        (envelope_for config finishing
          (completed (record { final_output = "all done"; total_steps = pos 2 }))
          "e5"
          9)
        (completed (record { final_output = "all done"; total_steps = pos 2 })))
      (record finishing { status = RunStatus.completed; final_output = "all done" })
upserted-IsShown_example =
    upserted-IsShown sdk config finishing
      (record finishing { status = RunStatus.completed; final_output = "all done" }) row
      (completed (record { final_output = "all done"; total_steps = pos 2 })) "e5" 9 7 refl
      (record { status = refl; step = refl })
      (offers_end (completed (record { final_output = "all done"; total_steps = pos 2 }))
        finishing_ends)
      finishing_goes

-- Another run's event in the same partition.
abbrev stranger : Envelope
stranger = record start { run_id = "q"; event_id = "q0" }

abbrev partition : List Envelope
partition = start ∷ stranger ∷ answer ∷ call ∷ answer ∷ []

abbrev tables_of : Result Error Database → Database
tables_of x = elim x [ ok db ↦ db | err e ↦ empty_tables ]

inserts : (x : Result Error Database) → is_ok x ≡ true → x ≡ ok (tables_of x)
inserts (ok db) h = refl
inserts (err e) h = absurd (cc h)

-- A column that puts the members of an object in order.
abbrev sorting : RawMessage → RawMessage
sorting none = none
sorting (some j) = some (canonical j)

next_tables_ok :
    projected first_tables (answer ∷ []) ≡ ok (tables_of (projected first_tables (answer ∷ [])))
unfolding projected apply_event insert_event event_at has_event_id upsert_run upserted put get
    str_dec decode_payload payload_members unmarshal members read same_name into_string into_raw
    into_int into_bool into_ptr write_ptr find check_existing int_dec is_row_of new_envelope marshal
    write_raw status_for_event step_from_payload ℕ_discrete
next_tables_ok = inserts (projected first_tables (answer ∷ [])) refl

-- The first event comes again after the second one.
apply_event-again_example :
    apply_event (tables_of (projected first_tables (answer ∷ []))) start
    ≡ ok (tables_of (projected first_tables (answer ∷ [])), false)
apply_event-again_example =
    apply_event-again empty_tables first_tables (tables_of (projected first_tables (answer ∷ [])))
      start true (answer ∷ []) first_insert next_tables_ok
