-- ===== src/Store/Idempotent.antt =====
-- ApplyEvent of internal/store/projection.go under redelivery.
use durable_agent_execution.Prelude.Int64.{int_dec}
use mathlib.Core.Logic.{if_pos}
use durable_agent_execution.Events.{Envelope}
use durable_agent_execution.Store.Projection.{
  event_at, apply_event, is_row_of, Database, insert_event, check_existing, upsert_run,
}
use durable_agent_execution.Prelude.{
  ◌≡◌, refl, none, some, [], ◌∷◌, String, ite, str_dec, List, true, ◌++◌, Bool, false, arith, ok,
  inl, inr, Result-cases,
}

same_text : (s : String) → ite (str_dec s s) true false ≡ true
same_text s = if_pos (str_dec s s) refl true false

is_row_of_self : (e : Envelope) → is_row_of e.run_id e.sequence_number e ≡ true
unfolding is_row_of
is_row_of_self e =
    cc (same_text e.run_id, if_pos (int_dec e.sequence_number e.sequence_number) refl true false)

pub event_at-snoc :
    (es : List Envelope) (e : Envelope)
    → event_at es e.run_id e.sequence_number ≡ none
    → event_at (es ++ e ∷ []) e.run_id e.sequence_number ≡ some e.event_id
unfolding event_at
event_at-snoc [] e h = ground (arith, is_row_of_self e)
event_at-snoc (x ∷ es) e h = ground (arith, event_at-snoc es e)

pub inserted_events :
    (db next : Database) (e : Envelope) (inserted : Bool)
    → insert_event db e ≡ ok (next, inserted)
    → next.events ≡ db.events ++ e ∷ []
unfolding insert_event
inserted_events db next e inserted h = elim (Result-cases (upsert_run db.runs e)) [
  | inl (runs, done) ↦ ground (arith, h, done)
  | inr (x, stopped) ↦ ground (arith, h, stopped)
]

pub known_again :
    (db : Database) (e : Envelope)
    → event_at db.events e.run_id e.sequence_number ≡ some e.event_id
    → apply_event db e ≡ ok (db, false)
unfolding apply_event check_existing
known_again db e known = ground (arith, known, same_text e.event_id)

pub apply_event-new :
    (db : Database) (e : Envelope)
    → event_at db.events e.run_id e.sequence_number ≡ none
    → apply_event db e ≡ insert_event db e
unfolding apply_event
apply_event-new db e new = ground (arith, new)

pub apply_event-known :
    (db next : Database) (e : Envelope) (inserted : Bool) (id : String)
    → event_at db.events e.run_id e.sequence_number ≡ some id
    → apply_event db e ≡ ok (next, inserted)
    → (id ≡ e.event_id) × (db ≡ next)
unfolding apply_event check_existing
apply_event-known db next e inserted id known h = elim (str_dec id e.event_id) [
  | yes p ↦ (p, ground (arith, known, h))
  | no n ↦ absurd (ground (arith, known, h))
]
