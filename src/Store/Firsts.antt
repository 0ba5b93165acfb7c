-- ===== src/Store/Firsts.antt =====
-- The table events of internal/store/projection.go after a partition is projected: of a run, each
-- sequence number's first delivery.
use durable_agent_execution.Errors.{Error}
use durable_agent_execution.Prelude.Int64.{ℤ, int_dec}
use durable_agent_execution.Events.{Envelope}
use durable_agent_execution.Prelude.{
  List, String, Result, ◌∷◌, ◌≡◌, Bool, ok, false, if◌then◌else◌, true, none, some, ◌>>=◌,
  >>=-eq-ok, ite, ◌++◌, arith, Option-cases, ◌≢◌, ap, [], inl, sym, ◌∙◌, str_dec, refl, inr,
}
use durable_agent_execution.Store.Projection.{Database, apply_event, event_at, is_row_of}
use durable_agent_execution.Store.Reader.{rows_of_run}
use durable_agent_execution.Store.Rows.{
  rows_of_run-cons_own, rows_of_run-cons_other, rows_of_run-snoc_own, rows_of_run-snoc_other,
}
use durable_agent_execution.Store.Idempotent.{apply_event-known, apply_event-new, inserted_events}

-- The projection of events in the order of their partition.
unfoldable pub projected : Database → List Envelope → Result Error Database
projected db [] = ok db
projected db (e ∷ es) = apply_event db e >>= λ (next, inserted). projected next es

pub projected-cons :
    (db last : Database) (e : Envelope) (es : List Envelope)
    → projected db (e ∷ es) ≡ ok last
    → (next : Database) × (inserted : Bool) × (apply_event db e ≡ ok (next, inserted))
      × (projected next es ≡ ok last)
unfolding projected
projected-cons db last e es h =
    let ((next, inserted), done, rest) =
      >>=-eq-ok (apply_event db e) (λ (x : Database × Bool). projected x.0 es) h in
    (next, inserted, done, rest)

unfoldable pub has_sequence : List Envelope → ℤ → Bool
has_sequence [] z = false
has_sequence (e ∷ es) z =
    let rest = has_sequence es z in
    if ite (int_dec e.sequence_number z) true false then true else rest

-- These events, and of the further ones each that has a new sequence number.
unfoldable pub firsts : List Envelope → List Envelope → List Envelope
firsts kept [] = kept
firsts kept (e ∷ es) =
    if has_sequence kept e.sequence_number then firsts kept es else firsts (kept ++ e ∷ []) es

firsts-old :
    (kept : List Envelope) (e : Envelope) (es : List Envelope)
    → has_sequence kept e.sequence_number ≡ true
    → firsts kept (e ∷ es) ≡ firsts kept es
unfolding firsts
firsts-old kept e es h = ground (arith, h)

firsts-new :
    (kept : List Envelope) (e : Envelope) (es : List Envelope)
    → has_sequence kept e.sequence_number ≡ false
    → firsts kept (e ∷ es) ≡ firsts (kept ++ e ∷ []) es
unfolding firsts
firsts-new kept e es h = ground (arith, h)

has_sequence-absent :
    (run_id : String) (es : List Envelope) (z : ℤ)
    → event_at es run_id z ≡ none
    → has_sequence (rows_of_run run_id es) z ≡ false
unfolding has_sequence rows_of_run event_at is_row_of
has_sequence-absent run_id [] z h = refl
has_sequence-absent run_id (e ∷ es) z h = ground (arith, h, has_sequence-absent run_id es z)

has_sequence-there :
    (run_id : String) (es : List Envelope) (z : ℤ) (id : String)
    → event_at es run_id z ≡ some id
    → has_sequence (rows_of_run run_id es) z ≡ true
unfolding has_sequence rows_of_run event_at is_row_of
has_sequence-there run_id [] z id h = absurd (cc h)
has_sequence-there run_id (e ∷ es) z id h = ground (arith, h, has_sequence-there run_id es z id)

module _ (run_id : String) (db next : Database) (e : Envelope) (inserted : Bool)
    (done : apply_event db e ≡ ok (next, inserted)) (es : List Envelope) where
  step_own :
      e.run_id ≡ run_id
      → firsts (rows_of_run run_id next.events) es ≡ firsts (rows_of_run run_id db.events) (e ∷ es)
  step_own own = elim (Option-cases (event_at db.events e.run_id e.sequence_number)) [
    | inl new ↦
        let absent : event_at db.events run_id e.sequence_number ≡ none =
          ap (λ x. event_at db.events x e.sequence_number) (sym own) ∙ new in
        ap (λ rows. firsts rows es)
          (ap (rows_of_run run_id)
              (inserted_events db next e inserted (sym (apply_event-new db e new) ∙ done))
            ∙ rows_of_run-snoc_own run_id db.events e own)
        ∙ sym (
            firsts-new (rows_of_run run_id db.events) e es
              (has_sequence-absent run_id db.events e.sequence_number absent))
    | inr (id, known) ↦
        let there : event_at db.events run_id e.sequence_number ≡ some id =
          ap (λ x. event_at db.events x e.sequence_number) (sym own) ∙ known in
        ap (λ (d : Database). firsts (rows_of_run run_id d.events) es)
          (sym (apply_event-known db next e inserted id known done).1)
        ∙ sym (
            firsts-old (rows_of_run run_id db.events) e es
              (has_sequence-there run_id db.events e.sequence_number id there))
  ]

  step_other :
      e.run_id ≢ run_id
      → firsts (rows_of_run run_id next.events) es ≡ firsts (rows_of_run run_id db.events) es
  step_other other = elim (Option-cases (event_at db.events e.run_id e.sequence_number)) [
    | inl new ↦
        ap (λ rows. firsts rows es)
          (ap (rows_of_run run_id)
              (inserted_events db next e inserted (sym (apply_event-new db e new) ∙ done))
            ∙ rows_of_run-snoc_other run_id db.events e other)
    | inr (id, known) ↦
        ap (λ (d : Database). firsts (rows_of_run run_id d.events) es)
          (sym (apply_event-known db next e inserted id known done).1)
  ]

-- The run's rows after a projection.
pub projected-firsts :
    (run_id : String) (part : List Envelope) (db last : Database)
    → projected db part ≡ ok last
    → rows_of_run run_id last.events
      ≡ firsts (rows_of_run run_id db.events) (rows_of_run run_id part)
unfolding projected rows_of_run firsts
projected-firsts run_id [] db last h =
    let same : db ≡ last = cc h in ap (λ (d : Database). rows_of_run run_id d.events) (sym same)
projected-firsts run_id (e ∷ part) db last h =
    let (next, inserted, step, rest) = projected-cons db last e part h in
    elim (str_dec e.run_id run_id) [
      | yes own ↦
          projected-firsts run_id part next last rest
          ∙ step_own run_id db next e inserted step (rows_of_run run_id part) own
          ∙ ap (firsts (rows_of_run run_id db.events))
              (sym (rows_of_run-cons_own run_id e part own))
      | no other ↦
          projected-firsts run_id part next last rest
          ∙ step_other run_id db next e inserted step (rows_of_run run_id part) other
          ∙ ap (firsts (rows_of_run run_id db.events))
              (sym (rows_of_run-cons_other run_id e part other))
    ]
