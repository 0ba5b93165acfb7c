-- ===== src/Store/Replayed.antt =====
-- What ApplyEvent (internal/store/projection.go) keeps of a run in the table events, against the fold of
-- its events.

use durable_agent_execution.Replay.Outcomes.{outcome, redelivered, refused, accepted}
use durable_agent_execution.Store.Rows.{
  IsCounted, rows_of_run-snoc_other, event_at-snoc_other, rows_of_run-snoc_own, IsCounted-snoc,
  event_at-snoc_run,
}
use durable_agent_execution.Replay.Redelivery.{fold_from-snoc}
use durable_agent_execution.Store.Idempotent.{apply_event-known, inserted_events, apply_event-new}
use durable_agent_execution.Replay.Gapless.{
  IsGapless, seen-transition, seq-transition, transition-IsGapless,
}
use durable_agent_execution.Prelude.Dict.{get, put, length-put, get-put}
use durable_agent_execution.Replay.Fold.{fold_from, apply}
use durable_agent_execution.Prelude.Int64.{ℤ, pos, int_dec, max_int64}
use durable_agent_execution.Events.{Envelope}
use durable_agent_execution.Replay.State.{Sdk, RunState, empty_state}
use durable_agent_execution.Store.Reader.{rows_of_run}
use durable_agent_execution.Prelude.{
  String, ◌∷◌, ◌≡◌, ◌≢◌, ap, ◌++◌, none, Bool, ok, [], length, arith, ◌∙◌, Option-cases, inl, inr,
  subst, sym, length-append, ◌<◌,
}
use durable_agent_execution.Store.Projection.{apply_event, Database, event_at}

-- What is projected of the run's events so far: the run's rows in their order replay to the state, and
-- the events that it has seen are those at their places in the table.
pub record IsReplayed (sdk : Sdk) (run_id : String) (t : RunState) (db : Database) : Type 0 where
  pub folds : fold_from sdk empty_state (rows_of_run run_id db.events) ≡ ok t
  pub in_order : IsCounted 0 (rows_of_run run_id db.events)
  pub as_many : length (rows_of_run run_id db.events) ≡ length t.seen
  pub known : (z : ℤ) → event_at db.events run_id z ≡ get int_dec t.seen z
  pub gapless : IsGapless t

module _ (sdk : Sdk) (run_id : String) (t : RunState) (db next : Database) (e : Envelope)
    (inserted : Bool) (done : apply_event db e ≡ ok (next, inserted))
    (r : IsReplayed sdk run_id t db) where
  by_event_at :
      (P : Database → Type 0)
      → (event_at db.events e.run_id e.sequence_number ≡ none
          → next.events ≡ db.events ++ e ∷ []
          → P next)
      → P db
      → P next
  by_event_at P added same = elim (Option-cases (event_at db.events e.run_id e.sequence_number)) [
    | inl new ↦
        added new (inserted_events db next e inserted (sym (apply_event-new db e new) ∙ done))
    | inr (id, known) ↦ subst P (apply_event-known db next e inserted id known done).1 same
  ]

  -- An event of another run changes nothing of this one.
  pub apply_event-other : e.run_id ≢ run_id → IsReplayed sdk run_id t next
  apply_event-other other =
      by_event_at (IsReplayed sdk run_id t)
        (λ new grown.
          let rows : rows_of_run run_id next.events ≡ rows_of_run run_id db.events =
            ap (rows_of_run run_id) grown ∙ rows_of_run-snoc_other run_id db.events e other in
          record {
            folds = ap (fold_from sdk empty_state) rows ∙ r.folds;
            in_order = subst (IsCounted 0) (sym rows) r.in_order;
            as_many = ap length rows ∙ r.as_many;
            known = λ z.
                ap (λ es. event_at es run_id z) grown
                ∙ event_at-snoc_other db.events e run_id z other
                ∙ r.known z;
            gapless = r.gapless;
          })
        r

  -- The run's next event.
  added_rows :
      (own : e.run_id ≡ run_id) (u : RunState)
      → apply sdk t e ≡ (u, none)
      → u.seen ≡ put int_dec t.seen e.sequence_number e.event_id
      → get int_dec t.seen e.sequence_number ≡ none
      → e.sequence_number ≡ pos (length t.seen)
      → IsGapless u
      → next.events ≡ db.events ++ e ∷ []
      → IsReplayed sdk run_id u next
  added_rows own u taken grown fresh at g added =
      let rows : rows_of_run run_id next.events ≡ rows_of_run run_id db.events ++ e ∷ [] =
        ap (rows_of_run run_id) added ∙ rows_of_run-snoc_own run_id db.events e own in
      record {
        folds =
            ap (fold_from sdk empty_state) rows
            ∙ fold_from-snoc sdk empty_state t u (rows_of_run run_id db.events) e r.folds taken;
        in_order =
            subst (IsCounted 0) (sym rows)
              (IsCounted-snoc 0 _ e r.in_order (at ∙ ap pos (omega (arith, r.as_many))));
        as_many =
            ap length rows
            ∙ length-append (rows_of_run run_id db.events) (e ∷ [])
            ∙ omega (
              arith,
              r.as_many,
              ap length grown,
              length-put int_dec t.seen e.sequence_number e.event_id fresh,
            );
        known = λ z. cc (
          ap (λ es. event_at es run_id z) added,
          event_at-snoc_run db.events e run_id z own (r.known e.sequence_number ∙ fresh),
          r.known z,
          ap (λ m. get int_dec m z) grown,
          get-put int_dec t.seen e.sequence_number z e.event_id,
        );
        gapless = g;
      }

  -- An event of this run that Apply takes.
  pub apply_event-own :
      e.run_id ≡ run_id
      → (apply sdk t e).1 ≡ none
      → length t.seen < max_int64
      → IsReplayed sdk run_id (apply sdk t e).0 next
  apply_event-own own takes room = elim (outcome sdk t e) [
    | redelivered known result ↦ rw result (
        subst (IsReplayed sdk run_id t)
          (apply_event-known db next e inserted e.event_id
            (ap (λ x. event_at db.events x e.sequence_number) own
              ∙ r.known e.sequence_number
              ∙ known)
            done).1
          r)
    | refused x result ↦ absurd (cc (result, takes))
    | accepted u fresh check step result ↦ rw result (
        added_rows own u result (seen-transition sdk t e step) fresh
          (seq-transition sdk t e step r.gapless check ∙ r.gapless.next_is_length)
          (transition-IsGapless sdk t e step r.gapless check fresh room)
          (inserted_events db next e inserted (
            sym (
              apply_event-new db e (
                ap (λ x. event_at db.events x e.sequence_number) own
                ∙ r.known e.sequence_number
                ∙ fresh))
            ∙ done)))
  ]
