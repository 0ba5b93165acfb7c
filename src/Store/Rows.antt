-- ===== src/Store/Rows.antt =====
-- Lists of rows of the table events (internal/store/reader.go): one run's rows, in order.

use durable_agent_execution.Prelude.Int64.{lt_int, ℤ, pos, int_dec}
use durable_agent_execution.Events.{Envelope}
use durable_agent_execution.Store.Reader.{insert_row, by_sequence, rows_of_run}
use durable_agent_execution.Prelude.{
  List, ℕ, String, ◌∷◌, ◌≡◌, ◌≢◌, ap, ◌++◌, none, suc, ◌+◌, [], length, arith, ◌∙◌, ite, refl, some,
  subst,
}
use durable_agent_execution.Store.Projection.{event_at, is_row_of}

-- Sequence numbers count up from n.
abbrev pub IsCounted : ℕ → List Envelope → Type 0
IsCounted n [] = Unit
IsCounted n (e ∷ es) = (e.sequence_number ≡ pos n) × IsCounted (suc n) es

pub IsCounted-snoc :
    (n : ℕ) (es : List Envelope) (e : Envelope)
    → IsCounted n es
    → e.sequence_number ≡ pos (n + length es)
    → IsCounted n (es ++ e ∷ [])
IsCounted-snoc n [] e h at = (at ∙ ap pos (omega arith), tt)
IsCounted-snoc n (x ∷ es) e h at =
    (h.0, IsCounted-snoc (suc n) es e h.1 (at ∙ ap pos (omega arith)))

insert_row-first :
    (n : ℕ) (e : Envelope) (es : List Envelope)
    → e.sequence_number ≡ pos n
    → IsCounted (suc n) es
    → insert_row e es ≡ e ∷ es
unfolding insert_row lt_int
insert_row-first n e [] at h = refl
insert_row-first n e (x ∷ es) at h = ground (arith, at, h.0)

pub by_sequence-counted : (n : ℕ) (es : List Envelope) → IsCounted n es → by_sequence es ≡ es
unfolding by_sequence
by_sequence-counted n [] h = refl
by_sequence-counted n (e ∷ es) h =
    ap (insert_row e) (by_sequence-counted (suc n) es h.1) ∙ insert_row-first n e es h.0 h.1

pub rows_of_run-snoc_own :
    (run_id : String) (es : List Envelope) (e : Envelope)
    → e.run_id ≡ run_id
    → rows_of_run run_id (es ++ e ∷ []) ≡ rows_of_run run_id es ++ e ∷ []
unfolding rows_of_run
rows_of_run-snoc_own run_id [] e own = ground arith
rows_of_run-snoc_own run_id (x ∷ es) e own = ground (arith, rows_of_run-snoc_own run_id es e own)

pub rows_of_run-snoc_other :
    (run_id : String) (es : List Envelope) (e : Envelope)
    → e.run_id ≢ run_id
    → rows_of_run run_id (es ++ e ∷ []) ≡ rows_of_run run_id es
unfolding rows_of_run
rows_of_run-snoc_other run_id [] e other = ground arith
rows_of_run-snoc_other run_id (x ∷ es) e other =
    ground (arith, rows_of_run-snoc_other run_id es e other)

pub event_at-snoc_other :
    (es : List Envelope) (e : Envelope) (run_id : String) (z : ℤ)
    → e.run_id ≢ run_id
    → event_at (es ++ e ∷ []) run_id z ≡ event_at es run_id z
unfolding event_at is_row_of
event_at-snoc_other [] e run_id z other = ground arith
event_at-snoc_other (x ∷ es) e run_id z other =
    ground (arith, event_at-snoc_other es e run_id z other)

event_at-snoc_own :
    (es : List Envelope) (e : Envelope) (z : ℤ)
    → event_at es e.run_id e.sequence_number ≡ none
    → event_at (es ++ e ∷ []) e.run_id z
      ≡ ite (int_dec e.sequence_number z) (some e.event_id) (event_at es e.run_id z)
unfolding event_at is_row_of
event_at-snoc_own [] e z new = ground arith
event_at-snoc_own (x ∷ es) e z new = ground (arith, event_at-snoc_own es e z)

pub event_at-snoc_run :
    (es : List Envelope) (e : Envelope) (run_id : String) (z : ℤ)
    → e.run_id ≡ run_id
    → event_at es run_id e.sequence_number ≡ none
    → event_at (es ++ e ∷ []) run_id z
      ≡ ite (int_dec e.sequence_number z) (some e.event_id) (event_at es run_id z)
event_at-snoc_run es e run_id z own new =
    subst
      (λ r.
        event_at (es ++ e ∷ []) r z
        ≡ ite (int_dec e.sequence_number z) (some e.event_id) (event_at es r z))
      own (event_at-snoc_own es e z (ap (λ r. event_at es r e.sequence_number) own ∙ new))

pub rows_of_run-cons_own :
    (run_id : String) (e : Envelope) (es : List Envelope)
    → e.run_id ≡ run_id
    → rows_of_run run_id (e ∷ es) ≡ e ∷ rows_of_run run_id es
unfolding rows_of_run
rows_of_run-cons_own run_id e es own = ground arith

pub rows_of_run-cons_other :
    (run_id : String) (e : Envelope) (es : List Envelope)
    → e.run_id ≢ run_id
    → rows_of_run run_id (e ∷ es) ≡ rows_of_run run_id es
unfolding rows_of_run
rows_of_run-cons_other run_id e es other = ground arith
