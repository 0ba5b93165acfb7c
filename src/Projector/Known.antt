-- ===== src/Projector/Known.antt =====
-- The table events of internal/store/projection.go: what is projected stays projected.
use durable_agent_execution.Prelude.{
  ◌≡◌, some, [], ◌∷◌, String, List, ◌++◌, Bool, arith, ok, Option-cases, inl, inr, ap, ◌∙◌, sym,
  subst,
}
use durable_agent_execution.Prelude.Int64.{ℤ}
use durable_agent_execution.Events.{Envelope}
use durable_agent_execution.Store.Projection.{Database, apply_event, event_at}
use durable_agent_execution.Store.Idempotent.{
  apply_event-known, apply_event-new, inserted_events, event_at-snoc,
}

-- The event's place in the journal holds this event.
abbrev pub IsProjected : Database → Envelope → Type 0
IsProjected db e = event_at db.events e.run_id e.sequence_number ≡ some e.event_id

event_at-append :
    (es : List Envelope) (x : Envelope) (run_id : String) (seq : ℤ) (id : String)
    → event_at es run_id seq ≡ some id
    → event_at (es ++ x ∷ []) run_id seq ≡ some id
unfolding event_at
event_at-append [] x run_id seq id h = absurd (cc h)
event_at-append (e ∷ es) x run_id seq id h = ground (arith, event_at-append es x run_id seq id)

module _ (db next : Database) (e : Envelope) (inserted : Bool)
    (done : apply_event db e ≡ ok (next, inserted)) where
  -- An event that ApplyEvent took is projected.
  pub apply_event-IsProjected : IsProjected next e
  apply_event-IsProjected = elim (Option-cases (event_at db.events e.run_id e.sequence_number)) [
    | inl new ↦
        ap (λ es. event_at es e.run_id e.sequence_number)
          (inserted_events db next e inserted (sym (apply_event-new db e new) ∙ done))
        ∙ event_at-snoc db.events e new
    | inr (id, known) ↦
        let (same_id, same_db) = apply_event-known db next e inserted id known done in
        subst (λ d. IsProjected d e) same_db (known ∙ ap some same_id)
  ]

  -- And the others stay projected.
  pub IsProjected-apply_event : (x : Envelope) → IsProjected db x → IsProjected next x
  IsProjected-apply_event x h =
      elim (Option-cases (event_at db.events e.run_id e.sequence_number)) [
        | inl new ↦
            ap (λ es. event_at es x.run_id x.sequence_number)
              (inserted_events db next e inserted (sym (apply_event-new db e new) ∙ done))
            ∙ event_at-append db.events e x.run_id x.sequence_number x.event_id h
        | inr (id, known) ↦
            let (same_id, same_db) = apply_event-known db next e inserted id known done in
            subst (λ d. IsProjected d x) same_db h
      ]
