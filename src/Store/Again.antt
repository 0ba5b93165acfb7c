-- ===== src/Store/Again.antt =====
-- ApplyEvent of internal/store/projection.go under redelivery, however late it comes.
use durable_agent_execution.Store.Idempotent.{known_again}
use durable_agent_execution.Events.{Envelope}
use durable_agent_execution.Prelude.{List, ◌≡◌, Bool, ok, subst, false, ◌∷◌, []}
use durable_agent_execution.Store.Projection.{Database, apply_event}
use durable_agent_execution.Store.Firsts.{projected, projected-cons}
use durable_agent_execution.Projector.Known.{
  IsProjected, apply_event-IsProjected, IsProjected-apply_event,
}

IsProjected-projected :
    (es : List Envelope) (db last : Database) (x : Envelope)
    → projected db es ≡ ok last
    → IsProjected db x
    → IsProjected last x
unfolding projected
IsProjected-projected [] db last x h known =
    let same : db ≡ last = cc h in subst (λ d. IsProjected d x) same known
IsProjected-projected (e ∷ es) db last x h known =
    let (next, inserted, step, rest) = projected-cons db last e es h in
    IsProjected-projected es next last x rest
      (IsProjected-apply_event db next e inserted step x known)

-- An event that ApplyEvent took is known from then on, whatever other events are projected after it
-- without an error: its redelivery is no error and changes neither table.
pub apply_event-again :
    (db next last : Database) (e : Envelope) (inserted : Bool) (later : List Envelope)
    → apply_event db e ≡ ok (next, inserted)
    → projected next later ≡ ok last
    → apply_event last e ≡ ok (last, false)
apply_event-again db next last e inserted later taken rest = known_again last e (
    IsProjected-projected later next last e rest (apply_event-IsProjected db next e inserted taken))
