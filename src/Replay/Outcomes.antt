-- ===== src/Replay/Outcomes.antt =====
-- What an Apply of internal/replay/fold.go can come to: a redelivery, a refusal, or a transition.
use durable_agent_execution.Prelude.{
  ◌≡◌, ◌⊎◌, refl, ap, sym, ◌∙◌, String, true, false, Option, none, some, arith, str_dec, Result, ok,
  err, >>=-eq-ok, is_nil, ◌>>=◌,
}
use durable_agent_execution.Prelude.Dict.{get, put}
use durable_agent_execution.Prelude.Int64.{pos, int_dec, inc}
use durable_agent_execution.Errors.{Error, at_seq, conflicting_event}
use durable_agent_execution.Events.{Payload, started, Envelope}
use durable_agent_execution.Events.Payloads.{decode_payload}
use durable_agent_execution.Replay.State.{Sdk, RunState}
use durable_agent_execution.Replay.Clone.{clone_run_state-id}
use durable_agent_execution.Replay.Transitions.{apply_payload}
use durable_agent_execution.Replay.Fold.{
  is_terminal_status, is_run_started, structural_error, with_ids, finish, transition, apply,
}

module _ (sdk : Sdk) (s : RunState) (e : Envelope) where
  pub data Outcome : Type 0 where
    redelivered :
        get int_dec s.seen e.sequence_number ≡ some e.event_id → apply sdk s e ≡ (s, none) → Outcome
    refused : (x : Error) → apply sdk s e ≡ (s, some x) → Outcome
    accepted :
        (next : RunState)
        → get int_dec s.seen e.sequence_number ≡ none
        → structural_error s e ≡ none
        → transition sdk s e ≡ ok next
        → apply sdk s e ≡ (next, none)
        → Outcome

  outcome_of :
      (known : Option String)
      → get int_dec s.seen e.sequence_number ≡ known
      → (check : Option Error) → structural_error s e ≡ check
      → (step : Result Error RunState) → transition sdk s e ≡ step
      → Outcome
  unfolding apply
  outcome_of (some id) k check c step t = elim (str_dec id e.event_id) [
    | yes p ↦ redelivered (k ∙ ap some p) (ground arith)
    | no n ↦ refused (at_seq e.sequence_number conflicting_event) (ground arith)
  ]
  outcome_of none k (some x) c step t = refused (at_seq e.sequence_number x) (ground arith)
  outcome_of none k none c (err x) t = refused (at_seq e.sequence_number x) (ground arith)
  outcome_of none k none c (ok next) t = accepted next k c t (ground arith)

  pub outcome : Outcome
  outcome = outcome_of _ refl _ refl _ refl

  abbrev applied : Payload → Result Error RunState
  applied payload =
      apply_payload sdk (with_ids s s e) payload e.occurred_at >>= λ mid. ok (finish mid e)

  transition_lem : transition sdk s e ≡ (decode_payload e >>= applied)
  unfolding transition
  transition_lem = simp clone_run_state-id

  -- An accepted event is decoded, applied and recorded.
  pub transition-eq-ok :
      {next : RunState}
      → transition sdk s e ≡ ok next
      → (payload : Payload) × (mid : RunState) × (decode_payload e ≡ ok payload)
        × (apply_payload sdk (with_ids s s e) payload e.occurred_at ≡ ok mid)
        × (next ≡ finish mid e)
  transition-eq-ok {next} h =
      let (payload, decoded, rest) =
        >>=-eq-ok (decode_payload e) applied (sym transition_lem ∙ h) in
      let (mid, step, last) =
        >>=-eq-ok (apply_payload sdk (with_ids s s e) payload e.occurred_at) (λ m. ok (finish m e))
          rest in
      (payload, mid, decoded, step, cc)

pub record SameRecord (a b : RunState) : Type 0 where
  pub seen : a.seen ≡ b.seen
  pub run_id : a.run_id ≡ b.run_id
  pub tenant_id : a.tenant_id ≡ b.tenant_id
  pub next_sequence : a.next_sequence ≡ b.next_sequence

-- A payload's transition touches neither the run's identity nor the record of its events.
pub apply_payload-SameRecord :
    (sdk : Sdk) (s mid : RunState) (p : Payload) (at : _)
    → apply_payload sdk s p at ≡ ok mid
    → SameRecord mid s
unfolding apply_payload
apply_payload-SameRecord sdk s mid (started p) at h = ground arith
apply_payload-SameRecord sdk s mid _ at h = ground arith

-- Such an event carries on: the first one is RunStarted at 0, a later one has the run's id and the
-- next sequence number, and the run has not ended.
pub structural_error-eq-none :
    (s : RunState) (e : Envelope)
    → structural_error s e ≡ none
    → ((is_nil s.seen ≡ true) × (e.sequence_number ≡ pos 0) × (is_run_started e.event_type ≡ true))
      ⊎ ((is_nil s.seen ≡ false)
          × (e.run_id ≡ s.run_id)
          × (is_terminal_status s.status ≡ false)
          × (e.sequence_number ≡ s.next_sequence))
unfolding structural_error
structural_error-eq-none s e h = ground arith

pub finish-SameRecord :
    (mid : RunState) (e : Envelope)
    → ((finish mid e).seen ≡ put int_dec mid.seen e.sequence_number e.event_id)
      × ((finish mid e).next_sequence ≡ inc e.sequence_number)
      × ((finish mid e).run_id ≡ mid.run_id)
unfolding finish
finish-SameRecord mid e = (refl, refl, refl)
