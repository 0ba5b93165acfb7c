-- ===== src/Store/Agreement.antt =====
-- The row of a run that internal/store/projection.go writes, against the state that the fold gives.
use durable_agent_execution.Agent.Drive.{invoked_payload, resulted_payload}
use durable_agent_execution.Agent.Progress.{IsEnd, terminal_payload-IsEnd}
use durable_agent_execution.Replay.Transitions.{
  apply_payload, apply_run_started, apply_llm_responded, apply_tool_invoked, apply_tool_resulted,
  current_step_for, result_once,
}
use durable_agent_execution.Agent.Accepted.{
  IsOffered, offers_response, offers_call, offers_result, offers_failure, offers_end,
}
use durable_agent_execution.Events.Codec.{new_envelope}
use durable_agent_execution.Agent.{JournalConfig}
use durable_agent_execution.Replay.State.{Sdk, RunState, RunStatus}
use durable_agent_execution.Agent.Loop.{envelope_for, mirror_key, responded_payload, failed_payload}
use durable_agent_execution.Store.Projection.{
  RunRow, upserted, status_for_event, step_from_payload, or_step,
}
use durable_agent_execution.Prelude.{◌≡◌, refl, some, ℕ, String, ok, ap, arith, ◌∙◌}
use durable_agent_execution.Events.{failed, completed, Payload, event_type_of, invoked, started}

-- A row that shows the status and the step of a state.
pub record IsShown (row : RunRow) (s : RunState) : Type 0 where
  pub status : row.status ≡ s.status
  pub step : row.current_step ≡ s.current_step

envelope_for-event_type :
    (journal : JournalConfig) (s : RunState) (p : Payload) (id : String) (now : ℕ)
    → (envelope_for journal s p id now).event_type ≡ event_type_of p
unfolding envelope_for mirror_key new_envelope
envelope_for-event_type journal s (invoked q) id now = refl
envelope_for-event_type journal s _ id now = refl

module _ (sdk : Sdk) (s mid : RunState) (row : RunRow) (at : ℕ)
    (running : s.status ≡ RunStatus.running) (shown : IsShown row s) where
  status_agrees :
      (p : Payload)
      → apply_payload sdk s p at ≡ ok mid
      → status_for_event (event_type_of p) ≡ mid.status
  unfolding status_for_event apply_payload apply_run_started apply_llm_responded apply_tool_invoked
      apply_tool_resulted current_step_for result_once
  status_agrees (started q) h = ground (arith, h, running)
  status_agrees _ h = ground (arith, h, running)

  step_at_end :
      (p : Payload)
      → IsEnd s p
      → apply_payload sdk s p at ≡ ok mid
      → or_step (step_from_payload p) row.current_step ≡ mid.current_step
  unfolding step_from_payload apply_payload
  step_at_end (completed q) e h = ground (arith, h, shown.step)
  step_at_end (failed q) e h = ground (arith, h, e)
  step_at_end _ e h = absurd e

  step_agrees :
      (journal : JournalConfig) (p : Payload)
      → IsOffered sdk journal s p
      → apply_payload sdk s p at ≡ ok mid
      → or_step (step_from_payload p) row.current_step ≡ mid.current_step
  unfolding step_from_payload apply_payload apply_llm_responded apply_tool_invoked
      apply_tool_resulted current_step_for result_once responded_payload invoked_payload
      resulted_payload failed_payload
  step_agrees journal p (offers_response resp content a d) h = ground (arith, h)
  step_agrees journal p (offers_call call rest b a d) h = ground (arith, h)
  step_agrees journal p (offers_result call o a d) h = ground (arith, h)
  step_agrees journal p (offers_failure c t b a) h = ground (arith, h)
  step_agrees journal p (offers_end q e) h = step_at_end q (terminal_payload-IsEnd s q e).1 h

-- While a run is running and its row shows its state, the row that the projection writes for an event
-- of the loop shows the state that the event's transition gives.
pub upserted-IsShown :
    (sdk : Sdk) (journal : JournalConfig) (s mid : RunState) (row : RunRow) (p : Payload)
    (id : String) (now at : ℕ)
    → s.status ≡ RunStatus.running
    → IsShown row s
    → IsOffered sdk journal s p
    → apply_payload sdk s p at ≡ ok mid
    → IsShown (upserted (some row) (envelope_for journal s p id now) p) mid
unfolding upserted
upserted-IsShown sdk journal s mid row p id now at running shown offer h = record {
  status =
      ap status_for_event (envelope_for-event_type journal s p id now)
      ∙ status_agrees sdk s mid row at running shown p h;
  step = step_agrees sdk s mid row at running shown journal p offer h;
}
