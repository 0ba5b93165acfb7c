-- ===== src/Replay/Inversions.antt =====
-- What a payload's transition required and did, where it succeeded (apply* of internal/replay/fold.go).
use durable_agent_execution.Prelude.Int64.{pos}
use durable_agent_execution.Events.{
  LlmRespondedPayload, RunStartedPayload, ToolInvokedPayload, ToolResultedPayload,
}
use durable_agent_execution.Replay.Transitions.{
  apply_llm_responded, apply_tool_invoked, apply_tool_resulted, apply_run_started, current_step_for,
  result_once, decode_prompt, batch_open, contains, decode_blocks, has_result, new_step,
  note_invoked, note_result,
}
use durable_agent_execution.Replay.State.{Sdk, RunState, Block, StepRecord, RunStatus}
use durable_agent_execution.Prelude.{
  ◌≡◌, [], ◌∷◌, some, ok, List, ℕ, String, get_last?, false, true, arith, ◌++◌, set_last,
}

module _ (sdk : Sdk) (s mid : RunState) where
  pub llm_responded-eq-ok :
      (p : LlmRespondedPayload)
      → apply_llm_responded sdk s p ≡ ok mid
      → (content : List Block) × (batch_open s.steps ≡ false)
        × (decode_blocks sdk p.content ≡ some content)
        × (mid ≡ record s { current_step = p.step; steps = s.steps ++ new_step p content ∷ [] })
  unfolding apply_llm_responded
  llm_responded-eq-ok p h = ground arith

module _ (s mid : RunState) where
  pub tool_invoked-eq-ok :
      (p : ToolInvokedPayload) (at : ℕ)
      → apply_tool_invoked s p at ≡ ok mid
      → (step : StepRecord) × (get_last? s.steps ≡ some step)
        × (contains step.order p.tool_use_id ≡ true)
        × (contains step.invoked_order p.tool_use_id ≡ false)
        × (mid ≡ record s { steps = set_last s.steps (note_invoked step p at) })
  unfolding apply_tool_invoked current_step_for
  tool_invoked-eq-ok p at h = ground arith

  pub tool_resulted-eq-ok :
      (p : ToolResultedPayload)
      → apply_tool_resulted s p ≡ ok mid
      → (step : StepRecord) × (get_last? s.steps ≡ some step)
        × (contains step.order p.tool_use_id ≡ true)
        × (contains step.invoked_order p.tool_use_id ≡ true)
        × (has_result step p.tool_use_id ≡ false)
        × (mid ≡ record s { steps = set_last s.steps (note_result step p) })
  unfolding apply_tool_resulted current_step_for result_once
  tool_resulted-eq-ok p h = ground arith

  pub run_started-eq-ok :
      (p : RunStartedPayload)
      → apply_run_started s p ≡ ok mid
      → (prompt : String) × (decode_prompt p.input ≡ some prompt)
        × (mid ≡ record s {
          status = RunStatus.running;
          current_step = pos 0;
          max_steps = p.max_steps;
          prompt = prompt;
        })
  unfolding apply_run_started
  run_started-eq-ok p h = ground arith
