-- ===== src/Agent/Offers.antt =====
-- Each event that internal/agent/loop.go offers in a state that was folded is taken by its transition.
use durable_agent_execution.Events.RoundTrip.{settle}
use durable_agent_execution.Agent.{LlmResponse, List, ToolCall, Block, Bool, Verdict}
use durable_agent_execution.Agent.Drive.{invoked_payload, resulted_payload}
use durable_agent_execution.Agent.Loop.{responded_payload, content_items}
use durable_agent_execution.Replay.Actions.{Warrants, is_live, IsTurnOver}
use durable_agent_execution.Json.{fits_int64, arr}
use durable_agent_execution.Replay.Transitions.{
  batch_open, apply_payload, apply_llm_responded, apply_tool_invoked, apply_tool_resulted,
  decode_blocks, current_step_for, result_once,
}
use durable_agent_execution.Replay.State.{RunState, Sdk, NextAction, ToolCall, Block}
use durable_agent_execution.Prelude.Int64.{inc, ℤ, pos, lt_int, negsuc}
use durable_agent_execution.Prelude.{
  ◌≡◌, refl, none, some, ◌∷◌, ℕ, get_last?, true, ◌≢◌, ◌⊎◌, arith, String, false, List, suc, inl,
  Bool, inr, zero, is_ok,
}
use durable_agent_execution.Events.{Payload}

pub inc-fits : (z : ℤ) → fits_int64 z ≡ true → fits_int64 (inc z) ≡ true
unfolding inc
inc-fits (pos n) h = ground (arith, h)
inc-fits (negsuc zero) h = refl
inc-fits (negsuc (suc n)) h = ground (arith, h)

pub live_of :
    (s : RunState) (a : NextAction)
    → Warrants s a
    → a ≢ NextAction.nothing
    → is_live s.status ≡ true
live_of s NextAction.unset w h = absurd w
live_of s NextAction.call_llm w h = w.0
live_of s NextAction.execute_tool w h = w.0
live_of s NextAction.resolve_in_flight_tool w h = w.0
live_of s NextAction.finish_run w h = w.0
live_of s NextAction.fail_max_steps w h = w.0
live_of s NextAction.nothing w h = absurd (h refl)

module _ (sdk : Sdk) (s : RunState) where
  -- The transition of a payload goes through.
  abbrev pub IsTaken : Payload → ℕ → Type 0
  IsTaken p at = is_ok (apply_payload sdk s p at) ≡ true

  batch_is_closed :
      (get_last? s.steps ≡ none) ⊎ (IsTurnOver s × (lt_int s.current_step s.max_steps ≡ true))
      → batch_open s.steps ≡ false
  unfolding batch_open
  batch_is_closed (inl start) = ground (arith, start)
  batch_is_closed (inr (turn, room)) = ground (arith, turn.is_last, turn.done)

  pub response_goes :
      (resp : LlmResponse) (content : List Block) (at : ℕ)
      → Warrants s NextAction.call_llm
      → sdk.decode_content (arr (content_items resp.content)) ≡ some content
      → IsTaken (settle (responded_payload s resp)) at
  unfolding apply_payload apply_llm_responded decode_blocks responded_payload
  response_goes resp content at w decoded = ground (arith, batch_is_closed w.1, decoded)

  pub call_goes :
      (run_id : String) (call : ToolCall) (rest : List ToolCall) (b : Bool) (at : ℕ)
      → Warrants s NextAction.execute_tool
      → s.pending_tool_calls ≡ call ∷ rest
      → IsTaken (settle (invoked_payload run_id s call b)) at
  unfolding apply_payload apply_tool_invoked current_step_for invoked_payload
  call_goes run_id call rest b at (live, (last, c, cs, l, e, f, pending)) first =
      let same : c ≡ call = cc (e, first) in ground (arith, l, same, pending.known, pending.new)

  pub result_goes :
      (call : ToolCall) (o : Verdict) (at : ℕ)
      → Warrants s NextAction.resolve_in_flight_tool
      → s.in_flight_tool ≡ some call
      → IsTaken (settle (resulted_payload s call o)) at
  unfolding apply_payload apply_tool_resulted current_step_for result_once resulted_payload
  result_goes call o at (live, (last, c, l, f, flight)) there =
      let same : c ≡ call = cc (f, there) in
      ground (arith, l, same, flight.known, flight.invoked, flight.open_call)
