-- ===== src/Agent/Accepted.antt =====
-- The events that internal/agent/loop.go publishes are events that Apply of internal/replay takes.
use durable_agent_execution.Replay.Clone.{clone_run_state-id}
use durable_agent_execution.Replay.Transitions.{apply_payload}
use durable_agent_execution.Events.RoundTrip.{payload_int, settle, decode_payload-new_envelope}
use durable_agent_execution.Events.Payloads.{decode_payload}
use durable_agent_execution.Events.Codec.{new_envelope}
use durable_agent_execution.Prelude.Int64.{int_dec}
use durable_agent_execution.Prelude.Dict.{get}
use durable_agent_execution.Replay.Fold.{
  is_terminal_status, structural_error, apply, is_empty, transition, with_ids,
}
use durable_agent_execution.Replay.Actions.{is_live}
use durable_agent_execution.Replay.Gapless.{IsGapless}
use durable_agent_execution.Replay.Terminal.{terminal_payload}
use durable_agent_execution.Agent.Drive.{invoked_payload, resulted_payload}
use durable_agent_execution.Agent.Loop.{
  content_items, responded_payload, failed_payload, envelope_for, mirror_key,
}
use durable_agent_execution.Json.{arr, fits_int64}
use durable_agent_execution.Agent.{
  JournalConfig, LlmResponse, List, Block, ToolCall, Bool, Verdict, String, ℕ, Envelope,
}
use durable_agent_execution.Replay.State.{Sdk, RunState, Block, NextAction, ToolCall, RunStatus}
use durable_agent_execution.Prelude.{
  ◌≡◌, some, ◌∷◌, List, Bool, String, ok, ◌≢◌, is_nil, false, true, ℕ, refl, none, subst, arith,
  sym, ◌∙◌, length, is_ok,
}
use durable_agent_execution.Events.{Payload, Envelope, invoked}

-- What the loop may publish in a state, by its next action: the response of the model, the first
-- pending call, the result of the call in flight, and the end of the run.
pub data IsOffered (sdk : Sdk) (journal : JournalConfig) (s : RunState) : Payload → Type 0 where
  offers_response :
      (resp : LlmResponse) (content : List Block)
      → s.next_action ≡ NextAction.call_llm
      → sdk.decode_content (arr (content_items resp.content)) ≡ some content
      → IsOffered sdk journal s (responded_payload s resp)
  offers_call :
      (call : ToolCall) (rest : List ToolCall) (has_side_effect : Bool)
      → s.next_action ≡ NextAction.execute_tool
      → s.pending_tool_calls ≡ call ∷ rest
      → IsOffered sdk journal s (invoked_payload journal.run_id s call has_side_effect)
  offers_result :
      (call : ToolCall) (verdict : Verdict)
      → s.next_action ≡ NextAction.resolve_in_flight_tool
      → s.in_flight_tool ≡ some call
      → IsOffered sdk journal s (resulted_payload s call verdict)
  offers_failure :
      (error_class text : String) (retryable : Bool)
      → s.next_action ≢ NextAction.nothing
      → IsOffered sdk journal s (failed_payload s error_class text retryable)
  offers_end : (p : Payload) → terminal_payload s ≡ ok p → IsOffered sdk journal s p

decode_payload-mirror_key :
    (p : Payload) (e : Envelope) → decode_payload (mirror_key p e) ≡ decode_payload e
unfolding mirror_key decode_payload
decode_payload-mirror_key (invoked q) e = refl
decode_payload-mirror_key _ e = refl

module _ (sdk : Sdk) (journal : JournalConfig) (s : RunState) (g : IsGapless s)
    (more : is_nil s.seen ≡ false) (same : journal.run_id ≡ s.run_id)
    (live : is_live s.status ≡ true) where
  live_alive : (t : RunStatus) → is_live t ≡ true → is_terminal_status t ≡ false
  unfolding is_terminal_status
  live_alive RunStatus.unset h = refl
  live_alive RunStatus.running h = refl
  live_alive RunStatus.awaiting_approval h = refl
  live_alive _ h = absurd (cc h)

  module _ (p : Payload) (id : String) (now : ℕ) where
    abbrev e : Envelope
    e = envelope_for journal s p id now

    envelope_ids : (e.run_id ≡ journal.run_id) × (e.sequence_number ≡ s.next_sequence)
    unfolding envelope_for mirror_key new_envelope
    envelope_ids = by_payload p
      where
        by_payload :
            (q : Payload)
            → ((envelope_for journal s q id now).run_id ≡ journal.run_id)
              × ((envelope_for journal s q id now).sequence_number ≡ s.next_sequence)
        by_payload (invoked q) = (refl, refl)
        by_payload _ = (refl, refl)

    fresh : get int_dec s.seen e.sequence_number ≡ none
    fresh =
        subst (λ n. get int_dec s.seen n ≡ none) (sym (envelope_ids.1 ∙ g.next_is_length))
          (g.above (length s.seen) (omega arith))

    passes : structural_error s e ≡ none
    unfolding structural_error is_empty
    passes = ground (arith, more, envelope_ids.0, envelope_ids.1, same, live_alive s.status live)

    decoded : fits_int64 (payload_int p) ≡ true → decode_payload e ≡ ok (settle p)
    unfolding envelope_for
    decoded fits =
        decode_payload-mirror_key p
          (new_envelope id journal.run_id journal.tenant_id s.next_sequence p now)
        ∙ decode_payload-new_envelope id journal.run_id journal.tenant_id s.next_sequence p now fits

    pub accepted_step :
        fits_int64 (payload_int p) ≡ true
        → is_ok (apply_payload sdk s (settle p) e.occurred_at) ≡ true
        → (apply sdk s e).1 ≡ none
    unfolding apply transition with_ids is_empty
    accepted_step fits step =
        ground (arith, fresh, passes, decoded fits, clone_run_state-id s, more, step)
