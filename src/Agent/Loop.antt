-- ===== src/Agent/Loop.antt =====
-- internal/agent/loop.go: how a payload is journaled, and the steps that need no tool. The log line of
-- publishApplyPrint, with the digest in it, is left out.
use durable_agent_execution.Prelude.Decimal.{int_text}
use durable_agent_execution.Events.{failed}
use Prim.Native.String.{◌++◌ as append}
use durable_agent_execution.Replay.Terminal.{terminal_payload, last_step_text}
use durable_agent_execution.Replay.Messages.{messages}
use durable_agent_execution.Errors.{Error, publish_failed, message}
use durable_agent_execution.Replay.Fold.{apply}
use durable_agent_execution.Json.{Items, nil, item, arr}
use durable_agent_execution.Events.Codec.{new_envelope}
use durable_agent_execution.Replay.State.{RunState, Sdk, Block}
use durable_agent_execution.Agent.{
  JournalConfig, LlmError, Surroundings, Envelope, String, Bool, Block, LlmResponse, api_error,
  Process, LlmReply, Outcome, call_failed, llm_error_text, network_error, replied, other_error,
}
use durable_agent_execution.Events.{Payload, Envelope, invoked, responded, completed}
use durable_agent_execution.Prelude.Int64.{ℤ, negsuc, int_dec, inc}
use durable_agent_execution.Prelude.{
  none, some, [], ◌∷◌, ℕ, List, String, Bool, ite, Result, ◌==◌, suc, ◌-◌, false, true, ◌||◌,
  if◌then◌else◌, ok, err, leb, str_dec, ltb, ◌*◌, zero,
}
use durable_agent_execution.Idempotency.Process.{◌>>=◌, ◌>>◌, Process, try, raise, pure, exit}

abbrev pub publish_max_attempts : ℕ
publish_max_attempts = 5

abbrev pub publish_initial_backoff : ℕ
publish_initial_backoff = 200000000

abbrev pub publish_max_backoff : ℕ
publish_max_backoff = 2000000000

abbrev pub no_crash_injection : ℤ
no_crash_injection = negsuc 0

-- The envelope's idempotency_key mirrors the payload's.
unfoldable pub mirror_key : Payload → Envelope → Envelope
mirror_key (invoked p) e = record e { idempotency_key = p.idempotency_key }
mirror_key _ e = e

-- The envelope that publishApplyPrint builds in a state.
unfoldable pub envelope_for : JournalConfig → RunState → Payload → String → ℕ → Envelope
envelope_for journal s p id now =
    mirror_key p (new_envelope id journal.run_id journal.tenant_id s.next_sequence p now)

unfoldable pub is_crash_point : JournalConfig → ℤ → Bool
is_crash_point journal seq =
    ite (int_dec journal.crash_after_seq no_crash_injection) false
      (ite (int_dec seq journal.crash_after_seq) true false)

-- isRetryableLLMError
unfoldable pub is_retryable_llm_error : LlmError → Bool
is_retryable_llm_error (api_error status text) = status == 429 || leb 500 status
is_retryable_llm_error (network_error text) = true
is_retryable_llm_error (other_error text) = false

-- marshalContentVerbatim: the raw JSON of each block.
unfoldable pub content_items : List Block → Items
content_items [] = nil
content_items (b ∷ bs) = item b.raw_json (content_items bs)

unfoldable pub responded_payload : RunState → LlmResponse → Payload
responded_payload s resp = responded (record {
  step = inc s.current_step;
  stop_reason = resp.stop_reason;
  content = some (arr (content_items resp.content));
  is_terminal = ite (str_dec resp.stop_reason "tool_use") false true;
})

unfoldable pub failed_payload : RunState → String → String → Bool → Payload
failed_payload s error_class text retryable = failed (record {
  step = s.current_step;
  error_class = error_class;
  error_message = text;
  retryable = retryable;
})

-- The outcome that finishRun reports, by the payload that it journaled.
unfoldable pub outcome_of : RunState → ℤ → Payload → Outcome
outcome_of s steps (completed p) = record {
  terminal = true;
  max_steps_exceeded = false;
  steps = steps;
  final_text = p.final_output;
  truncated = false;
  failed = false;
}
outcome_of s steps (failed p) =
    let truncated = ite (str_dec p.error_class "llm_output_truncated") true false in
    record {
      terminal = false;
      max_steps_exceeded = false;
      steps = steps;
      final_text = if truncated then last_step_text s else "";
      truncated = truncated;
      failed = true;
    }
outcome_of s steps _ = record {
  terminal = false;
  max_steps_exceeded = false;
  steps = steps;
  final_text = "";
  truncated = false;
  failed = false;
}

module _ {W : Type 0} (sur : Surroundings W) (sdk : Sdk) (journal : JournalConfig) where
  -- publishWithRetry, with `more` attempts after this one.
  unfoldable pub publish_loop : Envelope → ℕ → ℕ → Process W (Unit {0})
  publish_loop e zero backoff = sur.publish e
  publish_loop e (suc more) backoff = do
    let rest =
        publish_loop e more
          (if ltb publish_max_backoff (backoff * 2) then publish_max_backoff else backoff * 2)
    x ← try (sur.publish e)
    elim x [ ok done ↦ pure tt | err failure ↦ (sur.wait backoff >> rest) ]

  unfoldable pub publish_with_retry : Envelope → Process W (Unit {0})
  publish_with_retry e = publish_loop e (publish_max_attempts - 1) publish_initial_backoff

  -- The event is in the log: it is applied, and the injected crash comes before anything is shown.
  unfoldable pub applied : RunState → Envelope → Process W RunState
  applied s e =
      let (next, failure) = apply sdk s e in
      elim failure [
        | some x ↦ raise x
        | none ↦ if is_crash_point journal e.sequence_number then exit else pure next
      ]

  unfoldable pub published : RunState → Envelope → Result Error Unit → Process W RunState
  published s e (ok done) = applied s e
  published s e (err failure) = raise publish_failed

  unfoldable pub publish_apply_print : RunState → Payload → Process W RunState
  publish_apply_print s p = do
    now ← sur.now
    id ← sur.new_uuid
    x ← try (publish_with_retry (envelope_for journal s p id now))
    published s (envelope_for journal s p id now) x

  unfoldable pub after_reply : RunState → LlmReply → Process W RunState
  after_reply s (call_failed failure) =
      publish_apply_print s (
        failed_payload s "llm_call_failed" (llm_error_text failure)
          (is_retryable_llm_error failure))
      >> raise (message "calling llm")
  after_reply s (replied none) = raise (message "llm returned a nil response with no error")
  after_reply s (replied (some resp)) = publish_apply_print s (responded_payload s resp)

  unfoldable pub call_llm_and_journal : RunState → Process W RunState
  call_llm_and_journal s = sur.create_message (messages s) >>= after_reply s

  unfoldable pub finish_with : RunState → Result Error Payload → Process W Outcome
  finish_with s (err x) = raise x
  finish_with s (ok p) = do
    final ← publish_apply_print s p
    pure (outcome_of s final.current_step p)

  unfoldable pub finish_run : RunState → Process W Outcome
  finish_run s = finish_with s (terminal_payload s)

  unfoldable pub fail_max_steps : RunState → Process W Outcome
  fail_max_steps s = do
    final ← publish_apply_print s (
        failed_payload s "max_steps_exceeded"
          (append "exceeded max_steps="
            (append (int_text s.max_steps) " without reaching a terminal state"))
          false)
    pure (record {
      terminal = false;
      max_steps_exceeded = true;
      steps = final.current_step;
      final_text = "";
      truncated = false;
      failed = true;
    })
