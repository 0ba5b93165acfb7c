-- ===== src/Projector.antt =====
-- cmd/projector/main.go: consumeLoop and applyWithRetry; IsTransientError of internal/store/errors.go.
pub mod Known
pub mod Committed
pub mod Lossless
pub mod Recovers
use durable_agent_execution.Prelude.{
  ℕ, zero, suc, ◌+◌, ◌*◌, ◌==◌, ◌&&◌, ◌||◌, String, Bool, true, false, Option, none, some, Result,
  ok, err, ltb, if◌then◌else◌, str_dec, ite,
}
use durable_agent_execution.Errors.{Error, cause, canceled, postgres, conflicting_event, message}
use durable_agent_execution.Json.{Bytes}
use durable_agent_execution.Events.{Envelope}
use durable_agent_execution.Events.Codec.{TimeText, decode}
use durable_agent_execution.Idempotency.Process.{Process, pure, raise, exit, try, ◌>>=◌}

-- pgErr.Code[:2]; Postgres's codes have five characters.
unfoldable pub code_class : String → String
code_class (String.◌∷◌ a (String.◌∷◌ b rest)) = String.◌∷◌ a (String.◌∷◌ b "")
code_class code = code

unfoldable pub is_transient_class : String → Bool
is_transient_class c =
    ite (str_dec c "08") true false
    || ite (str_dec c "53") true false
    || ite (str_dec c "57") true false
    || ite (str_dec c "40") true false

-- An error without a SQLSTATE never got an answer from the server.
unfoldable pub is_transient_error : Error → Bool
is_transient_error (postgres code) = is_transient_class (code_class code)
is_transient_error _ = true

unfoldable pub is_canceled : Error → Bool
is_canceled canceled = true
is_canceled _ = false

unfoldable pub is_conflict : Error → Bool
is_conflict conflicting_event = true
is_conflict _ = false

pub record Message : Type 0 where
  pub partition : ℕ
  pub offset : ℕ
  pub value : Bytes

-- The reader, the projection and the timer of one projector process.
pub record Consumer (W : Type 0) : Type 0 where
  pub text : TimeText
  pub fetch : Process W Message
  pub apply_event : Envelope → Process W Bool
  pub commit : Message → Process W (Unit {0})
  -- a timer, or the error of a context that was done before it
  pub wait : ℕ → Process W (Unit {0})

abbrev pub db_retry_initial_backoff : ℕ
db_retry_initial_backoff = 200000000

abbrev pub db_retry_max_backoff : ℕ
db_retry_max_backoff = 5000000000

unfoldable pub next_db_backoff : ℕ → ℕ
next_db_backoff b = if ltb db_retry_max_backoff (b * 2) then db_retry_max_backoff else b * 2

module _ {W : Type 0} (consumer : Consumer W) where
  unfoldable pub after_apply : Process W Bool → Result Error Bool → Process W Bool
  after_apply again (ok inserted) = pure inserted
  after_apply again (err e) =
      if is_conflict e then raise e else if is_transient_error e then again else raise e

  -- The loop of applyWithRetry, on fuel: it retries a transient error for ever.
  unfoldable pub apply_with_retry : ℕ → ℕ → Envelope → Process W Bool
  apply_with_retry zero backoff env = raise (message "out of fuel")
  apply_with_retry (suc fuel) backoff env =
      let again : Process W Bool =
        consumer.wait backoff >>= λ t. apply_with_retry fuel (next_db_backoff backoff) env in
      try (consumer.apply_event env) >>= after_apply again

  -- An error's exit code: a clean shutdown, or a message for which a human steps in.
  unfoldable pub stop_code : Error → ℕ
  stop_code e = if is_canceled e then 0 else 1

  unfoldable pub after_commit : Result Error Unit → Process W (Option ℕ)
  after_commit (ok t) = pure none
  after_commit (err e) = pure (some (stop_code e))

  -- `consumed` counts this message already.
  unfoldable pub after_projected : ℕ → ℕ → Message → Result Error Bool → Process W (Option ℕ)
  after_projected crash_before consumed msg (err e) = pure (some (stop_code e))
  after_projected crash_before consumed msg (ok inserted) =
      if ltb 0 crash_before && consumed == crash_before
      then exit
      else (try (consumer.commit msg) >>= after_commit)

  unfoldable pub after_decode : ℕ → ℕ → ℕ → Message → Result Error Envelope → Process W (Option ℕ)
  after_decode fuel crash_before consumed msg (err e) = pure (some 1)
  after_decode fuel crash_before consumed msg (ok env) =
      try (apply_with_retry fuel db_retry_initial_backoff env)
      >>= after_projected crash_before (suc consumed) msg

  unfoldable pub after_fetch : ℕ → ℕ → ℕ → Result Error Message → Process W (Option ℕ)
  after_fetch fuel crash_before consumed (err e) = pure (some (stop_code e))
  after_fetch fuel crash_before consumed (ok msg) =
      after_decode fuel crash_before consumed msg (decode consumer.text msg.value)

  unfoldable pub after_round : (ℕ → Process W ℕ) → ℕ → Option ℕ → Process W ℕ
  after_round more consumed none = more (suc consumed)
  after_round more consumed (some code) = pure code

  -- consumeLoop for so many messages at most; the result is an exit code.
  unfoldable pub consume_loop : ℕ → ℕ → ℕ → ℕ → Process W ℕ
  consume_loop zero fuel crash_before consumed = raise (message "out of fuel")
  consume_loop (suc rounds) fuel crash_before consumed = try consumer.fetch >>= λ fetched.
      after_fetch fuel crash_before consumed fetched
      >>= after_round (consume_loop rounds fuel crash_before) consumed
