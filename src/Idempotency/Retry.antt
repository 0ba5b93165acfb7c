-- ===== src/Idempotency/Retry.antt =====
-- internal/idempotency/retry.go: the fail-closed retry, and what the Guard uses of its surroundings.
use durable_agent_execution.Prelude.{
  ℕ, zero, suc, ◌*◌, String, Bool, true, false, ltb, if◌then◌else◌, Result, ok, err, ◌-◌,
}
use durable_agent_execution.Errors.{Error, claim_lost, corrupt_record, fence_unavailable}
use durable_agent_execution.Idempotency.Process.{Process, pure, raise, try, ◌>>=◌}
use durable_agent_execution.Idempotency.Record.{CrashPoint}

-- What a Guard is given of the process: the clock, a Sleep that the context can interrupt, whether
-- the context is done, fresh uuids, and the crash hook. Durations are nanoseconds.
pub record Runtime (W : Type 0) : Type 0 where
  pub now : Process W ℕ
  pub sleep : ℕ → Process W (Unit {0})
  pub ctx_done : Process W Bool
  pub new_uuid : Process W String
  pub crash_at : String → CrashPoint → Process W (Unit {0})

abbrev pub retry_attempts : ℕ
retry_attempts = 5

abbrev pub retry_initial_backoff : ℕ
retry_initial_backoff = 200000000

abbrev pub retry_max_backoff : ℕ
retry_max_backoff = 2000000000

-- Errors that retrying cannot fix.
abbrev pub is_final : Error → Bool
is_final claim_lost = true
is_final corrupt_record = true
is_final _ = false

unfoldable pub next_backoff : ℕ → ℕ
next_backoff b = if ltb retry_max_backoff (b * 2) then retry_max_backoff else b * 2

module _ {W : Type 0} (rt : Runtime W) where
  -- What follows one attempt: its value, an error that is final, or another attempt.
  unfoldable pub after_attempt : {A : Type 0} → Process W A → Result Error A → Process W A
  after_attempt again (ok a) = pure a
  after_attempt again (err e) =
      if is_final e
      then raise e
      else (rt.ctx_done >>= λ done. if done then raise fence_unavailable else again)

  unfoldable pub after_sleep : {A : Type 0} → Process W A → Result Error Unit → Process W A
  after_sleep again (ok t) = again
  after_sleep again (err e) = raise fence_unavailable

  -- The loop of retry, with `more` attempts allowed after this one. An attempt's own timeout is part
  -- of `op`: an attempt that runs out of time is one that fails.
  unfoldable pub retry_loop : {A : Type 0} → Process W A → ℕ → ℕ → Process W A
  retry_loop op zero backoff = try op >>= after_attempt (raise fence_unavailable)
  retry_loop op (suc more) backoff =
      try op
      >>= after_attempt
          (try (rt.sleep backoff) >>= after_sleep (retry_loop op more (next_backoff backoff)))

  unfoldable pub retry : {A : Type 0} → Process W A → Process W A
  retry op = retry_loop op (retry_attempts - 1) retry_initial_backoff
