-- ===== src/Tests/Outage.antt =====
-- A database that refuses connections for so many calls, and then answers.
use durable_agent_execution.Errors.{message, postgres}
use durable_agent_execution.Prelude.{ℕ, ◌≡◌, Bool, true, suc, arith, zero, refl}
use durable_agent_execution.Projector.{Consumer, apply_with_retry, db_retry_initial_backoff}
use durable_agent_execution.Projector.Recovers.{
  Outage, over, fails, connection_lost, unanswered, apply_with_retry-Outage,
}
use durable_agent_execution.Idempotency.Process.{Ran, returned, raised, crashed}
use durable_agent_execution.Tests.Journal.{time_text, start}

abbrev answers : ℕ → Ran ℕ Bool
answers zero = returned true 0
answers (suc zero) = raised (postgres "08006") 0
answers (suc n) = raised (message "dial tcp: connection refused") n

abbrev flaky : Consumer ℕ
flaky = record {
  text = time_text;
  fetch = λ n. crashed n;
  apply_event = λ e n. answers n;
  commit = λ m n. returned tt n;
  wait = λ d n. returned tt n;
}

two_failures : Outage flaky start 0 2 2 0
two_failures =
    fails (message "dial tcp: connection refused") refl (unanswered _) refl
      (fails (postgres "08006") refl (connection_lost "006") refl (over 2 0))

apply_with_retry-Outage_example :
    apply_with_retry flaky 3 db_retry_initial_backoff start 2 ≡ returned true 0
apply_with_retry-Outage_example =
    apply_with_retry-Outage flaky start 3 2 2 0 two_failures tt (omega arith)
