-- ===== src/Worker.antt =====
-- cmd/worker/main.go: where a worker starts, and how it ends as an exit code.
pub mod Config
pub mod Margin
use durable_agent_execution.Agent.Progress.{terminal_payload-IsEnd}
use durable_agent_execution.Replay.Terminal.{terminal_payload}
use durable_agent_execution.Prelude.Int64.{ℤ}
use durable_agent_execution.Replay.Transitions.{apply_payload}
use durable_agent_execution.Replay.Source.{EventSource, replay}
use durable_agent_execution.Agent.{Outcome}
use durable_agent_execution.Agent.Loop.{outcome_of}
use durable_agent_execution.Errors.{
  Error, publish_failed, fence_unavailable, cause, outcome_unknown, run_not_found,
}
use durable_agent_execution.Replay.State.{RunStatus, Sdk, RunState, empty_state}
use durable_agent_execution.Prelude.{
  ◌≡◌, none, some, ℕ, Result, String, Option, Bool, err, true, false, if◌then◌else◌, ok, arith,
}
use durable_agent_execution.Events.{failed, Payload, completed}

abbrev pub exit_ok : ℕ
exit_ok = 0

abbrev pub exit_failed : ℕ
exit_failed = 1

abbrev pub exit_run_not_found : ℕ
exit_run_not_found = 2

abbrev pub exit_publish_failed : ℕ
exit_publish_failed = 3

abbrev pub exit_fence_unavailable : ℕ
exit_fence_unavailable = 4

-- terminalExitCode: the code if the status is terminal.
unfoldable pub terminal_exit_code : RunStatus → Option ℕ
terminal_exit_code RunStatus.completed = some exit_ok
terminal_exit_code RunStatus.failed = some exit_failed
terminal_exit_code RunStatus.cancelled = some exit_failed
terminal_exit_code _ = none

unfoldable pub error_exit_code : Error → ℕ
error_exit_code publish_failed = exit_publish_failed
error_exit_code fence_unavailable = exit_fence_unavailable
error_exit_code outcome_unknown = exit_fence_unavailable
error_exit_code _ = exit_failed

-- exitCodeFor
unfoldable pub exit_code_for : Result Error Outcome → ℕ
exit_code_for (err e) = error_exit_code (cause e)
exit_code_for (ok outcome) = if outcome.failed then exit_failed else exit_ok

-- What startingState decides: to run from a state, or to end with a code.
pub data Start : Type 0 where
  from : String → RunState → Start
  ends : ℕ → Start

is_not_found : Error → Bool
is_not_found run_not_found = true
is_not_found _ = false

unfoldable pub start_from : Result Error RunState → Start
unfolding is_not_found
start_from (err e) = ends (if is_not_found (cause e) then exit_run_not_found else exit_failed)
start_from (ok s) = elim (terminal_exit_code s.status) [
  | some code ↦ ends code
  | none ↦ from s.run_id s
]

-- startingState: a fresh run gets a new id (`fresh_id`), a resumed one is replayed.
unfoldable pub starting_state : Sdk → EventSource → Option String → String → Start
starting_state sdk src none fresh_id = from fresh_id empty_state
starting_state sdk src (some run_id) fresh_id = start_from (replay sdk src run_id)

-- A run that finishes exits with the code that a worker which resumes it afterwards exits with.
pub exit_code_for-terminal_exit_code :
    (sdk : Sdk) (s mid : RunState) (p : Payload) (at : ℕ) (steps : ℤ)
    → terminal_payload s ≡ ok p
    → apply_payload sdk s p at ≡ ok mid
    → terminal_exit_code mid.status ≡ some (exit_code_for (ok (outcome_of s steps p)))
unfolding terminal_exit_code exit_code_for outcome_of apply_payload
exit_code_for-terminal_exit_code sdk s mid (completed q) at steps h step = ground (arith, step)
exit_code_for-terminal_exit_code sdk s mid (failed q) at steps h step = ground (arith, step)
exit_code_for-terminal_exit_code sdk s mid p at steps h step =
    absurd (terminal_payload-IsEnd s p h).1
