-- ===== src/Scripts/Replay.antt =====
-- run and buildEventSource of scripts/replay/main.go: a run's state from one of the sources, its printing
-- less.
use durable_agent_execution.Events.{Envelope}
use durable_agent_execution.Prelude.Int64.{ℤ, lt_int, pos}
use durable_agent_execution.Errors.{Error, run_not_found, message, cause}
use durable_agent_execution.Prelude.{
  Result, ℕ, String, Option, none, err, ite, some, ok, List, str_dec, if◌then◌else◌, length,
}
use durable_agent_execution.Replay.Source.{EventSource, fold_up_to, count_up_to_seq}
use durable_agent_execution.Replay.Fold.{fold}
use durable_agent_execution.Replay.State.{Sdk, RunState}

-- buildEventSource, for the Kafka source and what connecting to Postgres gives.
unfoldable pub build_event_source :
    EventSource → Result Error EventSource → String → Result Error EventSource
build_event_source kafka postgres source =
    ite (str_dec source "kafka") (ok kafka)
      (ite (str_dec source "postgres") postgres (err (message "unknown --source")))

-- The exit code, and what is given to printState: the number of events and the state.
pub record Report : Type 0 where
  pub code : ℕ
  pub shown : Option (ℕ × RunState)

-- 2 if errors.Is(err, ErrRunNotFound)
unfoldable pub failure_code : Error → ℕ
failure_code run_not_found = 2
failure_code _ = 1

unfoldable pub failed_report : Error → Report
failed_report x = record { code = failure_code (cause x); shown = none }

module _ (sdk : Sdk) (print_state : ℕ → RunState → Result Error (Unit {0})) where
  unfoldable pub printed : ℕ → RunState → Result Error (Unit {0}) → Report
  printed n s (err x) = record { code = 1; shown = some (n, s) }
  printed n s (ok done) = record { code = 0; shown = some (n, s) }

  unfoldable pub report : ℕ → Result Error RunState → Report
  report n (err x) = failed_report x
  report n (ok s) = printed n s (print_state n s)

  -- A negative bound, such as the default of -1, does not truncate.
  unfoldable pub report_events : ℤ → Result Error (List Envelope) → Report
  report_events up_to_seq (err x) = failed_report x
  report_events up_to_seq (ok evs) =
      if lt_int up_to_seq (pos 0)
      then report (length evs) (fold sdk evs)
      else report (count_up_to_seq evs up_to_seq) (fold_up_to sdk evs up_to_seq)

  unfoldable pub report_from : String → ℤ → Result Error EventSource → Report
  report_from run_id up_to_seq (err x) = record { code = 1; shown = none }
  report_from run_id up_to_seq (ok src) = report_events up_to_seq (src run_id)

  unfoldable pub replay_run : EventSource → Result Error EventSource → String → String → ℤ → Report
  replay_run kafka postgres run_id source up_to_seq =
      ite (str_dec run_id "") (record { code = 1; shown = none })
        (report_from run_id up_to_seq (build_event_source kafka postgres source))
