-- ===== src/Tests/Command.antt =====
-- The replay command on a journal in memory.
use durable_agent_execution.Events.{Envelope}
use durable_agent_execution.Prelude.Int64.{lt_int, negsuc}
use durable_agent_execution.Errors.{Error, message}
use durable_agent_execution.Prelude.{ok, Result, str_dec, List, err, ◌≡◌, some, ap}
use durable_agent_execution.Scripts.Replay.{
  replay_run, report, report_events, report_from, printed, build_event_source,
}
use durable_agent_execution.Scripts.Truncated.{replay_run-shown, IsPrefixFold}
use durable_agent_execution.Replay.Source.{EventSource}
use durable_agent_execution.Tests.Journal.{sdk, journal, rebuilt, journal_folds}

abbrev in_memory : EventSource
in_memory run_id = ok journal

abbrev unreachable : Result Error EventSource
unreachable = err (message "connecting to postgres")

shows_all :
    (replay_run sdk (λ n s. ok tt) in_memory unreachable "r" "kafka" (negsuc 0)).shown
    ≡ some (3, rebuilt)
unfolding replay_run report report_events report_from printed build_event_source str_dec lt_int
shows_all = ap (λ x. (report sdk (λ n s. ok tt) 3 x).shown) journal_folds

replay_run-shown_example :
    (src : EventSource) × (evs : List Envelope) × (build_event_source in_memory unreachable "kafka"
      ≡ ok src)
    × (src "r" ≡ ok evs)
    × IsPrefixFold sdk (λ n s. ok tt) 3 rebuilt evs
replay_run-shown_example =
    replay_run-shown sdk (λ n s. ok tt) 3 rebuilt in_memory unreachable "r" "kafka" (negsuc 0)
      shows_all
