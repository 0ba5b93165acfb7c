-- ===== src/Replay/Finish.antt =====
-- TerminalPayload of internal/replay/terminal.go on the states that the fold gives.
use durable_agent_execution.Replay.Actions.{Warrants, fold-Warrants}
use durable_agent_execution.Replay.Fold.{fold}
use durable_agent_execution.Events.{Envelope}
use durable_agent_execution.Replay.State.{Sdk, RunState, NextAction}
use durable_agent_execution.Replay.Terminal.{terminal_payload}
use durable_agent_execution.Prelude.{◌≡◌, List, ok, is_ok, true, subst, arith}

-- In every run that folds and whose next action is FINISH_RUN there is a terminal payload: no error,
-- and the last step that it reads is there.
pub terminal_payload-is_ok :
    (sdk : Sdk) (evs : List Envelope) (s : RunState)
    → fold sdk evs ≡ ok s
    → s.next_action ≡ NextAction.finish_run
    → is_ok (terminal_payload s) ≡ true
unfolding terminal_payload
terminal_payload-is_ok sdk evs s folded finishes =
    let (live, (last, l, idle, why)) =
      subst (Warrants s) finishes (fold-Warrants sdk evs s folded) in
    ground (arith, finishes, l)
