-- ===== src/Replay/Source.antt =====
-- internal/replay/replay.go: Replay over an EventSource, and FoldUpTo; countUpToSeq of
-- scripts/replay/main.go.
use durable_agent_execution.Prelude.{ℕ, suc, String, List, [], ◌∷◌, if◌then◌else◌, Result, ◌>>=◌}
use durable_agent_execution.Prelude.Int64.{ℤ, lt_int}
use durable_agent_execution.Errors.{Error}
use durable_agent_execution.Events.{Envelope}
use durable_agent_execution.Replay.State.{Sdk, RunState}
use durable_agent_execution.Replay.Fold.{fold}

-- A source gives a run's events in log order, or an error.
abbrev pub EventSource : Type 0
EventSource = String → Result Error (List Envelope)

unfoldable pub replay : Sdk → EventSource → String → Result Error RunState
replay sdk src run_id = do evs ← src run_id; fold sdk evs

-- The prefix before the first event past `up_to_seq`.
unfoldable pub up_to : List Envelope → ℤ → List Envelope
up_to [] up_to_seq = []
up_to (e ∷ evs) up_to_seq =
    if lt_int up_to_seq e.sequence_number then [] else e ∷ up_to evs up_to_seq

unfoldable pub fold_up_to : Sdk → List Envelope → ℤ → Result Error RunState
unfolding up_to
fold_up_to sdk evs up_to_seq = fold sdk (up_to evs up_to_seq)

unfoldable pub count_up_to_seq : List Envelope → ℤ → ℕ
count_up_to_seq [] up_to_seq = 0
count_up_to_seq (e ∷ evs) up_to_seq =
    if lt_int up_to_seq e.sequence_number then 0 else suc (count_up_to_seq evs up_to_seq)
