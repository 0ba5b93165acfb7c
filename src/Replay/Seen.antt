-- ===== src/Replay/Seen.antt =====
-- A run that folds has applied an event (RunState.seen of internal/replay/state.go).
use durable_agent_execution.Replay.Induction.{fold_keeps}
use durable_agent_execution.Replay.Gapless.{seen-transition}
use durable_agent_execution.Replay.Fold.{transition, fold}
use durable_agent_execution.Events.{Envelope}
use durable_agent_execution.Prelude.Int64.{ℤ, int_dec}
use durable_agent_execution.Replay.State.{Sdk, RunState, empty_state}
use durable_agent_execution.Prelude.Dict.{put}
use durable_agent_execution.Prelude.{◌≡◌, refl, [], ◌∷◌, List, String, is_nil, ok, false, arith}

is_nil-put : (m : List (ℤ × String)) (k : ℤ) (x : String) → is_nil (put int_dec m k x) ≡ false
unfolding put
is_nil-put [] k x = refl
is_nil-put (m ∷ ms) k x = ground arith

seen_next :
    (sdk : Sdk) (s : RunState) (e : Envelope) (next : RunState)
    → transition sdk s e ≡ ok next
    → is_nil next.seen ≡ false
seen_next sdk s e next h =
    rw (seen-transition sdk s e h) (is_nil-put s.seen e.sequence_number e.event_id)

pub fold-seen :
    (sdk : Sdk) (evs : List Envelope) (s : RunState) → fold sdk evs ≡ ok s → is_nil s.seen ≡ false
fold-seen sdk evs s =
    fold_keeps sdk (λ t. is_nil t.seen ≡ false)
      (λ e next check step. seen_next sdk empty_state e next step)
      (λ t e next d check step. seen_next sdk t e next step) s evs
