-- ===== src/Replay/Induction.antt =====
-- What every accepted event keeps holds of every run that folds (internal/replay/fold.go).
use durable_agent_execution.Replay.Gapless.{fold_from-cons}
use durable_agent_execution.Replay.Outcomes.{outcome, redelivered, refused, accepted}
use durable_agent_execution.Prelude.Dict.{get}
use durable_agent_execution.Replay.Fold.{structural_error, transition, apply, fold_from, fold}
use durable_agent_execution.Events.{Envelope}
use durable_agent_execution.Replay.State.{Sdk, RunState, empty_state}
use durable_agent_execution.Prelude.{◌≡◌, [], ◌∷◌, none, ok, List, subst}

module _ (sdk : Sdk) (P : RunState → Type 0)
    (start : (e : Envelope) (next : RunState)
      → structural_error empty_state e ≡ none
      → transition sdk empty_state e ≡ ok next
      → P next)
    (keep : (s : RunState) (e : Envelope) (next : RunState)
      → P s
      → structural_error s e ≡ none
      → transition sdk s e ≡ ok next
      → P next) where
  pub apply_keeps : (s : RunState) (e : Envelope) → P s → P (apply sdk s e).0
  apply_keeps s e h = elim (outcome sdk s e) [
    | redelivered known result ↦ rw result h
    | refused x result ↦ rw result h
    | accepted next fresh check step result ↦ rw result (keep s e next h check step)
  ]

  pub fold_from_keeps :
      (s t : RunState) (evs : List Envelope) → P s → fold_from sdk s evs ≡ ok t → P t
  unfolding fold_from
  fold_from_keeps s t [] h r = let same : s ≡ t = cc in subst P same h
  fold_from_keeps s t (e ∷ evs) h r =
      fold_from_keeps (apply sdk s e).0 t evs (apply_keeps s e h) (fold_from-cons sdk s t e evs r).1

  apply_starts : (e : Envelope) → (apply sdk empty_state e).1 ≡ none → P (apply sdk empty_state e).0
  unfolding get
  apply_starts e h = elim (outcome sdk empty_state e) [
    | redelivered known result ↦ absurd (cc known)
    | refused x result ↦ absurd (cc (result, h))
    | accepted next fresh check step result ↦ rw result (start e next check step)
  ]

  pub fold_keeps : (s : RunState) (evs : List Envelope) → fold sdk evs ≡ ok s → P s
  unfolding fold
  fold_keeps s [] h = absurd (cc h)
  fold_keeps s (e ∷ evs) h =
      let (go, rest) = fold_from-cons sdk empty_state s e evs h in
      fold_from_keeps (apply sdk empty_state e).0 s evs (apply_starts e go) rest
