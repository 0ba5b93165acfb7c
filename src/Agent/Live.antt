-- ===== src/Agent/Live.antt =====
-- internal/agent/loop.go: a step of the loop, however it ends, leaves a log that folds.
use durable_agent_execution.Agent.Progress.{apply-envelope_for}
use durable_agent_execution.Agent.Accepted.{IsOffered}
use durable_agent_execution.Json.{fits_int64}
use durable_agent_execution.Prelude.Int64.{max_int64}
use durable_agent_execution.Idempotency.Triple.{
  Triple, Triple-post, Triple-bind, left-Triple, Triple-pre, Triple-try, Ends,
}
use durable_agent_execution.Replay.Fold.{fold, apply, fold_from}
use durable_agent_execution.Replay.Redelivery.{fold_from_of_fold}
use durable_agent_execution.Agent.Loop.{
  publish_apply_print, publish_with_retry, envelope_for, publish_max_attempts,
  publish_initial_backoff,
}
use durable_agent_execution.Agent.Journal.{
  IsAppended, FoldsTo, IsFoldable, publish_loop-Triple, published-Triple,
}
use durable_agent_execution.Agent.{Surroundings, JournalConfig, Process, String, ℕ}
use durable_agent_execution.Replay.State.{Sdk, RunState, empty_state}
use durable_agent_execution.Events.{Envelope, Payload}
use durable_agent_execution.Prelude.{
  ◌≡◌, none, List, ◌⊎◌, ap, String, ok, ℕ, length, inl, ◌∙◌, ◌≤◌, inr, true, ◌-◌,
}
use durable_agent_execution.Idempotency.Process.{Process, left}

module _ {W : Type 0} (log : W → List Envelope) (sdk : Sdk) (sur : Surroundings W)
    (c : IsAppended log sur) (journal : JournalConfig) where
  IsHalfway→IsFoldable :
      (s : RunState) (e : Envelope) (w : W)
      → FoldsTo log sdk s w ⊎ FoldsTo log sdk (apply sdk s e).0 w
      → IsFoldable log sdk w
  IsHalfway→IsFoldable s e w (inl before) = (s, before)
  IsHalfway→IsFoldable s e w (inr done) = ((apply sdk s e).0, done)

  same_log : (s : RunState) (w w' : W) → log w' ≡ log w → FoldsTo log sdk s w → FoldsTo log sdk s w'
  same_log s w w' same h = ap (fold_from sdk empty_state) same ∙ h

  quiet_Triple :
      {A : Type 0} (s : RunState) (m : Process W A)
      → ((w : W) → log (left (m w)) ≡ log w)
      → Triple (FoldsTo log sdk s) m (λ _. FoldsTo log sdk s) (IsFoldable log sdk)
  quiet_Triple s m h =
      Triple-post m (λ a w f. f) (λ w f. (s, f)) (left-Triple m (λ w. same_log s w _ (h w)))

  pub publish_apply_print-Triple :
      (s : RunState) (p : Payload)
      → ((id : String) (now : ℕ) → (apply sdk s (envelope_for journal s p id now)).1 ≡ none)
      → Triple
          (FoldsTo log sdk s)
          (publish_apply_print sur sdk journal s p)
          (FoldsTo log sdk)
          (IsFoldable log sdk)
  unfolding publish_apply_print publish_with_retry
  publish_apply_print-Triple s p takes =
      Triple-bind _ _ (quiet_Triple s sur.now c.now_keeps) (λ now.
        Triple-bind _ _ (quiet_Triple s sur.new_uuid c.uuid_keeps) (λ id.
          let e = envelope_for journal s p id now in
          Triple-bind _ _
            (Triple-pre (λ w f. inl f)
              (Triple-post _ (λ x w f. f) (IsHalfway→IsFoldable s e)
                (Triple-try _ (
                  publish_loop-Triple log sdk sur c s e (takes id now) journal
                    (publish_max_attempts - 1) publish_initial_backoff))))
            (published-Triple log sdk sur c s e (takes id now) journal)))

  -- While the loop journals a payload that it offers, by however many attempts, the log folds whatever
  -- happens: if the step returns a state, then the log folds to this state, and if publishing fails for
  -- good or the worker dies, with the event in the log, once or more often, or not, then the log still
  -- folds. It is assumed that only this worker appends to the log of the run, that the log folds to the
  -- state before and is shorter than 2 ^ 63, and what makes Apply take the event.
  pub publish_apply_print-FoldsTo :
      (s : RunState) (p : Payload) (w : W)
      → fold sdk (log w) ≡ ok s
      → length (log w) ≤ max_int64
      → journal.run_id ≡ s.run_id
      → fits_int64 s.current_step ≡ true
      → IsOffered sdk journal s p
      → Ends (FoldsTo log sdk) (IsFoldable log sdk) (publish_apply_print sur sdk journal s p w)
  publish_apply_print-FoldsTo s p w folded room same fits offer =
      (publish_apply_print-Triple s p (λ id now.
          apply-envelope_for sdk journal (log w) s p id now folded room same fits offer)).run
        w (fold_from_of_fold sdk (log w) s folded)
