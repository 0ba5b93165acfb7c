-- ===== src/Agent/Journal.antt =====
-- publishApplyPrint of internal/agent/loop.go: the state in memory is the one that the journal folds to.
use durable_agent_execution.Errors.{Error, publish_failed}
use durable_agent_execution.Replay.Redelivery.{apply_known, seen-apply_self, fold_from-snoc}
use durable_agent_execution.Agent.Loop.{publish_loop, published, applied, is_crash_point}
use durable_agent_execution.Idempotency.Triple.{
  Triple, Ends, Triple-bind, Triple-try, Triple-raise, Triple-result, Triple-pure, left-Triple,
  Triple-if,
}
use durable_agent_execution.Replay.Fold.{fold_from, apply}
use durable_agent_execution.Replay.State.{Sdk, RunState, empty_state}
use durable_agent_execution.Agent.{Surroundings, ℕ, JournalConfig, Error}
use durable_agent_execution.Events.{Envelope}
use durable_agent_execution.Prelude.{
  ◌≡◌, none, [], ◌∷◌, List, ℕ, ◌++◌, ◌⊎◌, inl, subst, ok, ap, inr, ◌∙◌, sym, suc, Result, err, zero,
  if◌then◌else◌, arith,
}
use durable_agent_execution.Idempotency.Process.{
  Ran, returned, left, raised, crashed, try, exit, pure,
}

module _ {W : Type 0} (log : W → List Envelope) where
  -- An acknowledged event is the last one of the log; one without an answer may be there or not.
  abbrev pub PublishSpec : Envelope → W → Ran W (Unit {0}) → Type 0
  PublishSpec e w (returned done w') = log w' ≡ log w ++ e ∷ []
  PublishSpec e w (raised x w') = (log w' ≡ log w) ⊎ (log w' ≡ log w ++ e ∷ [])
  PublishSpec e w (crashed w') = (log w' ≡ log w) ⊎ (log w' ≡ log w ++ e ∷ [])

  -- Nobody else writes the run's log, and waiting, the clock and uuids do not.
  pub record IsAppended (sur : Surroundings W) : Type 0 where
    pub publish_spec : (e : Envelope) (w : W) → PublishSpec e w (sur.publish e w)
    pub wait_keeps : (d : ℕ) (w : W) → log (left (sur.wait d w)) ≡ log w
    pub now_keeps : (w : W) → log (left (sur.now w)) ≡ log w
    pub uuid_keeps : (w : W) → log (left (sur.new_uuid w)) ≡ log w

  module _ (sdk : Sdk) where
    -- The log of the run folds to the state; an empty log folds to RunState{}.
    abbrev pub FoldsTo : RunState → W → Type 0
    FoldsTo s w = fold_from sdk empty_state (log w) ≡ ok s

    abbrev pub IsFoldable : W → Type 0
    IsFoldable w = (s : RunState) × FoldsTo s w

    module _ (sur : Surroundings W) (c : IsAppended sur) (s : RunState) (e : Envelope)
        (takes : (apply sdk s e).1 ≡ none) where
      abbrev next : RunState
      next = (apply sdk s e).0

      -- The event may be in the log, once or more often.
      abbrev IsHalfway : W → Type 0
      IsHalfway w = FoldsTo s w ⊎ FoldsTo next w

      FoldsTo-published : (w w' : W) → log w' ≡ log w ++ e ∷ [] → IsHalfway w → FoldsTo next w'
      FoldsTo-published w w' grown (inl before) =
          ap (fold_from sdk empty_state) grown
          ∙ fold_from-snoc sdk empty_state s next (log w) e before (λ i. (next, takes i))
      FoldsTo-published w w' grown (inr after_it) =
          ap (fold_from sdk empty_state) grown
          ∙ fold_from-snoc sdk empty_state next next (log w) e after_it
              (apply_known sdk next e (seen-apply_self sdk s e takes))

      IsHalfway-same : (w w' : W) → log w' ≡ log w → IsHalfway w → IsHalfway w'
      IsHalfway-same w w' same h =
          subst
            (λ l. (fold_from sdk empty_state l ≡ ok s) ⊎ (fold_from sdk empty_state l ≡ ok next))
            (sym same) h

      publish-Triple : Triple IsHalfway (sur.publish e) (λ _. FoldsTo next) IsHalfway
      publish-Triple = record { run = λ w h. go w h (sur.publish e w) (c.publish_spec e w) }
        where
          unclear :
              (w w' : W)
              → (log w' ≡ log w) ⊎ (log w' ≡ log w ++ e ∷ [])
              → IsHalfway w
              → IsHalfway w'
          unclear w w' (inl same) h = IsHalfway-same w w' same h
          unclear w w' (inr grown) h = inr (FoldsTo-published w w' grown h)

          go :
              (w : W)
              → IsHalfway w
              → (x : Ran W (Unit {0})) → PublishSpec e w x
              → Ends (λ _. FoldsTo next) IsHalfway x
          go w h (returned done w') grown = FoldsTo-published w w' grown h
          go w h (raised x w') how = unclear w w' how h
          go w h (crashed w') how = unclear w w' how h

      pub publish_loop-Triple :
          (journal : JournalConfig) (more backoff : ℕ)
          → Triple IsHalfway
              (publish_loop sur sdk journal e more backoff)
              (λ _. FoldsTo next)
              IsHalfway
      unfolding publish_loop
      publish_loop-Triple journal zero backoff = publish-Triple
      publish_loop-Triple journal (suc more) backoff =
          Triple-bind (try (sur.publish e)) _ (Triple-try (sur.publish e) publish-Triple) (λ x.
            Triple-result x _ _ (λ u. Triple-pure tt (λ w f. f))
              (λ failure.
                Triple-bind (sur.wait backoff) _
                  (left-Triple (sur.wait backoff)
                    (λ w. IsHalfway-same w _ (c.wait_keeps backoff w)))
                  (λ _. publish_loop-Triple journal more _)))

      applied_lem :
          (journal : JournalConfig)
          → applied sur sdk journal s e
            ≡ (if is_crash_point journal e.sequence_number then exit else pure next)
      unfolding applied
      applied_lem journal = ground (arith, takes)

      pub published-Triple :
          (journal : JournalConfig) (x : Result Error Unit)
          → Triple
              (λ w. elim x as (λ _. Type 0) [ ok u ↦ FoldsTo next w | err y ↦ IsHalfway w ])
              (published sur sdk journal s e x)
              FoldsTo
              IsFoldable
      unfolding published exit
      published-Triple journal (err y) =
          Triple-raise publish_failed
            (λ w h. elim h [ inl before ↦ (s, before) | inr done ↦ (next, done) ])
      published-Triple journal (ok u) =
          subst (λ m. Triple (FoldsTo next) m FoldsTo IsFoldable) (sym (applied_lem journal))
            (Triple-if (is_crash_point journal e.sequence_number) _ _
              (λ _. record { run = λ w f. (next, f) }) (λ _. Triple-pure next (λ w f. f)))
