-- ===== src/Idempotency/Rows.antt =====
-- The rows of the decision table in internal/idempotency/guard.go, by what the key accounts for.
use durable_agent_execution.Errors.{unresolvable, record_mismatch}
use durable_agent_execution.Json.{RawMessage}
use durable_agent_execution.Tools.{ReconcileResult, Invocation}
use durable_agent_execution.Idempotency.Record.{
  IdemRecord, Resolution, after_claim, executed, reconciled, reexecuted,
}
use durable_agent_execution.Idempotency.Quiet.{
  IsQuiet, ctx_done-IsQuiet, cache_hit-IsQuiet, crash_at-IsQuiet, sleep-IsQuiet, held_claim-IsQuiet,
  resolve-IsQuiet, settle-IsQuiet, wait_until_settled-IsQuiet,
}
use durable_agent_execution.Idempotency.Triple.{
  Triple, Ends, Triple-bind, Triple-post, consult-Triple, Triple-raise, left-Triple, Triple-option,
  Triple-if, Triple-pre,
}
use durable_agent_execution.Idempotency.Store.{Store}
use durable_agent_execution.Idempotency.Retry.{Runtime}
use durable_agent_execution.Idempotency.Contract.{
  View, Contract, IsFenced, Later→Written, IsOwn, IsClean, IsKept, Effected, IsHeld, Written,
  NowSpec, IsKept-Written, AnswerSpec, IsOld, IsOwn-Written, IsClean-Written, IsTimed-left,
  IsHeld-left,
}
use durable_agent_execution.Prelude.{
  ◌≡◌, some, inl, ℕ, arith, false, Bool, ◌∙◌, inr, and-same, true,
}
use durable_agent_execution.Idempotency.Process.{Ran, left, returned, raised, crashed, Process}
use durable_agent_execution.Idempotency.Claims.{
  Run, key_may_have_expired, is_claimed, describes, is_resolved, wait_until_settled,
}
use durable_agent_execution.Idempotency.Guard.{
  execute, reconcile_by, reconcile, acquired, existing, cache_hit,
}

module _ {W : Type 0} (v : View W) (rt : Runtime W) (store : Store W) (r : Run W)
    (c : Contract v r rt store) where
  IsOwn→IsKept : (w : W) → IsOwn v r w → IsKept v r w
  IsOwn→IsKept w o = record { fenced = o.fenced; held = o.held }

  IsClean→IsKept : (w : W) → IsClean v r w → IsKept v r w
  IsClean→IsKept w k = record {
    fenced = record {
      at_most_once = omega (arith, k.none_yet);
      accounted = inl k.none_yet;
      timed = k.timed;
    };
    held = k.held;
  }

  IsKept→IsFenced : (w : W) → IsKept v r w → IsFenced v r w
  IsKept→IsFenced w k = k.fenced

  at_the_end :
      {A : Type 0} (m : Process W A)
      → IsQuiet (IsKept v r) m
      → Triple (IsKept v r) m (λ _. IsFenced v r) (IsFenced v r)
  at_the_end m q = Triple-post m (λ a w k. k.fenced) IsKept→IsFenced q

  -- One effect, under a held key on which there was none.
  IsKept-Effected : {w w' : W} → Effected v r w w' → IsClean v r w → IsKept v r w'
  IsKept-Effected {w} {w'} l k = record {
    fenced = record {
      at_most_once = omega (arith, l.at_most_one_more, k.none_yet);
      accounted = inr still_held;
      timed = IsTimed-left v r w w' l.clock_grows l.same_record k.timed;
    };
    held = still_held;
  }
    where
      still_held : IsHeld v r w'
      still_held = IsHeld-left v r w w' l.clock_grows l.same_record k.timed k.held

  execute-Triple :
      (held : IdemRecord) (res : Resolution)
      → Triple (IsClean v r) (execute rt store r held res) (λ _. IsFenced v r) (IsFenced v r)
  unfolding execute
  execute-Triple held res =
      Triple-bind _ _
        (Triple-post _ (λ _ w k. k) (λ w k. IsKept→IsFenced w (IsClean→IsKept w k))
          (crash_at-IsQuiet v rt store r c (λ w w'. IsClean-Written v r) r.tc.tool_name
            after_claim))
        (λ _. Triple-bind _ _ (Triple-post _ (λ _ w k. k) IsKept→IsFenced effect) (λ x.
          at_the_end _ (settle-IsQuiet v rt store r c (λ w w'. IsKept-Written v r) held res x)))
    where
      effect :
          Triple (IsClean v r) (r.tool.execute r.inv r.tc.tool_args) (λ _. IsKept v r) (IsKept v r)
      effect = left-Triple _ (λ w. IsKept-Effected (c.execute_effected w))

  IsAnswered : ReconcileResult → W → Type 0
  IsAnswered a w = IsKept v r w × (a.applied ≡ false → v.effects w ≡ 0)

  IsAnswered-Written :
      (a : ReconcileResult) (w w' : W) → Written v r w w' → IsAnswered a w → IsAnswered a w'
  unfolding IsAnswered
  IsAnswered-Written a w w' l k =
      (IsKept-Written v r l k.0, λ unapplied. l.same_effects ∙ k.1 unapplied)

  ask-Triple :
      (ask : Invocation → RawMessage → Process W ReconcileResult)
      → r.tool.reconcile ≡ some ask
      → Triple (IsKept v r) (ask r.inv r.tc.tool_args) IsAnswered (IsKept v r)
  unfolding IsAnswered
  ask-Triple ask has = record {
    run = λ w k.
        go (ask r.inv r.tc.tool_args w) (c.ask_truthful ask has w)
          (IsKept-Written v r (Later→Written v r (c.ask_later ask has w)) k);
  }
    where
      go :
          (x : Ran W ReconcileResult)
          → AnswerSpec v r x
          → IsKept v r (left x)
          → Ends IsAnswered (IsKept v r) x
      go (returned a w) truth k = (k, truth)
      go (raised e w) truth k = k
      go (crashed w) truth k = k

  reconcile_by-Triple :
      (ask : Invocation → RawMessage → Process W ReconcileResult)
      → r.tool.reconcile ≡ some ask
      → (held : IdemRecord) (taking_over : Bool)
      → Triple
          (IsKept v r)
          (reconcile_by rt store r ask held taking_over)
          (λ _. IsFenced v r)
          (IsFenced v r)
  unfolding reconcile_by IsAnswered
  reconcile_by-Triple ask has held taking_over =
      Triple-bind _ _
        (Triple-post _ (λ _ w k. k) IsKept→IsFenced
          (consult-Triple rt (IsKept v r)
            (ctx_done-IsQuiet v rt store r c (λ w w'. IsKept-Written v r))
            (sleep-IsQuiet v rt store r c (λ w w'. IsKept-Written v r)) _ (ask-Triple ask has)))
        (λ answer.
          Triple-bind _ _
            (Triple-post _ (λ _ w k. k) (λ w k. IsKept→IsFenced w k.0)
              (held_claim-IsQuiet v rt store r c (IsAnswered-Written answer) held taking_over))
            (λ mine.
              Triple-if answer.applied _ _
                (λ _.
                  Triple-pre (λ w k. k.0)
                    (at_the_end _ (
                      resolve-IsQuiet v rt store r c (λ w w'. IsKept-Written v r) mine answer.result
                        "success" reconciled)))
                (λ unapplied.
                  Triple-pre
                    (λ w k. record {
                      held = k.0.held;
                      none_yet = k.1 unapplied;
                      timed = k.0.fenced.timed;
                    })
                    (execute-Triple mine reexecuted))))

  reconcile-Triple :
      (held : IdemRecord) (taking_over : Bool)
      → Triple
          (IsKept v r)
          (reconcile rt store r held taking_over)
          (λ _. IsFenced v r)
          (IsFenced v r)
  unfolding reconcile
  reconcile-Triple held taking_over =
      Triple-option r.tool.reconcile (λ _. Triple-raise unresolvable IsKept→IsFenced)
        (λ ask has. reconcile_by-Triple ask has held taking_over)

  is_recent :
      (now : ℕ) (w : W) → now ≡ v.clock w → key_may_have_expired r now ≡ false → ¬ IsOld v r w
  unfolding key_may_have_expired
  is_recent now w read recent old = ground (arith, recent)

  pub acquired-Triple :
      (mine : IdemRecord)
      → Triple (IsOwn v r) (acquired rt store r mine) (λ _. IsFenced v r) (IsFenced v r)
  unfolding acquired
  acquired-Triple mine = Triple-bind _ _ clock_read (λ now.
      Triple-if (key_may_have_expired r now) _ _
        (λ _. Triple-pre (λ w k. IsOwn→IsKept w k.0) (reconcile-Triple mine false))
        (λ recent. Triple-pre (clean_now now recent) (execute-Triple mine executed)))
    where
      clock_read :
          Triple (IsOwn v r) rt.now (λ now w. IsOwn v r w × (now ≡ v.clock w)) (IsFenced v r)
      clock_read = record {
        run = λ w o.
            go (rt.now w) (c.now_reads w) (IsOwn-Written v r (Later→Written v r (c.now_later w)) o);
      }
        where
          go :
              (x : Ran W ℕ)
              → NowSpec v r x
              → IsOwn v r (left x)
              → Ends (λ now w. IsOwn v r w × (now ≡ v.clock w)) (IsFenced v r) x
          go (returned now w) read o = (o, read)
          go (raised e w) read o = o.fenced
          go (crashed w) read o = o.fenced

      clean_now :
          (now : ℕ)
          → key_may_have_expired r now ≡ false
          → (w : W) → IsOwn v r w × (now ≡ v.clock w)
          → IsClean v r w
      clean_now now recent w k = record {
        held = k.0.held;
        none_yet = elim k.0.clean [
          | inl zero_yet ↦ zero_yet
          | inr old ↦ absurd (is_recent now w k.1 recent old)
        ];
        timed = k.0.fenced.timed;
      }

  pub existing-Triple :
      (fuel : ℕ) (mine ex : IdemRecord)
      → Triple
          (λ w. IsKept v r w × (ex.claim_token ≡ mine.claim_token → IsOwn v r w))
          (existing rt store r fuel mine ex)
          (λ _. IsFenced v r)
          (IsFenced v r)
  unfolding existing
  existing-Triple fuel mine ex =
      Triple-if _ _ _
        (λ ours.
          Triple-pre (λ w k. k.1 (and-same (is_claimed ex.state) ours)) (acquired-Triple mine))
        (λ _.
          Triple-pre (λ w k. k.0)
            (Triple-if (describes r ex) _ _
              (λ _.
                Triple-if (is_resolved ex.state) _ _ (λ _. hit ex)
                  (λ _.
                    Triple-bind (wait_until_settled rt store r fuel ex) _
                      (Triple-post _ (λ _ w k. k) IsKept→IsFenced
                        (wait_until_settled-IsQuiet v rt store r c (λ w w'. IsKept-Written v r) fuel
                          ex))
                      (λ settled.
                        Triple-if (is_resolved settled.state) _ _ (λ _. hit settled)
                          (λ _. reconcile-Triple settled true))))
              (λ _. Triple-raise record_mismatch IsKept→IsFenced)))
    where
      hit :
          (rec : IdemRecord)
          → Triple (IsKept v r) (cache_hit rt store r rec) (λ _. IsFenced v r) (IsFenced v r)
      hit rec = at_the_end _ (cache_hit-IsQuiet v rt store r c (λ w w'. IsKept-Written v r) rec)
