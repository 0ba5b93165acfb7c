-- ===== src/Idempotency/Guard.antt =====
-- internal/idempotency/guard.go: one pass through the decision table, and Run.
use durable_agent_execution.Replay.State.{ToolCall}
use durable_agent_execution.Json.{RawMessage}
use durable_agent_execution.Idempotency.Claims.{
  Run, take_over, consult, key_may_have_expired, is_claimed, new_record, describes, is_resolved,
  wait_until_settled, GuardConfig, max_claim_races,
}
use durable_agent_execution.Prelude.{
  ℕ, zero, suc, String, Bool, true, false, ◌&&◌, none, some, if◌then◌else◌, ite, str_dec, Result,
  ok, err, Option,
}
use durable_agent_execution.Errors.{
  Error, fence_unavailable, record_mismatch, unresolvable, outcome_unknown, restart, message,
}
use durable_agent_execution.Events.Codec.{truncate_us}
use durable_agent_execution.Tools.{
  Executed, outcome_unknown_error, failure, Invocation, ReconcileResult, Tool,
}
use durable_agent_execution.Idempotency.Process.{Process, pure, raise, try, ◌>>=◌, ◌>>◌}
use durable_agent_execution.Idempotency.Record.{
  resolved, IdemRecord, Resolution, executed, cached, reconciled, reexecuted, resolution_name,
  Outcome, after_claim, after_execute, after_resolve,
}
use durable_agent_execution.Idempotency.Retry.{Runtime, retry}
use durable_agent_execution.Idempotency.Store.{Store}
use Prim.Native.String.{◌++◌ as append}

module _ {W : Type 0} (rt : Runtime W) (store : Store W) (r : Run W) where
  -- row 5
  unfoldable pub cache_hit : IdemRecord → Process W Outcome
  cache_hit rec = elim rec.result [
    | none ↦ raise record_mismatch
    | some result ↦ elim rec.status [
      | none ↦ raise record_mismatch
      | some status ↦ pure (record { result = result; status = status; resolution = cached })
    ]
  ]

  -- The outcome is recorded under the claim that is held. A failure to record it is not returned.
  unfoldable pub resolve : IdemRecord → String → String → Resolution → Process W Outcome
  resolve held result status res = do
    now ← rt.now
    try (
        retry rt (
          store.resolve r.key held.claim_token (record held {
            state = resolved;
            resolved_at = some (truncate_us now);
            result = some result;
            status = some status;
            resolution = some (resolution_name res);
          })))
    rt.crash_at r.tc.tool_name after_resolve
    pure (record { result = result; status = status; resolution = res })

  -- The second half of execute, from the result and the error of the tool.
  unfoldable pub settle : IdemRecord → Resolution → Executed → Process W Outcome
  settle held res x = elim x.error [
    | none ↦ (rt.crash_at r.tc.tool_name after_execute >> resolve held x.result "success" res)
    | some outcome_unknown_error ↦ raise outcome_unknown
    | some (failure text) ↦
        if x.ctx_done
        then raise outcome_unknown
        else (rt.crash_at r.tc.tool_name after_execute
            >> resolve held (append "error: " text) "error" res)
  ]

  -- The tool runs, under a claim that is held.
  unfoldable pub execute : IdemRecord → Resolution → Process W Outcome
  execute held res = do
    rt.crash_at r.tc.tool_name after_claim
    x ← r.tool.execute r.inv r.tc.tool_args
    settle held res x

  -- The claim under which the outcome will be written.
  unfoldable pub held_claim : IdemRecord → Bool → Process W IdemRecord
  held_claim held true = take_over rt store r held
  held_claim held false = pure held

  -- rows 2 and 7 to 9, for a tool that is a Reconciler
  unfoldable pub reconcile_by :
      (Invocation → RawMessage → Process W ReconcileResult) → IdemRecord → Bool → Process W Outcome
  reconcile_by ask held taking_over = do
    answer ← consult rt (ask r.inv r.tc.tool_args)
    mine ← held_claim held taking_over
    if answer.applied
        then resolve mine answer.result "success" reconciled
        else execute mine reexecuted

  unfoldable pub reconcile : IdemRecord → Bool → Process W Outcome
  reconcile held taking_over = elim r.tool.reconcile [
    | none ↦ raise unresolvable
    | some ask ↦ reconcile_by ask held taking_over
  ]

  -- rows 1 and 2
  unfoldable pub acquired : IdemRecord → Process W Outcome
  acquired mine = do
    now ← rt.now
    if key_may_have_expired r now then reconcile mine false else execute mine executed

  -- rows 3 to 6
  unfoldable pub existing : ℕ → IdemRecord → IdemRecord → Process W Outcome
  existing fuel mine ex =
      if is_claimed ex.state && ite (str_dec ex.claim_token mine.claim_token) true false
      then acquired mine
      else if describes r ex
      then (if is_resolved ex.state then cache_hit ex else do
        settled ← wait_until_settled rt store r fuel ex
        if is_resolved settled.state then cache_hit settled else reconcile settled true)
      else raise record_mismatch

  -- One pass through the decision table.
  unfoldable pub attempt : ℕ → Process W Outcome
  attempt fuel = do
    mine ← new_record rt r
    res ← consult rt (store.claim r.key mine)
    if res.acquired
        then acquired mine
        else elim res.existing [ none ↦ raise fence_unavailable | some ex ↦ existing fuel mine ex ]

  -- The races of Run: only a restart goes round again.
  unfoldable pub after_race : Process W Outcome → Result Error Outcome → Process W Outcome
  after_race again (ok out) = pure out
  after_race again (err restart) = again
  after_race again (err e) = raise e

  unfoldable pub race : ℕ → ℕ → Process W Outcome
  race fuel zero = raise fence_unavailable
  race fuel (suc races) = try (attempt fuel) >>= after_race (race fuel races)

module _ {W : Type 0} (rt : Runtime W) (store : Store W)
    (args_hash : String → RawMessage → Result Error String) where
  unfoldable pub run_hashed :
      GuardConfig
      → Invocation
      → ToolCall
      → Tool W
      → ℕ
      → String
      → Result Error String
      → Process W Outcome
  run_hashed cfg inv tc tool fuel key (err e) = raise e
  run_hashed cfg inv tc tool fuel key (ok hash) =
      race rt store
        (record { cfg = cfg; inv = inv; tc = tc; tool = tool; key = key; args_hash = hash }) fuel
        max_claim_races

  unfoldable pub run_keyed :
      GuardConfig → Invocation → ToolCall → Tool W → ℕ → Option String → Process W Outcome
  run_keyed cfg inv tc tool fuel none =
      raise (message "guard run: invocation has no idempotency key")
  run_keyed cfg inv tc tool fuel (some key) =
      run_hashed cfg inv tc tool fuel key (args_hash tc.tool_name tc.tool_args)

  -- Guard.Run, with the hash of the arguments as a parameter.
  unfoldable pub run : GuardConfig → Invocation → ToolCall → Tool W → ℕ → Process W Outcome
  run cfg inv tc tool fuel = run_keyed cfg inv tc tool fuel inv.idempotency_key
