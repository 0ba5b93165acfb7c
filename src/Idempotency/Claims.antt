-- ===== src/Idempotency/Claims.antt =====
-- internal/idempotency/guard.go: the inputs of a call, its checks of a record, and how it waits for
-- and takes over the claim of another. The lines that the Guard prints are left out.
use durable_agent_execution.Prelude.Int64.{ℤ, pos, add_int, negsuc}
use durable_agent_execution.Prelude.{
  ℕ, zero, suc, ◌+◌, String, Bool, true, false, ◌&&◌, none, some, leb, if◌then◌else◌, ite, str_dec,
  Result, ok, err, ◌||◌,
}
use durable_agent_execution.Errors.{
  Error, claim_lost, corrupt_record, fence_unavailable, record_mismatch, restart, message,
}
use durable_agent_execution.Events.Codec.{truncate_us}
use durable_agent_execution.Replay.State.{ToolCall}
use durable_agent_execution.Tools.{Invocation, Tool}
use durable_agent_execution.Idempotency.Process.{Process, pure, raise, try, ◌>>=◌}
use durable_agent_execution.Idempotency.Record.{claimed, resolved, IdemRecord, RecordState}
use durable_agent_execution.Idempotency.Retry.{Runtime, retry}
use durable_agent_execution.Idempotency.Store.{Store}

-- In nanoseconds.
pub record GuardConfig : Type 0 where
  pub tool_timeout : ℕ
  pub stale_grace : ℕ
  pub ttl : ℕ
  pub claimed_by : String

abbrev pub poll_interval : ℕ
poll_interval = 1000000000

abbrev pub max_claim_races : ℕ
max_claim_races = 3

abbrev pub expiry_margin : ℕ
expiry_margin = 60000000000

abbrev pub is_claimed : RecordState → Bool
is_claimed claimed = true
is_claimed _ = false

abbrev pub is_resolved : RecordState → Bool
is_resolved resolved = true
is_resolved _ = false

-- storeErr
unfoldable pub store_err : Error → Error
store_err restart = restart
store_err corrupt_record = record_mismatch
store_err _ = fence_unavailable

-- The inputs of one Guard.Run call (`run` in the source).
pub record Run (W : Type 0) : Type 0 where
  pub cfg : GuardConfig
  pub inv : Invocation
  pub tc : ToolCall
  pub tool : Tool W
  pub key : String
  pub args_hash : String

-- now - then >= d, for two times in nanoseconds.
unfoldable pub is_past : ℕ → ℕ → ℤ → Bool
is_past earlier now (pos d) = leb (earlier + d) now
is_past earlier now (negsuc d) = leb earlier (now + d + 1)

module _ {W : Type 0} (r : Run W) where
  -- A sum of two durations, which wraps like every int64.
  abbrev pub stale_after : ℤ
  stale_after = add_int (pos r.cfg.tool_timeout) (pos r.cfg.stale_grace)

  -- now - claimed_at >= tool_timeout + stale_grace
  unfoldable pub is_stale : ℕ → IdemRecord → Bool
  unfolding is_past
  is_stale now rec = is_past rec.claimed_at now stale_after

  -- now - invoked_at >= ttl - expiry_margin
  unfoldable pub key_may_have_expired : ℕ → Bool
  key_may_have_expired now = leb (r.tc.invoked_at + r.cfg.ttl) (now + expiry_margin)

  -- verify: row 4
  unfoldable pub describes : IdemRecord → Bool
  describes rec =
      (is_claimed rec.state || is_resolved rec.state)
      && ite (str_dec rec.run_id r.inv.run_id) true false
      && ite (str_dec rec.tool_use_id r.inv.tool_use_id) true false
      && ite (str_dec rec.tool_name r.tc.tool_name) true false
      && ite (str_dec rec.args_hash r.args_hash) true false

module _ {W : Type 0} (rt : Runtime W) where
  -- A call of the store or the tool, retried, with its error mapped for Run's caller.
  unfoldable pub mapped : {A : Type 0} → Result Error A → Process W A
  mapped (ok a) = pure a
  mapped (err e) = raise (store_err e)

  unfoldable pub consult : {A : Type 0} → Process W A → Process W A
  consult op = try (retry rt op) >>= mapped

module _ {W : Type 0} (rt : Runtime W) (r : Run W) where
  unfoldable pub new_record : Process W IdemRecord
  new_record = do
    token ← rt.new_uuid
    now ← rt.now
    pure (record {
      state = claimed;
      run_id = r.inv.run_id;
      step = r.inv.step;
      tool_use_id = r.inv.tool_use_id;
      tool_name = r.tc.tool_name;
      args_hash = r.args_hash;
      claim_token = token;
      claimed_by = r.cfg.claimed_by;
      claimed_at = truncate_us now;
      resolved_at = none;
      result = none;
      status = none;
      resolution = none;
    })

module _ {W : Type 0} (rt : Runtime W) (store : Store W) (r : Run W) where
  -- After a lost compare-and-set: the key may carry our own token all the same.
  unfoldable pub recheck_own_take_over : IdemRecord → Process W IdemRecord
  recheck_own_take_over mine = do
    cur ← consult rt (store.get_record r.key)
    elim cur [
      | none ↦ raise restart
      | some rec ↦
          if is_claimed rec.state && ite (str_dec rec.claim_token mine.claim_token) true false
          then pure mine
          else raise restart
    ]

  unfoldable pub after_take_over : IdemRecord → Result Error Unit → Process W IdemRecord
  after_take_over mine (ok t) = pure mine
  after_take_over mine (err claim_lost) = recheck_own_take_over mine
  after_take_over mine (err e) = raise (store_err e)

  unfoldable pub take_over : IdemRecord → Process W IdemRecord
  take_over stale = do
    mine ← new_record rt r
    t ← try (retry rt (store.take_over r.key stale.claim_token mine))
    after_take_over mine t

  -- row 6: a claim of another is respected until it is resolved or stale.
  unfoldable pub wait_until_settled : ℕ → IdemRecord → Process W IdemRecord
  wait_until_settled zero cur = raise (message "out of fuel")
  wait_until_settled (suc fuel) cur = do
    now ← rt.now
    if is_stale r now cur then pure cur else do
      slept ← try (rt.sleep poll_interval)
      elim slept [
        | err e ↦ raise fence_unavailable
        | ok t ↦ do
          next ← consult rt (store.get_record r.key)
          elim next [
            | none ↦ raise restart
            | some rec ↦
                if describes r rec
                then (if is_resolved rec.state then pure rec else wait_until_settled fuel rec)
                else raise record_mismatch
          ]
      ]
