-- ===== src/Tools/Fenced.antt =====
-- open_pr (internal/tools/mock_open_pr.go) under the Guard (internal/idempotency/guard.go): the ledger
-- is what the Guard's contract calls the effects of a tool.
use Prim.Native.Nat.{◌/◌}
use durable_agent_execution.Idempotency.Redis.{Client, redis_store}
use durable_agent_execution.Idempotency.Redis.Refines.{
  redis_view, Keeps, stored-Keeps, IsRedis, redis_claim-ClaimSpec, redis_get-Later,
  compare_and_set-Written,
}
use durable_agent_execution.Prelude.{
  ℕ, suc, ◌≡◌, refl, String, Option, some, ok, err, Result, inl, inr, ◌⊎◌, ◌≤◌, List, true, ◌∙◌,
  subst, arith, All, ◌∷◌, [], some-injective, ◌*◌,
}
use durable_agent_execution.Json.{RawMessage, fits_int64, Bytes}
use durable_agent_execution.Errors.{Error}
use durable_agent_execution.Replay.State.{ToolCall}
use durable_agent_execution.Idempotency.Process.{Ran, returned, raised, crashed, left}
use durable_agent_execution.Idempotency.Triple.{Ends, left-end}
use durable_agent_execution.Idempotency.Claims.{Run, GuardConfig}
use durable_agent_execution.Idempotency.Retry.{Runtime}
use durable_agent_execution.Idempotency.Record.{CrashPoint}
use durable_agent_execution.Idempotency.Contract.{
  IsTimed, View, Later, NowSpec, UuidSpec, AnswerSpec, Effected, Contract,
}
use durable_agent_execution.Idempotency.AtMostOnce.{workers, workers-effects}
use durable_agent_execution.Tools.{outcome_unknown_error, failure, Invocation, ReconcileResult}
use durable_agent_execution.Tools.Host.{Host}
use durable_agent_execution.Tools.Ledger.{entry_key}
use durable_agent_execution.Tools.Mocks.{
  Answer, open_pr_tool, open_pr_execute, open_pr_reconcile, observed,
}
use durable_agent_execution.Tools.Written.{File, IsAppending}
use durable_agent_execution.Tools.Effects.{effects_in}
use durable_agent_execution.Tools.Recorded.{Counted, Unclear}
use durable_agent_execution.Tools.Executing.{
  Ruled, Answered, open_pr_execute-Triple, open_pr_reconcile-Triple, observed-Triple,
}

-- What an Execute says of its effect, as tool.go asks for it: a result means one entry more under the
-- key, ErrOutcomeUnknown or the death of the process one more or none, any other error none.
abbrev pub TellsTruth : {W : Type 0} → (W → ℕ) → W → Ran W Answer → Type 0
TellsTruth effects w (returned (ok result) w') = effects w' ≡ suc (effects w)
TellsTruth effects w (returned (err outcome_unknown_error) w') =
    (effects w' ≡ effects w) ⊎ (effects w' ≡ suc (effects w))
TellsTruth effects w (returned (err (failure t)) w') = effects w' ≡ effects w
TellsTruth effects w (raised e w') = (effects w' ≡ effects w) ⊎ (effects w' ≡ suc (effects w))
TellsTruth effects w (crashed w') = (effects w' ≡ effects w) ⊎ (effects w' ≡ suc (effects w))

module _ {W : Type 0} (file : W → File) (Passed : W → W → Type 0) (host : Host W)
    (c : IsAppending file Passed host) (inv : Invocation) (raw : RawMessage) where
  truth :
      (w : W) (x : Ran W Answer)
      → Ends
          (Ruled file Passed host c
            (entry_key inv)
            w
            (effects_in host.text (entry_key inv) (file w)))
          (Unclear file Passed host c
            (entry_key inv)
            w
            (effects_in host.text (entry_key inv) (file w)))
          x
      → TellsTruth (λ u. effects_in host.text (entry_key inv) (file u)) w x
  truth w (returned (ok result) w') h = h.entries
  truth w (returned (err outcome_unknown_error) w') (inl h) = inl h.entries
  truth w (returned (err outcome_unknown_error) w') (inr h) = inr h.entries
  truth w (returned (err (failure t)) w') h = h.entries
  truth w (raised e w') (inl h) = inl h.entries
  truth w (raised e w') (inr h) = inr h.entries
  truth w (crashed w') (inl h) = inl h.entries
  truth w (crashed w') (inr h) = inr h.entries

  -- Whatever happens in an Execute of open_pr, its answer tells the truth about the ledger: a result
  -- stands for exactly one new entry under the invocation's key, an error other than
  -- ErrOutcomeUnknown for none, and ErrOutcomeUnknown or a death for one or none. The process id is an
  -- int64, and files that are opened to append are as IsAppending says.
  pub open_pr_execute-TellsTruth :
      (w : W)
      → fits_int64 host.pid ≡ true
      → TellsTruth
          (λ u. effects_in host.text (entry_key inv) (file u))
          w
          (open_pr_execute host inv raw w)
  open_pr_execute-TellsTruth w pid = truth w _ (
      (open_pr_execute-Triple file Passed host c (entry_key inv) w pid inv refl
          (effects_in host.text (entry_key inv) (file w)) raw).run
        w (record { entries = refl; passed = c.passed_refl w }))

module _ {W : Type 0} (file : W → File) (clock deadline : W → ℕ) (value : W → Option Bytes)
    (host : Host W) (cfg : GuardConfig) (inv : Invocation) (tc : ToolCall)
    (k args_hash : String) where
  -- A call of open_pr.
  abbrev pub open_pr_run : Run W
  open_pr_run = record {
    cfg = cfg;
    inv = inv;
    tc = tc;
    tool = open_pr_tool host;
    key = k;
    args_hash = args_hash;
  }

  abbrev pub entries_in : W → ℕ
  entries_in w = effects_in host.text k (file w)

  -- The effects are the entries of the ledger under the key, and the store is Redis.
  abbrev pub ledger_view : View W
  ledger_view = redis_view host.text clock entries_in deadline value open_pr_run

  -- What the operations of the host do to the clock and to Redis.
  abbrev pub Elapsed : W → W → Type 0
  Elapsed w w' =
      (clock w ≤ clock w') × Keeps host.text clock entries_in deadline value open_pr_run w w'

  -- A worker's clock, sleep, context, fresh uuids and crash hook.
  pub record IsRunning (rt : Runtime W) : Type 0 where
    pub now_later : (w : W) → Later ledger_view open_pr_run w (left (rt.now w))
    pub now_reads : (w : W) → NowSpec ledger_view open_pr_run (rt.now w)
    pub sleep_later : (d : ℕ) (w : W) → Later ledger_view open_pr_run w (left (rt.sleep d w))
    pub ctx_later : (w : W) → Later ledger_view open_pr_run w (left (rt.ctx_done w))
    pub uuid_later : (w : W) → Later ledger_view open_pr_run w (left (rt.new_uuid w))
    pub uuid_fresh : (w : W) → UuidSpec ledger_view open_pr_run (rt.new_uuid w)
    pub crash_later :
        (tool : String) (p : CrashPoint) (w : W)
        → Later ledger_view open_pr_run w (left (rt.crash_at tool p w))

  module _ (c : IsAppending file Elapsed host) (pid : fits_int64 host.pid ≡ true)
      (has_key : inv.idempotency_key ≡ some k) where
    entry_key-some : entry_key inv ≡ k
    unfolding entry_key
    entry_key-some = ground (arith, has_key)

    abbrev CountedAs : W → ℕ → W → Type 0
    CountedAs w n w' = Counted file Elapsed host c k w n w'

    abbrev before_count : W → ℕ
    before_count w = effects_in host.text k (file w)

    at_start : (w : W) → CountedAs w (before_count w) w
    at_start w = record { entries = refl; passed = c.passed_refl w }

    calm : (w w' : W) → CountedAs w (before_count w) w' → Later ledger_view open_pr_run w w'
    calm w w' h = record {
      clock_grows = h.passed.0;
      same_effects = h.entries;
      same_record =
          stored-Keeps host.text clock entries_in deadline value open_pr_run w w' h.passed.1;
    }

    effect_bound :
        (w w' : W)
        → Unclear file Elapsed host c k w (before_count w) w'
        → Effected ledger_view open_pr_run w w'
    effect_bound w w' (inl h) = record {
      clock_grows = h.passed.0;
      at_most_one_more = omega (arith, h.entries);
      same_record =
          stored-Keeps host.text clock entries_in deadline value open_pr_run w w' h.passed.1;
    }
    effect_bound w w' (inr h) = record {
      clock_grows = h.passed.0;
      at_most_one_more = omega (arith, h.entries);
      same_record =
          stored-Keeps host.text clock entries_in deadline value open_pr_run w w' h.passed.1;
    }

    reconciling :
        (w : W)
        → Ends
            (Answered file Elapsed host c k w (before_count w))
            (CountedAs w (before_count w))
            (open_pr_reconcile host inv tc.tool_args w)
    reconciling w =
        (open_pr_reconcile-Triple file Elapsed host c k w (before_count w) inv tc.tool_args
            has_key).run
          w (at_start w)

    reconcile-Later :
        (w : W) (x : Ran W ReconcileResult)
        → Ends (Answered file Elapsed host c k w (before_count w)) (CountedAs w (before_count w)) x
        → Later ledger_view open_pr_run w (left x)
    reconcile-Later w (returned a w') h = calm w w' h.0
    reconcile-Later w (raised e w') h = calm w w' h
    reconcile-Later w (crashed w') h = calm w w' h

    reconcile-AnswerSpec :
        (w : W) (x : Ran W ReconcileResult)
        → Ends (Answered file Elapsed host c k w (before_count w)) (CountedAs w (before_count w)) x
        → AnswerSpec ledger_view open_pr_run x
    reconcile-AnswerSpec w (returned a w') h = λ no_effect. h.0.entries ∙ h.1 no_effect
    reconcile-AnswerSpec w (raised e w') h = tt
    reconcile-AnswerSpec w (crashed w') h = tt

    execute-Effected :
        (w : W)
        → Effected ledger_view open_pr_run w
            (left (observed host (open_pr_execute host inv tc.tool_args) w))
    execute-Effected w = effect_bound w _ (
        left-end (Unclear file Elapsed host c k w (before_count w))
          (observed host (open_pr_execute host inv tc.tool_args) w)
          ((observed-Triple file Elapsed host c k w (before_count w) _ (
              open_pr_execute-Triple file Elapsed host c k w pid inv entry_key-some (before_count w)
                tc.tool_args)).run
            w (at_start w)))

    module _ (client : Client W) (ttl : ℕ)
        (redis : IsRedis host.text clock entries_in deadline value open_pr_run client)
        (covers : cfg.ttl ≤ ttl / 1000000000 * 1000000000) where
      -- RedisStore and open_pr meet what the Guard asks of its store and its tool.
      guard_meets :
          (rt : Runtime W)
          → IsRunning rt
          → Contract ledger_view open_pr_run rt (redis_store host.text client ttl)
      unfolding open_pr_tool redis_store
      guard_meets rt h = record {
        now_later = h.now_later;
        now_reads = h.now_reads;
        sleep_later = h.sleep_later;
        ctx_later = h.ctx_later;
        uuid_later = h.uuid_later;
        uuid_fresh = h.uuid_fresh;
        crash_later = h.crash_later;
        claim_spec =
            redis_claim-ClaimSpec host.text clock entries_in deadline value open_pr_run client ttl
              redis covers;
        get_later =
            redis_get-Later host.text clock entries_in deadline value open_pr_run client ttl redis
              covers;
        resolve_written =
            compare_and_set-Written host.text clock entries_in deadline value open_pr_run client ttl
              redis covers;
        take_over_written =
            compare_and_set-Written host.text clock entries_in deadline value open_pr_run client ttl
              redis covers;
        ask_later = λ ask is_ask w.
            subst (λ m. Later ledger_view open_pr_run w (left (m inv tc.tool_args w)))
              (some-injective is_ask) (reconcile-Later w _ (reconciling w));
        ask_truthful = λ ask is_ask w.
            subst (λ m. AnswerSpec ledger_view open_pr_run (m inv tc.tool_args w))
              (some-injective is_ask) (reconcile-AnswerSpec w _ (reconciling w));
        execute_effected = execute-Effected;
      }

      contracts :
          (rts : List (Runtime W))
          → All IsRunning rts
          → All (λ rt. Contract ledger_view open_pr_run rt (redis_store host.text client ttl)) rts
      contracts [] h = tt
      contracts (rt ∷ rts) h = (guard_meets rt h.0, contracts rts h.1)

      -- However often workers run one invocation of open_pr through the Guard with its RedisStore, one
      -- after another, and wherever each of them fails or dies: if the ledger has no entry under the
      -- key at first, then it has at most one at the end. The call was journaled before, a value that
      -- is under the key at first lives for the TTL since then, and the store's TTL, in whole seconds, is
      -- not shorter than the Guard's. Only the surroundings are assumed: files opened to append, an int64
      -- process id, Redis on this key, the clock, fresh tokens, and a hash for the arguments.
      pub open_pr-once :
          (hash : String → RawMessage → Result Error String)
          (has_hash : hash tc.tool_name tc.tool_args ≡ ok args_hash) (fuel : ℕ)
          (rts : List (Runtime W)) (w : W)
          → All IsRunning rts
          → IsTimed ledger_view open_pr_run w
          → entries_in w ≡ 0
          → entries_in (
              workers ledger_view open_pr_run hash has_key has_hash
                (redis_store host.text client ttl)
                fuel
                rts
                w)
            ≤ 1
      open_pr-once hash has_hash fuel rts w running timed none_yet =
          workers-effects ledger_view open_pr_run hash has_key has_hash
            (redis_store host.text client ttl) fuel rts w (contracts rts running) timed none_yet
