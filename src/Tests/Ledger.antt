-- ===== src/Tests/Ledger.antt =====
-- open_pr (internal/tools) on the machine in memory, through the Guard and RedisStore.
use durable_agent_execution.Idempotency.Process.{after, pure, returned}
use durable_agent_execution.Tools.Mocks.{open_pr_execute}
use durable_agent_execution.Idempotency.Redis.{
  redis_store, compare_and_set, cas_script, holds_claim, cas_verdict,
}
use durable_agent_execution.Tools.Ledger.{entry_key}
use durable_agent_execution.Idempotency.Redis.Values.{
  encode_record, state_name, state_of_name, record_wire, decode_record,
}
use durable_agent_execution.Json.{Bytes, doc, obj}
use durable_agent_execution.Prelude.Int64.{pos}
use durable_agent_execution.Tools.Effects.{effects_in}
use durable_agent_execution.Tests.Machine.{
  disk, call, args, requested, config, fresh_machine, Passes, view, target, disk-IsAppending, redis,
  redis-IsRedis, worker, worker-IsRunning, Machine,
}
use durable_agent_execution.Tests.Journal.{time_text}
use durable_agent_execution.Tools.Fenced.{
  open_pr_execute-TellsTruth, TellsTruth, open_pr-once, entries_in,
}
use durable_agent_execution.Idempotency.Redis.Resolved.{
  resolved-Stays, perform_all, gets, resolves, claims, decode_record-encode,
}
use durable_agent_execution.Prelude.{
  ◌≡◌, ◌≤◌, refl, ok, some, ◌∷◌, [], ◌⊎◌, true, str_dec, false, arith,
}
use durable_agent_execution.Idempotency.AtMostOnce.{workers}
use durable_agent_execution.Idempotency.Record.{resolved, IdemRecord, claimed}

open_pr_execute-TellsTruth_example :
    TellsTruth
      (λ m. effects_in time_text (entry_key call) m.file)
      fresh_machine
      (open_pr_execute disk call args fresh_machine)
open_pr_execute-TellsTruth_example =
    open_pr_execute-TellsTruth (λ m. m.file) Passes disk disk-IsAppending call args fresh_machine
      refl

-- The first worker dies after the pull request is opened, the second one finds it in the ledger.
open_pr-once_example :
    entries_in
      (λ m. m.file)
      (λ m. m.clock)
      (λ m. m.deadline)
      (λ m. m.value)
      disk
      config
      call
      requested
      "idem:r:1:t"
      "h"
      (workers view target
        (λ name raw. ok "h")
        refl
        refl
        (redis_store time_text redis 3600000000000)
        9
        (worker true ∷ worker false ∷ [])
        fresh_machine)
    ≤ 1
unfolding effects_in
open_pr-once_example =
    open_pr-once (λ m. m.file) (λ m. m.clock) (λ m. m.deadline) (λ m. m.value) disk config call
      requested "idem:r:1:t" "h" disk-IsAppending refl refl redis 3600000000000 redis-IsRedis
      (omega arith) (λ name raw. ok "h") refl 9 (worker true ∷ worker false ∷ []) fresh_machine
      (worker-IsRunning true, (worker-IsRunning false, tt))
      (record { started = omega arith; lasts = λ there. absurd (there refl) }) refl

abbrev kept_record : IdemRecord
kept_record = record {
  state = resolved;
  run_id = "r";
  step = pos 1;
  tool_use_id = "t";
  tool_name = "open_pr";
  args_hash = "h";
  claim_token = "a";
  claimed_by = "w";
  claimed_at = 5;
  resolved_at = some 6;
  result = some "opened PR #1: Fix";
  status = some "success";
  resolution = some "executed";
}

abbrev kept_value : Bytes
kept_value = doc (obj (record_wire time_text kept_record))

kept_value-encode : encode_record time_text kept_record ≡ some kept_value
unfolding encode_record
kept_value-encode = refl

decode_record-encode_example : decode_record time_text kept_value ≡ ok kept_record
unfolding state_name state_of_name str_dec
decode_record-encode_example =
    decode_record-encode time_text kept_record kept_value refl refl kept_value-encode

-- The machine on which the call is claimed, and the one after its Resolve.
abbrev claimed_machine : Machine
claimed_machine = record fresh_machine {
  value = some (doc (obj (record_wire time_text (record kept_record { state = claimed }))));
  deadline = 1000000000005;
}

abbrev resolved_machine : Machine
resolved_machine = record fresh_machine { value = some kept_value; deadline = 3600000000005 }

resolves_it :
    (redis_store time_text redis 3600000000000).resolve "idem:r:1:t" "a" kept_record claimed_machine
    ≡ returned tt resolved_machine
unfolding redis_store compare_and_set encode_record cas_script holds_claim record_wire state_name
    str_dec cas_verdict after pure
resolves_it = refl

resolved-Stays_example :
    ((perform_all time_text
        (λ m. m.clock)
        view.effects
        (λ m. m.deadline)
        (λ m. m.value)
        target
        redis
        3600000000000
        redis-IsRedis
        (omega arith)
        (gets ∷ resolves "a" kept_record ∷ claims kept_record ∷ [])
        resolved_machine).value
      ≡ some kept_value)
    ⊎ (3600000000005
        ≤ (perform_all time_text
            (λ m. m.clock)
            view.effects
            (λ m. m.deadline)
            (λ m. m.value)
            target
            redis
            3600000000000
            redis-IsRedis
            (omega arith)
            (gets ∷ resolves "a" kept_record ∷ claims kept_record ∷ [])
            resolved_machine).clock)
resolved-Stays_example =
    resolved-Stays time_text (λ m. m.clock) view.effects (λ m. m.deadline) (λ m. m.value) target
      redis 3600000000000 redis-IsRedis (omega arith) kept_record kept_value refl kept_value-encode
      "a" (gets ∷ resolves "a" kept_record ∷ claims kept_record ∷ []) claimed_machine
      resolved_machine resolves_it
