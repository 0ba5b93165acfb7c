-- ===== src/Tests/Settings.antt =====
-- Concrete configurations, keys, crash specs and ledgers.
use durable_agent_execution.Idempotency.Record.{after_claim}
use durable_agent_execution.Prelude.Cut.{is_free}
use Prim.Native.String.{◌++◌ as append}
use durable_agent_execution.Scripts.{
  totals_of, counted, rows_of, extra, is_counted, count_row, exit_of,
}
use durable_agent_execution.Worker.Config.{with_default_grace}
use durable_agent_execution.Prelude.{
  Result, ◌≡◌, refl, String, ok, some, none, [], ◌∷◌, ◌≤◌, true, false, List, ite, str_dec, arith,
}
use durable_agent_execution.Prelude.Cut.{split, is_free}
use durable_agent_execution.Prelude.Int64.{lt_int, add_int, pos}
use durable_agent_execution.Tools.Ledger.{LedgerEntry}
use durable_agent_execution.Idempotency.Claims.{Run, key_may_have_expired}
use durable_agent_execution.Idempotency.Crash.{
  parse_crash_spec, parse_crash_spec-printed, exit_crash, point_name,
}
use durable_agent_execution.Idempotency.Key.Separates.{key-separates}
use durable_agent_execution.Scripts.{effects_exit, summarize}
use durable_agent_execution.Scripts.Duplicates.{effects_exit-once, counted_under}
use durable_agent_execution.Worker.Config.{
  duration_env, duration_of, positive, check_ttl, min_ttl, check_run_id, crash_after, split_brokers,
  or_default, Environment, Config, load_config, guard_config,
}
use durable_agent_execution.Worker.Margin.{key_may_have_expired-fresh}
use durable_agent_execution.Tests.Fence.{input, World}

-- Only the tool's timeout is set.
abbrev variables : String → String
variables name = ite (str_dec name "DAE_TOOL_TIMEOUT") "20s" ""

abbrev environment : Environment
environment = record {
  getenv = variables;
  parse_duration = λ s. some (pos 20000000000);
  is_uuid = λ s. true;
  parse_int = λ s. none;
}

abbrev settings : Config
settings = record {
  brokers = "localhost:9092" ∷ [];
  redis_addr = "localhost:6379";
  idem_ttl = pos 86400000000000;
  tool_timeout = pos 20000000000;
  ledger_path = ".dae/mock-ledger.jsonl";
  resume_run_id = "";
  crash_spec = "";
  crash_after_seq = none;
}

environment-accepted : load_config environment ≡ ok settings
unfolding load_config str_dec duration_env duration_of positive lt_int check_ttl min_ttl add_int
    check_run_id parse_crash_spec crash_after split_brokers or_default split
environment-accepted = refl

-- A timeout so long that the sum wraps: a time to live shorter than the timeout is accepted.
abbrev too_long : Environment
too_long = record environment { parse_duration = λ s. some (pos 9223372036854775807) }

overflow-accepted :
    load_config too_long ≡ ok (record settings { tool_timeout = pos 9223372036854775807 })
unfolding load_config str_dec duration_env duration_of positive lt_int check_ttl min_ttl add_int
    check_run_id parse_crash_spec crash_after split_brokers or_default split
overflow-accepted = refl

abbrev claimed_run : Run World
claimed_run = record input { cfg = guard_config "w" settings }

key_may_have_expired-fresh_example : key_may_have_expired claimed_run 50000000000 ≡ false
unfolding guard_config with_default_grace
key_may_have_expired-fresh_example =
    key_may_have_expired-fresh environment settings environment-accepted claimed_run "w" 50000000000
      refl (omega arith) (omega arith)

key-separates_example : ◌≡◌ {A = String} "r" "r" × ◌≡◌ {A = String} "t" "t"
unfolding is_free
key-separates_example = key-separates "r" "r" "t" "t" (pos 1) (pos 1) refl refl refl

parse_crash_spec-printed_example :
    parse_crash_spec (append "open_pr" (append ":" (point_name after_claim)))
    ≡ ok (exit_crash "open_pr" after_claim)
unfolding is_free
parse_crash_spec-printed_example = parse_crash_spec-printed "o" "pen_pr" after_claim refl

abbrev entry : LedgerEntry
entry = record {
  run_id = "r";
  tool_use_id = "t";
  tool_name = "open_pr";
  idempotency_key = "idem:r:1:t";
  result = "opened PR #1: Fix";
  recorded_at = 5;
  writer_pid = pos 7;
}

effects_exit-once_example :
    (es : List LedgerEntry) × (true ≡ true)
    × (◌≡◌ {A = Result String (List LedgerEntry)} (ok (entry ∷ [])) (ok es))
    × (counted_under "" "idem:r:1:t" es ≤ 1)
unfolding effects_exit exit_of summarize totals_of counted rows_of extra is_counted count_row
effects_exit-once_example = effects_exit-once true (ok (entry ∷ [])) "" "idem:r:1:t" refl

two_entries :
    summarize (entry ∷ entry ∷ []) "" ≡ record { entries = 2; distinct_keys = 1; duplicates = 1 }
unfolding summarize str_dec totals_of counted rows_of extra is_counted count_row
two_entries = refl
