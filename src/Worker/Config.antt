-- ===== src/Worker/Config.antt =====
-- cmd/worker/config.go, and the defaults of NewGuard (internal/idempotency/guard.go).
use durable_agent_execution.Idempotency.Claims.{expiry_margin, GuardConfig}
use durable_agent_execution.Prelude.{
  ℕ, String, Bool, Option, none, some, List, Result, ok, err, ◌>>=◌, if◌then◌else◌, ◌==◌,
}
use durable_agent_execution.Prelude.Int64.{ℤ, pos, negsuc, lt_int, add_int}
use durable_agent_execution.Prelude.Cut.{split}
use durable_agent_execution.Errors.{Error, message}
use durable_agent_execution.Idempotency.Crash.{parse_crash_spec}

-- The process environment, and the parsers of packages time, uuid and strconv.
pub record Environment : Type 0 where
  pub getenv : String → String
  -- in nanoseconds, as an int64
  pub parse_duration : String → Option ℤ
  pub is_uuid : String → Bool
  pub parse_int : String → Option ℤ

abbrev pub default_idem_ttl : ℕ
default_idem_ttl = 86400000000000

abbrev pub default_tool_timeout : ℕ
default_tool_timeout = 120000000000

abbrev pub default_stale_grace : ℕ
default_stale_grace = 30000000000

-- config
pub record Config : Type 0 where
  pub brokers : List String
  pub redis_addr : String
  pub idem_ttl : ℤ
  pub tool_timeout : ℤ
  pub ledger_path : String
  pub resume_run_id : String
  pub crash_spec : String
  pub crash_after_seq : Option ℤ

unfoldable pub or_default : String → String → String
or_default String.[] def = def
or_default v def = v

unfoldable pub split_brokers : String → List String
split_brokers raw = split b',' raw

module _ (env : Environment) where
  unfoldable pub positive : Option ℤ → Result Error ℤ
  positive none = err (message "not a positive duration")
  positive (some d) = if lt_int (pos 0) d then ok d else err (message "not a positive duration")

  unfoldable pub duration_of : String → ℕ → Result Error ℤ
  duration_of String.[] def = ok (pos def)
  duration_of raw def = positive (env.parse_duration raw)

  unfoldable pub duration_env : String → ℕ → Result Error ℤ
  duration_env name def = duration_of (env.getenv name) def

  -- The sum of three durations, which wraps like every int64.
  unfoldable pub min_ttl : ℤ → ℤ
  min_ttl tool_timeout =
      add_int (add_int tool_timeout (pos default_stale_grace)) (pos expiry_margin)

  unfoldable pub check_ttl : ℤ → ℤ → Result Error (Unit {0})
  check_ttl ttl timeout =
      if lt_int (min_ttl timeout) ttl
      then ok tt
      else err (message "DAE_IDEMPOTENCY_TTL is too small")

  unfoldable pub check_run_id : String → Result Error (Unit {0})
  check_run_id String.[] = ok tt
  check_run_id id = if env.is_uuid id then ok tt else err (message "DAE_RESUME_RUN_ID")

  unfoldable pub crash_after : String → Result Error (Option ℤ)
  crash_after String.[] = ok none
  crash_after raw = elim (env.parse_int raw) [
    | none ↦ err (message "DAE_CRASH_AFTER_SEQ is not a valid integer")
    | some n ↦ ok (some n)
  ]

  unfoldable pub load_config : Result Error Config
  load_config = do
    ttl ← duration_env "DAE_IDEMPOTENCY_TTL" default_idem_ttl
    timeout ← duration_env "DAE_TOOL_TIMEOUT" default_tool_timeout
    big ← check_ttl ttl timeout
    fine ← check_run_id (env.getenv "DAE_RESUME_RUN_ID")
    hook ← parse_crash_spec (env.getenv "DAE_CRASH_AT")
    after ← crash_after (env.getenv "DAE_CRASH_AFTER_SEQ")
    ok (record {
      brokers = split_brokers (or_default (env.getenv "DAE_KAFKA_BROKERS") "localhost:9092");
      redis_addr = or_default (env.getenv "DAE_REDIS_ADDR") "localhost:6379";
      idem_ttl = ttl;
      tool_timeout = timeout;
      ledger_path = or_default (env.getenv "DAE_MOCK_LEDGER_PATH") ".dae/mock-ledger.jsonl";
      resume_run_id = env.getenv "DAE_RESUME_RUN_ID";
      crash_spec = env.getenv "DAE_CRASH_AT";
      crash_after_seq = after;
    })

-- The Guard that buildLoop makes: StaleGrace is left at zero, and NewGuard gives it its default.
unfoldable pub with_default_grace : GuardConfig → GuardConfig
with_default_grace cfg =
    if cfg.stale_grace == 0 then record cfg { stale_grace = default_stale_grace } else cfg

abbrev pub to_nat : ℤ → ℕ
to_nat (pos n) = n
to_nat (negsuc n) = 0

unfoldable pub guard_config : String → Config → GuardConfig
guard_config claimed_by cfg = with_default_grace (record {
  tool_timeout = to_nat cfg.tool_timeout;
  stale_grace = 0;
  ttl = to_nat cfg.idem_ttl;
  claimed_by = claimed_by;
})
