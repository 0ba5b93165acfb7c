-- ===== src/Errors.antt =====
-- The errors that the components return (internal/*/errors.go): one constructor for each sentinel
-- that a caller asks for with errors.Is, and `message` for an error that wraps none. Wrapping by
-- fmt.Errorf keeps the sentinel; the sequence number that the fold adds is kept too.
use durable_agent_execution.Prelude.{String}
use durable_agent_execution.Prelude.Int64.{ℤ}

pub data Error : Type 0 where
  -- internal/events/errors.go
  unknown_event_type missing_field invalid_payload : Error
  -- internal/replay/errors.go
  run_not_found first_event_not_start sequence_gap conflicting_event : Error
  event_after_terminal run_id_mismatch unknown_tool_use_id tool_order : Error
  -- internal/idempotency/errors.go, and errRestart of guard.go
  fence_unavailable unresolvable record_mismatch outcome_unknown : Error
  claim_lost corrupt_record restart : Error
  -- ErrPublishFailed of internal/agent/loop.go
  publish_failed : Error
  -- context.Canceled, and a *pgconn.PgError by its SQLSTATE
  canceled : Error
  postgres : String → Error
  message : String → Error
  at_seq : ℤ → Error → Error

-- What errors.Is compares: the sentinel at the end of the chain.
abbrev pub cause : Error → Error
cause (at_seq n e) = cause e
cause e = e
