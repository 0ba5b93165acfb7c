-- ===== src/Tests/Waiting.antt =====
-- waitUntilSettled of internal/idempotency/guard.go on a claim that its worker has left behind.
use durable_agent_execution.Tests.Fence.{World, view, runtime, memory, input, new_world}
use durable_agent_execution.Idempotency.Waiting.{
  Clocked, Watched, IsBoundedAt, wait_until_settled-enough,
}
use durable_agent_execution.Prelude.Int64.{pos}
use durable_agent_execution.Idempotency.Record.{IdemRecord, claimed}
use durable_agent_execution.Idempotency.Claims.{wait_until_settled}
use durable_agent_execution.Prelude.{
  ◌≡◌, refl, none, some, ◌+◌, false, arith, subst, ◌≤◌, ℕ, inl, some-injective,
}

-- Another worker's claim, of the time 0, that is never resolved.
abbrev old_claim : IdemRecord
old_claim = record {
  state = claimed;
  run_id = "r";
  step = pos 1;
  tool_use_id = "t";
  tool_name = "open_pr";
  args_hash = "h";
  claim_token = "z";
  claimed_by = "v";
  claimed_at = 0;
  resolved_at = none;
  result = none;
  status = none;
  resolution = none;
}

abbrev waiting_world : World
waiting_world = record new_world { stored = some old_claim }

watched :
    (w : World) (d : ℕ)
    → Watched view (runtime false) memory input 2000 w (record w { clock = w.clock + d })
watched w d = record { clock_grows = omega arith; not_renewed = λ rec there. inl there }

memory-Clocked : Clocked view (runtime false) memory input 2000
memory-Clocked = record {
  now_later = λ w. idle w;
  now_reads = λ w. refl;
  ctx_later = λ w. idle w;
  sleep_later = λ d w. watched w d;
  sleep_sleeps = λ w. omega arith;
  get_later = λ w. idle w;
  get_reads = λ w rec there. inl there;
}
  where
    idle : (w : World) → Watched view (runtime false) memory input 2000 w w
    idle w = record { clock_grows = omega arith; not_renewed = λ rec there. inl there }

abandoned-IsBoundedAt : IsBoundedAt view (runtime false) memory input 2000 waiting_world
abandoned-IsBoundedAt rec there open_claim =
    subst (λ (k : IdemRecord). k.claimed_at + 1000 + 1000 ≤ 2000) (some-injective there)
      (omega arith)

wait_until_settled-enough_example :
    wait_until_settled (runtime false) memory input 8 old_claim waiting_world
    ≡ wait_until_settled (runtime false) memory input 2 old_claim waiting_world
wait_until_settled-enough_example =
    wait_until_settled-enough view (runtime false) memory input 2000 memory-Clocked 1 7 old_claim
      waiting_world (omega arith) (omega arith) abandoned-IsBoundedAt (omega arith)
