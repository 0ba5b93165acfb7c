-- ===== src/Worker/Margin.antt =====
-- loadConfig of cmd/worker/config.go: the time to live that it accepts.
use durable_agent_execution.Idempotency.Crash.{parse_crash_spec}
use durable_agent_execution.Prelude.{
  ℕ, ◌+◌, ◌≡◌, ◌≤◌, ◌<◌, String, false, ok, some, none, arith, sym, ap, subst, >>=-eq-ok,
  ok-injective, Option,
}
use durable_agent_execution.Prelude.Int64.{ℤ, pos, negsuc, lt_int, add_int-pos, max_int64}
use durable_agent_execution.Idempotency.Claims.{Run, key_may_have_expired, expiry_margin}
use durable_agent_execution.Worker.Config.{
  Environment, Config, load_config, duration_env, duration_of, positive, check_ttl, min_ttl,
  guard_config, with_default_grace, default_stale_grace, to_nat, default_idem_ttl,
  default_tool_timeout, check_run_id, crash_after,
}

module _ (env : Environment) where
  -- A duration that is accepted is positive.
  positive-pos : (o : Option ℤ) (d : ℤ) → positive env o ≡ ok d → pos (to_nat d) ≡ d
  unfolding positive lt_int
  positive-pos none d h = absurd (cc h)
  positive-pos (some (pos n)) d h = ground (arith, h)
  positive-pos (some (negsuc n)) d h = absurd (cc h)

  duration_of-pos :
      (raw : String) (def : ℕ) (d : ℤ) → duration_of env raw def ≡ ok d → pos (to_nat d) ≡ d
  unfolding duration_of
  duration_of-pos String.[] def d h = ground (arith, h)
  duration_of-pos (String.◌∷◌ c s) def d h = positive-pos _ d h

  check_ttl-lt :
      (ttl timeout : ℕ)
      → timeout + default_stale_grace + expiry_margin ≤ max_int64
      → check_ttl env (pos ttl) (pos timeout) ≡ ok tt
      → timeout + default_stale_grace + expiry_margin < ttl
  unfolding check_ttl min_ttl lt_int
  check_ttl-lt ttl timeout room h = ground (
    arith,
    h,
    add_int-pos timeout default_stale_grace,
    add_int-pos (timeout + default_stale_grace) expiry_margin,
  )

  module _ (cfg : Config) (accepted : load_config env ≡ ok cfg) where
    -- What an accepted configuration has been through.
    accepted_ttl :
        (pos (to_nat cfg.idem_ttl) ≡ cfg.idem_ttl)
        × (pos (to_nat cfg.tool_timeout) ≡ cfg.tool_timeout)
        × (check_ttl env cfg.idem_ttl cfg.tool_timeout ≡ ok tt)
    unfolding load_config duration_env
    accepted_ttl =
        let (ttl, is_ttl, rest1) =
          >>=-eq-ok (duration_env env "DAE_IDEMPOTENCY_TTL" default_idem_ttl) _ accepted in
        let (timeout, is_timeout, rest2) =
          >>=-eq-ok (duration_env env "DAE_TOOL_TIMEOUT" default_tool_timeout) _ rest1 in
        let (big, is_big, rest3) = >>=-eq-ok (check_ttl env ttl timeout) _ rest2 in
        let (fine, is_fine, rest4) =
          >>=-eq-ok (check_run_id env (env.getenv "DAE_RESUME_RUN_ID")) _ rest3 in
        let (hook, is_hook, rest5) =
          >>=-eq-ok (parse_crash_spec (env.getenv "DAE_CRASH_AT")) _ rest4 in
        let (after, is_after, rest6) =
          >>=-eq-ok (crash_after env (env.getenv "DAE_CRASH_AFTER_SEQ")) _ rest5 in
        let same = ok-injective rest6 in
        let same_ttl = ap (λ c. c.idem_ttl) same in
        let same_timeout = ap (λ c. c.tool_timeout) same in
        (
          subst (λ d. pos (to_nat d) ≡ d) same_ttl (duration_of-pos _ default_idem_ttl ttl is_ttl),
          subst (λ d. pos (to_nat d) ≡ d) same_timeout
              (duration_of-pos _ default_tool_timeout timeout is_timeout),
          subst (λ d. check_ttl env d cfg.tool_timeout ≡ ok tt) same_ttl
              (subst (λ d. check_ttl env ttl d ≡ ok tt) same_timeout is_big),
        )

    load_config-ttl :
        to_nat cfg.tool_timeout + default_stale_grace + expiry_margin ≤ max_int64
        → to_nat cfg.tool_timeout + default_stale_grace + expiry_margin < to_nat cfg.idem_ttl
    load_config-ttl room = check_ttl-lt (to_nat cfg.idem_ttl) (to_nat cfg.tool_timeout) room (
        subst (λ d. check_ttl env d (pos (to_nat cfg.tool_timeout)) ≡ ok tt) (sym accepted_ttl.0)
          (subst (λ d. check_ttl env cfg.idem_ttl d ≡ ok tt) (sym accepted_ttl.1) accepted_ttl.2))

    -- With a configuration that loadConfig accepts, a claim is never mistaken for one that may have
    -- expired while its tool can still be running: until the tool's timeout and the stale grace after
    -- ToolInvoked are over, the Guard takes an absent key as proof. The tool's timeout leaves room for
    -- the grace and the margin in an int64.
    pub key_may_have_expired-fresh :
        {W : Type 0} (r : Run W) (claimed_by : String) (now : ℕ)
        → r.cfg ≡ guard_config claimed_by cfg
        → to_nat cfg.tool_timeout + default_stale_grace + expiry_margin ≤ max_int64
        → now ≤ r.tc.invoked_at + (r.cfg.tool_timeout + r.cfg.stale_grace)
        → key_may_have_expired r now ≡ false
    unfolding key_may_have_expired guard_config with_default_grace
    key_may_have_expired-fresh r claimed_by now is_cfg room early = ground (
      arith,
      load_config-ttl room,
      ap (λ c. c.ttl) is_cfg,
      ap (λ c. c.tool_timeout) is_cfg,
      ap (λ c. c.stale_grace) is_cfg,
    )
