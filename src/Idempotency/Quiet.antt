-- ===== src/Idempotency/Quiet.antt =====
-- The parts of internal/idempotency/guard.go in which no effect happens: they keep whatever a write of
-- the key keeps.
use durable_agent_execution.Tools.{Executed, failure, ExecError, outcome_unknown_error}
use durable_agent_execution.Idempotency.Record.{
  CrashPoint, IdemRecord, Resolution, after_resolve, after_execute,
}
use durable_agent_execution.Idempotency.Guard.{settle, held_claim, cache_hit, resolve}
use durable_agent_execution.Idempotency.Store.{Store}
use durable_agent_execution.Idempotency.Retry.{Runtime, retry}
use durable_agent_execution.Idempotency.Triple.{
  Triple, Triple-pure, Triple-bind, Triple-raise, Triple-if, retry-Triple, consult-Triple, Ends,
  left-Triple,
}
use durable_agent_execution.Idempotency.Contract.{View, Contract, Written, Later, Later→Written}
use durable_agent_execution.Errors.{Error, restart, claim_lost}
use durable_agent_execution.Prelude.{
  none, some, Bool, if◌then◌else◌, ok, err, String, ℕ, Result, suc, true, zero, false, Option,
}
use durable_agent_execution.Idempotency.Process.{
  ◌>>=◌, Process, pure, left, raise, try, Ran, returned, raised, crashed, caught,
}
use durable_agent_execution.Idempotency.Claims.{
  new_record, Run, consult, recheck_own_take_over, after_take_over, take_over, wait_until_settled,
  poll_interval,
}

-- m keeps J, however it ends.
module _ {W : Type 0} (J : W → Type 0) where
  abbrev pub IsQuiet : {A : Type 0} → Process W A → Type 0
  IsQuiet m = Triple J m (λ _. J) J

module _ {W : Type 0} {J : W → Type 0} where
  pub left-IsQuiet : {A : Type 0} (m : Process W A) → ((w : W) → J w → J (left (m w))) → IsQuiet J m
  left-IsQuiet m h = left-Triple m h

  pub pure-IsQuiet : {A : Type 0} (a : A) → IsQuiet J (pure a)
  pure-IsQuiet a = Triple-pure a (λ w j. j)

  pub raise-IsQuiet : {A : Type 0} (e : Error) → IsQuiet J (raise {A = A} e)
  raise-IsQuiet e = Triple-raise e (λ w j. j)

  pub bind-IsQuiet :
      {A B : Type 0} (m : Process W A) (f : A → Process W B)
      → IsQuiet J m
      → ((a : A) → IsQuiet J (f a))
      → IsQuiet J (m >>= f)
  bind-IsQuiet m f q rest = Triple-bind m f q rest

  pub if-IsQuiet :
      {A : Type 0} (b : Bool) {m n : Process W A}
      → IsQuiet J m
      → IsQuiet J n
      → IsQuiet J (if b then m else n)
  if-IsQuiet b q q' = Triple-if b _ _ (λ _. q) (λ _. q')

  option-IsQuiet :
      {A B : Type 0} (x : Option B) {m : Process W A} {n : B → Process W A}
      → IsQuiet J m
      → ((b : B) → IsQuiet J (n b))
      → IsQuiet J (elim x [ none ↦ m | some b ↦ n b ])
  option-IsQuiet none q q' = q
  option-IsQuiet (some b) q q' = q' b

  result-IsQuiet :
      {A B : Type 0} (x : Result Error B) {m : Error → Process W A} {n : B → Process W A}
      → ((e : Error) → IsQuiet J (m e))
      → ((b : B) → IsQuiet J (n b))
      → IsQuiet J (elim x [ err e ↦ m e | ok b ↦ n b ])
  result-IsQuiet (ok b) q q' = q' b
  result-IsQuiet (err e) q q' = q e

  pub try-IsQuiet : {A : Type 0} (m : Process W A) → IsQuiet J m → IsQuiet J (try m)
  unfolding try
  try-IsQuiet {A = A} m q = record { run = λ w p. go (m w) (q.run w p) }
    where
      go : (x : Ran W A) → Ends (λ _. J) J x → Ends (λ _. J) J (caught x)
      go (returned a w) h = h
      go (raised e w) h = h
      go (crashed w) h = h

module _ {W : Type 0} (v : View W) (rt : Runtime W) (store : Store W) (r : Run W)
    (c : Contract v r rt store) {J : W → Type 0}
    (keeps : (w w' : W) → Written v r w w' → J w → J w') where
  mono-IsQuiet : {A : Type 0} (m : Process W A) → ((w : W) → Later v r w (left (m w))) → IsQuiet J m
  mono-IsQuiet m h = left-IsQuiet m (λ w. keeps w _ (Later→Written v r (h w)))

  pub now-IsQuiet : IsQuiet J rt.now
  now-IsQuiet = mono-IsQuiet rt.now c.now_later

  pub crash_at-IsQuiet : (tool : String) (p : CrashPoint) → IsQuiet J (rt.crash_at tool p)
  crash_at-IsQuiet tool p = mono-IsQuiet (rt.crash_at tool p) (c.crash_later tool p)

  pub ctx_done-IsQuiet : IsQuiet J rt.ctx_done
  ctx_done-IsQuiet = mono-IsQuiet rt.ctx_done c.ctx_later

  pub sleep-IsQuiet : (d : ℕ) → IsQuiet J (rt.sleep d)
  sleep-IsQuiet d = mono-IsQuiet (rt.sleep d) (c.sleep_later d)

  retry-IsQuiet : {A : Type 0} (op : Process W A) → IsQuiet J op → IsQuiet J (retry rt op)
  retry-IsQuiet op = retry-Triple rt J ctx_done-IsQuiet sleep-IsQuiet op

  consult-IsQuiet : {A : Type 0} (op : Process W A) → IsQuiet J op → IsQuiet J (consult rt op)
  consult-IsQuiet op = consult-Triple rt J ctx_done-IsQuiet sleep-IsQuiet op

  get-IsQuiet : IsQuiet J (consult rt (store.get_record r.key))
  get-IsQuiet = consult-IsQuiet (store.get_record r.key) (mono-IsQuiet _ c.get_later)

  pub new_record-IsQuiet : IsQuiet J (new_record rt r)
  unfolding new_record
  new_record-IsQuiet =
      bind-IsQuiet _ _ (mono-IsQuiet rt.new_uuid c.uuid_later)
        (λ token. bind-IsQuiet _ _ now-IsQuiet (λ now. pure-IsQuiet _))

  recheck_own_take_over-IsQuiet :
      (mine : IdemRecord) → IsQuiet J (recheck_own_take_over rt store r mine)
  unfolding recheck_own_take_over
  recheck_own_take_over-IsQuiet mine = bind-IsQuiet _ _ get-IsQuiet (λ cur.
      option-IsQuiet cur (raise-IsQuiet restart)
        (λ rec. if-IsQuiet _ (pure-IsQuiet mine) (raise-IsQuiet restart)))

  after_take_over-IsQuiet :
      (mine : IdemRecord) (x : Result Error Unit) → IsQuiet J (after_take_over rt store r mine x)
  unfolding after_take_over
  after_take_over-IsQuiet mine (ok t) = pure-IsQuiet mine
  after_take_over-IsQuiet mine (err claim_lost) = recheck_own_take_over-IsQuiet mine
  after_take_over-IsQuiet mine (err e) = raise-IsQuiet _

  take_over-IsQuiet : (stale : IdemRecord) → IsQuiet J (take_over rt store r stale)
  unfolding take_over
  take_over-IsQuiet stale = bind-IsQuiet _ _ new_record-IsQuiet (λ mine.
      bind-IsQuiet _ _
        (try-IsQuiet _ (
          retry-IsQuiet _
            (left-IsQuiet _ (λ w. keeps w _ (c.take_over_written stale.claim_token mine w)))))
        (after_take_over-IsQuiet mine))

  pub held_claim-IsQuiet :
      (held : IdemRecord) (taking_over : Bool) → IsQuiet J (held_claim rt store r held taking_over)
  unfolding held_claim
  held_claim-IsQuiet held true = take_over-IsQuiet held
  held_claim-IsQuiet held false = pure-IsQuiet held

  pub wait_until_settled-IsQuiet :
      (fuel : ℕ) (cur : IdemRecord) → IsQuiet J (wait_until_settled rt store r fuel cur)
  unfolding wait_until_settled
  wait_until_settled-IsQuiet zero cur = raise-IsQuiet _
  wait_until_settled-IsQuiet (suc fuel) cur = bind-IsQuiet _ _ now-IsQuiet (λ now.
      if-IsQuiet _ (pure-IsQuiet cur) (
        bind-IsQuiet _ _ (try-IsQuiet _ (sleep-IsQuiet poll_interval)) (λ slept.
          result-IsQuiet slept (λ e. raise-IsQuiet _)
            (λ t. bind-IsQuiet _ _ get-IsQuiet (λ next.
              option-IsQuiet next (raise-IsQuiet restart) (λ rec.
                if-IsQuiet _ (if-IsQuiet _ (pure-IsQuiet rec) (wait_until_settled-IsQuiet fuel rec))
                  (raise-IsQuiet _)))))))

  pub cache_hit-IsQuiet : (rec : IdemRecord) → IsQuiet J (cache_hit rt store r rec)
  unfolding cache_hit
  cache_hit-IsQuiet rec =
      option-IsQuiet rec.result (raise-IsQuiet _)
        (λ result. option-IsQuiet rec.status (raise-IsQuiet _) (λ status. pure-IsQuiet _))

  pub resolve-IsQuiet :
      (held : IdemRecord) (result status : String) (res : Resolution)
      → IsQuiet J (resolve rt store r held result status res)
  unfolding resolve
  resolve-IsQuiet held result status res = bind-IsQuiet _ _ now-IsQuiet (λ now.
      bind-IsQuiet _ _
        (try-IsQuiet _ (
          retry-IsQuiet _
            (left-IsQuiet _ (λ w. keeps w _ (c.resolve_written held.claim_token _ w)))))
        (λ _.
          bind-IsQuiet _ _ (crash_at-IsQuiet r.tc.tool_name after_resolve) (λ _. pure-IsQuiet _)))

  pub settle-IsQuiet :
      (held : IdemRecord) (res : Resolution) (x : Executed)
      → IsQuiet J (settle rt store r held res x)
  unfolding settle
  settle-IsQuiet held res x = settled x.error
    where
      settled :
          (e : Option ExecError) → IsQuiet J (settle rt store r held res (record x { error = e }))
      settled none =
          bind-IsQuiet _ _ (crash_at-IsQuiet r.tc.tool_name after_execute)
            (λ _. resolve-IsQuiet held x.result "success" res)
      settled (some outcome_unknown_error) = raise-IsQuiet _
      settled (some (failure text)) = if-IsQuiet _ (raise-IsQuiet _) (
          bind-IsQuiet _ _ (crash_at-IsQuiet r.tc.tool_name after_execute)
            (λ _. resolve-IsQuiet held _ "error" res))
