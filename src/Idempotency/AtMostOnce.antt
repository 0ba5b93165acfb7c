-- ===== src/Idempotency/AtMostOnce.antt =====
-- internal/idempotency/guard.go: whatever a Guard.Run meets, the effect of its tool happens at most once.
use durable_agent_execution.Idempotency.Rows.{acquired-Triple, existing-Triple}
use durable_agent_execution.Errors.{fence_unavailable, Error, restart}
use durable_agent_execution.Json.{RawMessage}
use durable_agent_execution.Idempotency.Record.{Outcome}
use durable_agent_execution.Idempotency.Quiet.{
  IsQuiet, pure-IsQuiet, raise-IsQuiet, try-IsQuiet, left-IsQuiet,
}
use durable_agent_execution.Idempotency.Claiming.{IsClaiming, IsClaiming-Later, claim-Triple}
use durable_agent_execution.Idempotency.Triple.{
  Triple, Ends, Triple-bind, Triple-post, Triple-pure, consult-Triple, Triple-raise, Triple-option,
  Triple-if, Triple-pre, left-end,
}
use durable_agent_execution.Idempotency.Store.{Store}
use durable_agent_execution.Idempotency.Retry.{Runtime}
use durable_agent_execution.Idempotency.Contract.{
  View, Contract, IsFenced, IsTimed, UuidSpec, IsFenced-Written, Later→Written,
}
use durable_agent_execution.Prelude.{
  ◌≡◌, some, String, inl, ℕ, arith, sym, ◌∙◌, suc, Result, ok, err, zero, List, ◌∷◌, All, ◌≤◌, [],
  subst, ap,
}
use durable_agent_execution.Idempotency.Process.{Ran, left, returned, raised, crashed, Process}
use durable_agent_execution.Idempotency.Claims.{new_record, Run, max_claim_races}
use durable_agent_execution.Idempotency.Guard.{
  attempt, race, after_race, run, run_keyed, run_hashed,
}

module _ {W : Type 0} (v : View W) (rt : Runtime W) (store : Store W) (r : Run W)
    (c : Contract v r rt store) where
  -- A new claim's token is on no record.
  new_record-Triple :
      Triple
        (IsFenced v r)
        (new_record rt r)
        (λ mine. IsClaiming v r mine.claim_token)
        (IsFenced v r)
  unfolding new_record
  new_record-Triple = Triple-bind _ _ uuid (λ token.
      Triple-post _ (λ mine w j. j) (λ w j. j.0)
        (Triple-bind _ _ (now token) (λ now. Triple-pure _ (λ w j. j))))
    where
      uuid : Triple (IsFenced v r) rt.new_uuid (IsClaiming v r) (IsFenced v r)
      uuid = record {
        run = λ w f.
            go (rt.new_uuid w) (c.uuid_fresh w)
              (IsFenced-Written v r (Later→Written v r (c.uuid_later w)) f);
      }
        where
          go :
              (x : Ran W String)
              → UuidSpec v r x
              → IsFenced v r (left x)
              → Ends (IsClaiming v r) (IsFenced v r) x
          go (returned token w) fresh f = (f, inl fresh)
          go (raised e w) fresh f = f
          go (crashed w) fresh f = f

      now : (token : String) → IsQuiet (IsClaiming v r token) rt.now
      now token = left-IsQuiet rt.now (λ w. IsClaiming-Later v r token (c.now_later w))

  attempt-Triple :
      (fuel : ℕ)
      → Triple (IsFenced v r) (attempt rt store r fuel) (λ _. IsFenced v r) (IsFenced v r)
  unfolding attempt
  attempt-Triple fuel = Triple-bind _ _ new_record-Triple (λ mine.
      Triple-bind _ _
        (Triple-post _ (λ res w k. k) (λ w j. j.0)
          (consult-Triple rt (IsClaiming v r mine.claim_token)
            (left-IsQuiet rt.ctx_done (λ w. IsClaiming-Later v r mine.claim_token (c.ctx_later w)))
            (λ d.
              left-IsQuiet (rt.sleep d)
                (λ w. IsClaiming-Later v r mine.claim_token (c.sleep_later d w)))
            _ (claim-Triple v r rt store c mine)))
        (λ res.
          Triple-if res.acquired _ _
            (λ yes_acquired.
              Triple-pre (λ w k. k.1 yes_acquired) (acquired-Triple v rt store r c mine))
            (λ refused.
              Triple-option res.existing (λ _. Triple-raise fence_unavailable (λ w k. k.0))
                (λ ex there.
                  Triple-pre (λ w k. k.2 refused ex there)
                    (existing-Triple v rt store r c fuel mine ex)))))

  race-Triple :
      (fuel races : ℕ)
      → Triple (IsFenced v r) (race rt store r fuel races) (λ _. IsFenced v r) (IsFenced v r)
  unfolding race after_race
  race-Triple fuel zero = Triple-raise fence_unavailable (λ w f. f)
  race-Triple fuel (suc races) =
      Triple-bind _ _ (try-IsQuiet _ (attempt-Triple fuel)) (again (race-Triple fuel races))
    where
      again :
          {more : Process W Outcome}
          → IsQuiet (IsFenced v r) more
          → (x : Result Error Outcome) → IsQuiet (IsFenced v r) (after_race rt store r more x)
      again q (ok out) = pure-IsQuiet out
      again q (err restart) = q
      again q (err e) = raise-IsQuiet _

module _ {W : Type 0} (v : View W) (r : Run W)
    (args_hash : String → RawMessage → Result Error String)
    (has_key : r.inv.idempotency_key ≡ some r.key)
    (has_hash : args_hash r.tc.tool_name r.tc.tool_args ≡ ok r.args_hash) where
  run-race :
      (rt : Runtime W) (store : Store W) (fuel : ℕ)
      → run rt store args_hash r.cfg r.inv r.tc r.tool fuel ≡ race rt store r fuel max_claim_races
  unfolding run run_keyed run_hashed
  run-race rt store fuel =
      ap (run_keyed rt store args_hash r.cfg r.inv r.tc r.tool fuel) has_key
      ∙ ap (run_hashed rt store args_hash r.cfg r.inv r.tc r.tool fuel r.key) has_hash

  run-IsFenced :
      (rt : Runtime W) (store : Store W) (fuel : ℕ) (w : W)
      → Contract v r rt store
      → IsFenced v r w
      → IsFenced v r (left (run rt store args_hash r.cfg r.inv r.tc r.tool fuel w))
  run-IsFenced rt store fuel w c f =
      subst (λ m. IsFenced v r (left (m w))) (sym (run-race rt store fuel))
        (left-end (IsFenced v r) _ ((race-Triple v rt store r c fuel max_claim_races).run w f))

  -- The same call, by one worker after another: each starts after the one before it has returned,
  -- failed or died. Every worker has its own process, but all share the store.
  abbrev pub workers : Store W → ℕ → List (Runtime W) → W → W
  workers store fuel [] w = w
  workers store fuel (rt ∷ rts) w =
      workers store fuel rts (left (run rt store args_hash r.cfg r.inv r.tc r.tool fuel w))

  workers-IsFenced :
      (store : Store W) (fuel : ℕ) (rts : List (Runtime W)) (w : W)
      → All (λ rt. Contract v r rt store) rts
      → IsFenced v r w
      → IsFenced v r (workers store fuel rts w)
  workers-IsFenced store fuel [] w c f = f
  workers-IsFenced store fuel (rt ∷ rts) w c f =
      workers-IsFenced store fuel rts _ c.1 (run-IsFenced rt store fuel w c.0 f)

  -- However often workers run the same invocation through the Guard, one after another, and
  -- wherever each of them fails or dies: if nothing has happened under the key at first, then the
  -- effect of the tool has happened at most once at the end. The call was journaled before, a record
  -- that is under the key at first lives for the TTL since then, the invocation has its key and its
  -- arguments have a hash; the store, the clock, fresh tokens and the tool are as their contract says.
  pub workers-effects :
      (store : Store W) (fuel : ℕ) (rts : List (Runtime W)) (w : W)
      → All (λ rt. Contract v r rt store) rts
      → IsTimed v r w
      → v.effects w ≡ 0
      → v.effects (workers store fuel rts w) ≤ 1
  workers-effects store fuel rts w c timed none_yet =
      (workers-IsFenced store fuel rts w c (record {
        at_most_once = omega (arith, none_yet);
        accounted = inl none_yet;
        timed = timed;
      })).at_most_once
