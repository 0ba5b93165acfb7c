-- ===== src/Idempotency/Waiting.antt =====
-- waitUntilSettled of internal/idempotency/guard.go comes to an end: the fuel of its model is enough.
use durable_agent_execution.Prelude.Int64.{add_int}
use durable_agent_execution.Errors.{Error}
use durable_agent_execution.Idempotency.Quiet.{IsQuiet}
use durable_agent_execution.Idempotency.Record.{IdemRecord}
use durable_agent_execution.Idempotency.Triple.{
  Triple, Ends, left-Triple, Triple-try, consult-Triple, bind-same,
}
use durable_agent_execution.Idempotency.Claims.{
  Run, is_stale, wait_until_settled, consult, poll_interval, describes, is_resolved, is_past,
}
use durable_agent_execution.Idempotency.Store.{Store}
use durable_agent_execution.Idempotency.Retry.{Runtime}
use durable_agent_execution.Idempotency.Contract.{View, NowSpec}
use durable_agent_execution.Prelude.{
  ◌≡◌, refl, none, some, ℕ, ◌≤◌, Option, ◌+◌, ok, arith, err, true, ◌*◌, suc, Bool, if◌then◌else◌,
  zero, false, Result, subst, ◌⊎◌, inl, inr,
}
use durable_agent_execution.Idempotency.Process.{Ran, Process, returned, left, try, raised, crashed}

module _ {W A : Type 0} where
  agree_if :
      (b : Bool) (x y z : Process W A) (w : W)
      → (b ≡ false → y w ≡ z w)
      → (if b then x else y) w ≡ (if b then x else z) w
  agree_if true x y z w h = refl
  agree_if false x y z w h = h refl

  agree_both :
      (b : Bool) (x y z : Process W A) (w : W)
      → x w ≡ y w
      → (if b then x else z) w ≡ (if b then y else z) w
  agree_both true x y z w h = h
  agree_both false x y z w h = refl

  agree_result :
      {B : Type 0} (x : Result Error B) (m m' : Error → Process W A) (n n' : B → Process W A)
      (w : W)
      → ((e : Error) → m e w ≡ m' e w)
      → ((b : B) → x ≡ ok b → n b w ≡ n' b w)
      → (elim x as (λ _. Process W A) [ err e ↦ m e | ok b ↦ n b ]) w
        ≡ (elim x as (λ _. Process W A) [ err e ↦ m' e | ok b ↦ n' b ]) w
  agree_result (ok b) m m' n n' w h h' = h' b refl
  agree_result (err e) m m' n n' w h h' = h e

  agree_option :
      {B : Type 0} (x : Option B) (m m' : Process W A) (n n' : B → Process W A) (w : W)
      → m w ≡ m' w
      → ((b : B) → x ≡ some b → n b w ≡ n' b w)
      → (elim x as (λ _. Process W A) [ none ↦ m | some b ↦ n b ]) w
        ≡ (elim x as (λ _. Process W A) [ none ↦ m' | some b ↦ n' b ]) w
  agree_option none m m' n n' w h h' = h
  agree_option (some b) m m' n n' w h h' = h' b refl

module _ {W : Type 0} (v : View W) (rt : Runtime W) (store : Store W) (r : Run W)
    (deadline : ℕ) where
  abbrev pub SleepSpec : W → Ran W (Unit {0}) → Type 0
  SleepSpec w (returned t w') = v.clock w + poll_interval ≤ v.clock w'
  SleepSpec w (raised e w') = Unit
  SleepSpec w (crashed w') = Unit

  -- Time goes on; meanwhile the holder of the claim may resolve it, and nobody renews it.
  pub record Watched (w w' : W) : Type 0 where
    pub clock_grows : v.clock w ≤ v.clock w'
    pub not_renewed :
        (rec : IdemRecord)
        → v.stored w' ≡ some rec
        → (v.stored w ≡ some rec) ⊎ (is_resolved rec.state ≡ true)

  -- A Get answers with the record under the key.
  abbrev pub ReadSpec : W → Ran W (Option IdemRecord) → Type 0
  ReadSpec w (returned found w') =
      (rec : IdemRecord)
      → found ≡ some rec
      → (v.stored w ≡ some rec) ⊎ (is_resolved rec.state ≡ true)
  ReadSpec w (raised e w') = Unit
  ReadSpec w (crashed w') = Unit

  -- Time passes while the worker sleeps and never goes back.
  pub record Clocked : Type 0 where
    pub now_later : (w : W) → Watched w (left (rt.now w))
    pub now_reads : (w : W) → NowSpec v r (rt.now w)
    pub ctx_later : (w : W) → Watched w (left (rt.ctx_done w))
    pub sleep_later : (d : ℕ) (w : W) → Watched w (left (rt.sleep d w))
    pub sleep_sleeps : (w : W) → SleepSpec w (rt.sleep poll_interval w)
    pub get_later : (w : W) → Watched w (left (store.get_record r.key w))
    pub get_reads : (w : W) → ReadSpec w (store.get_record r.key w)

  -- A claim that is stale by the deadline, when the timeout and the grace have passed.
  abbrev pub IsBounded : IdemRecord → Type 0
  IsBounded rec = rec.claimed_at + r.cfg.tool_timeout + r.cfg.stale_grace ≤ deadline

  -- An open claim under the key is.
  abbrev pub IsBoundedAt : W → Type 0
  IsBoundedAt w =
      (rec : IdemRecord) → v.stored w ≡ some rec → is_resolved rec.state ≡ false → IsBounded rec

  Watched-IsBoundedAt : (w w' : W) → Watched w w' → IsBoundedAt w → IsBoundedAt w'
  Watched-IsBoundedAt w w' l h rec there open_claim = elim (l.not_renewed rec there) [
    | inl before ↦ h rec before open_claim
    | inr done ↦ absurd (cc (done, open_claim))
  ]

  module _ (c : Clocked) where
    -- Not earlier than t.
    abbrev Since : ℕ → W → Type 0
    Since t w = (t ≤ v.clock w) × IsBoundedAt w

    Watched-Since : (t : ℕ) (w w' : W) → Watched w w' → Since t w → Since t w'
    Watched-Since t w w' l p = (omega (arith, l.clock_grows, p.0), Watched-IsBoundedAt w w' l p.1)

    now-Triple : (t : ℕ) → Triple (Since t) rt.now (λ now w. (t ≤ now) × Since t w) (λ _. Unit)
    now-Triple t = record { run = λ w p. go w p (rt.now w) (c.now_later w) (c.now_reads w) }
      where
        go :
            (w : W)
            → Since t w
            → (x : Ran W ℕ) → Watched w (left x)
            → NowSpec v r x
            → Ends (λ now w'. (t ≤ now) × Since t w') (λ _. Unit) x
        go w p (returned now w') l s =
            (omega (arith, s, l.clock_grows, p.0), Watched-Since t w w' l p)
        go w p (raised e w') l s = tt
        go w p (crashed w') l s = tt

    sleep-Triple :
        (t : ℕ)
        → Triple
            (Since t)
            (try (rt.sleep poll_interval))
            (λ x w. elim x [ ok u ↦ Since (t + poll_interval) w | err e ↦ Unit ])
            (λ _. Unit)
    sleep-Triple t = Triple-try (rt.sleep poll_interval) (record {
      run = λ w p.
          go w p (rt.sleep poll_interval w) (c.sleep_later poll_interval w) (c.sleep_sleeps w);
    })
      where
        go :
            (w : W)
            → Since t w
            → (x : Ran W (Unit {0})) → Watched w (left x)
            → SleepSpec w x
            → Ends (λ u w'. Since (t + poll_interval) w') (λ _. Unit) x
        go w p (returned u w') l s = (omega (arith, s, p.0), Watched-IsBoundedAt w w' l p.1)
        go w p (raised e w') l s = tt
        go w p (crashed w') l s = tt

    stays_after :
        {A : Type 0} (t : ℕ) (m : Process W A)
        → ((w : W) → Watched w (left (m w)))
        → IsQuiet (Since t) m
    stays_after t m h = left-Triple m (λ w p. Watched-Since t w _ (h w) p)

    get-Triple :
        (t : ℕ)
        → Triple
            (Since t)
            (consult rt (store.get_record r.key))
            (λ found w.
              Since t w
              × ((rec : IdemRecord)
                  → found ≡ some rec
                  → is_resolved rec.state ≡ false
                  → IsBounded rec))
            (Since t)
    get-Triple t =
        consult-Triple rt (Since t) (stays_after t rt.ctx_done c.ctx_later)
          (λ d. stays_after t (rt.sleep d) (c.sleep_later d)) (store.get_record r.key)
          (record {
            run = λ w p. go w p (store.get_record r.key w) (c.get_later w) (c.get_reads w);
          })
      where
        go :
            (w : W)
            → Since t w
            → (x : Ran W (Option IdemRecord)) → Watched w (left x)
            → ReadSpec w x
            → Ends
                (λ found w'.
                  Since t w'
                  × ((rec : IdemRecord)
                      → found ≡ some rec
                      → is_resolved rec.state ≡ false
                      → IsBounded rec))
                (Since t)
                x
        go w p (returned found w') l s = (
          Watched-Since t w w' l p,
          λ rec there open_claim. elim (s rec there) [
            | inl before ↦ p.1 rec before open_claim
            | inr done ↦ absurd (cc (done, open_claim))
          ],
        )
        go w p (raised e w') l s = Watched-Since t w w' l p
        go w p (crashed w') l s = Watched-Since t w w' l p

    stale_by :
        (now : ℕ) (cur : IdemRecord) → IsBounded cur → deadline ≤ now → is_stale r now cur ≡ true
    unfolding is_stale is_past add_int
    stale_by now cur bound late = ground (arith, bound, late)

    -- With one round for every poll interval before a deadline by which the claim and the one under the
    -- key are stale, more fuel changes nothing: the loop has ended by itself. Time passes in a sleep and
    -- never goes back, a Get answers with the record under the key, and meanwhile nobody renews a claim,
    -- though its holder may resolve it.
    pub wait_until_settled-enough :
        (fuel more : ℕ) (cur : IdemRecord) (w : W)
        → fuel ≤ more
        → IsBounded cur
        → IsBoundedAt w
        → deadline ≤ v.clock w + fuel * poll_interval
        → wait_until_settled rt store r (suc more) cur w
          ≡ wait_until_settled rt store r (suc fuel) cur w
    unfolding wait_until_settled
    wait_until_settled-enough zero more cur w le bound at late =
        bind-same rt.now (now-Triple (v.clock w))
          (λ now w' q.
            agree_if (is_stale r now cur) _ _ _ w'
              (λ waits. absurd (cc (waits, stale_by now cur bound (omega (arith, q.0, late))))))
          w (omega arith, at)
    wait_until_settled-enough (suc fuel) zero cur w le bound at late = absurd (omega (arith, le))
    wait_until_settled-enough (suc fuel) (suc more) cur w le bound at late =
        bind-same rt.now (now-Triple (v.clock w))
          (λ now w1 q1. agree_if (is_stale r now cur) _ _ _ w1 (λ waits.
            bind-same (try (rt.sleep poll_interval)) (sleep-Triple (v.clock w))
              (λ slept w2 q2.
                agree_result slept _ _ _ _ w2 (λ e. refl)
                  (λ u done.
                    bind-same (consult rt (store.get_record r.key))
                      (get-Triple (v.clock w + poll_interval))
                      (λ found w3 q3. agree_option found _ _ _ _ w3 refl (λ rec there.
                        agree_both (describes r rec) _ _ _ w3 (
                          agree_if (is_resolved rec.state) _ _ _ w3 (λ open_claim.
                            wait_until_settled-enough fuel more rec w3 (omega (arith, le))
                              (q3.1 rec there open_claim) q3.0.1 (omega (arith, q3.0.0, late))))))
                      w2
                      (subst
                        (λ k. elim k as (λ _. Type 0) [
                          | ok u ↦ Since (v.clock w + poll_interval) w2
                          | err e ↦ Unit
                        ])
                        done q2)))
              w1 q1.1))
          w (omega arith, at)
