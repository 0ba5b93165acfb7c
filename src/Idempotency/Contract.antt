-- ===== src/Idempotency/Contract.antt =====
-- What the Guard relies on and this repository does not implement, or only promises in a comment: the
-- Store contract (internal/idempotency/store.go), Redis's expiry, the clock, fresh uuids, and the
-- contract of a tool (internal/tools/tool.go). It is stated for one key and one worker at a time: no
-- other process acts on the key during the call.
use durable_agent_execution.Json.{RawMessage}
use durable_agent_execution.Idempotency.Store.{Store}
use durable_agent_execution.Tools.{ReconcileResult, Invocation}
use durable_agent_execution.Idempotency.Retry.{Runtime}
use durable_agent_execution.Idempotency.Process.{Ran, returned, raised, left, crashed, Process}
use durable_agent_execution.Idempotency.Record.{IdemRecord, ClaimResult, CrashPoint}
use durable_agent_execution.Idempotency.Claims.{Run, expiry_margin}
use durable_agent_execution.Prelude.{
  ◌≡◌, none, some, ℕ, Option, ◌+◌, ◌≤◌, String, ◌⊎◌, inl, arith, ◌∙◌, ◌≢◌, suc, sym, inr, true,
  false, Option-cases,
}

-- How a world is seen: the clock, how often the tool's effect has happened under the key, the record
-- that the store holds under the key, and the moment at which this record expires.
pub record View (W : Type 0) : Type 0 where
  pub clock : W → ℕ
  pub deadline : W → ℕ
  pub effects : W → ℕ
  pub stored : W → Option IdemRecord

module _ {W : Type 0} (v : View W) (r : Run W) where
  -- The key can no longer be proof that the tool never ran.
  abbrev pub IsOld : W → Type 0
  IsOld w = r.tc.invoked_at + r.cfg.ttl ≤ v.clock w + expiry_margin

  -- What the key carried in w has expired by w'.
  abbrev pub IsOver : W → W → Type 0
  IsOver w w' = v.deadline w ≤ v.clock w'

  -- More than a time to live has passed.
  abbrev pub IsOutlived : W → W → Type 0
  IsOutlived w w' = v.clock w + r.cfg.ttl ≤ v.clock w'

  -- The key carries nothing, or what it carries expires.
  abbrev pub IsVacant : W → W → Type 0
  IsVacant w w' = (v.stored w ≡ none) ⊎ IsOver w w'

  -- The key keeps its record, unless this expires.
  abbrev pub IsLeft : W → W → Type 0
  IsLeft w w' =
      ((v.stored w' ≡ v.stored w) × (v.deadline w' ≡ v.deadline w))
      ⊎ ((v.stored w' ≡ none) × IsOver w w')

  -- Time goes on, no effect happens, and the key keeps its record.
  pub record Later (w w' : W) : Type 0 where
    pub clock_grows : v.clock w ≤ v.clock w'
    pub same_effects : v.effects w' ≡ v.effects w
    pub same_record : IsLeft w w'

  -- The same, but the key may carry another record than before: one that lives for the TTL from then
  -- on.
  pub record Written (w w' : W) : Type 0 where
    pub clock_grows : v.clock w ≤ v.clock w'
    pub same_effects : v.effects w' ≡ v.effects w
    pub still_there : v.stored w' ≡ none → IsVacant w w' ⊎ IsOutlived w w'
    pub lives :
        v.stored w' ≢ none
        → ((v.stored w ≢ none) × (v.deadline w ≤ v.deadline w'))
          ⊎ (v.clock w + r.cfg.ttl ≤ v.deadline w')

  -- The token is on no record under the key.
  abbrev pub IsUnseen : String → W → Type 0
  IsUnseen token w = (rec : IdemRecord) → v.stored w ≡ some rec → rec.claim_token ≢ token

  -- What a Claim of `mine` may come to: acquired, and then the key was absent; refused by the record
  -- that is there; or failed or died, with the record written or not.
  abbrev pub ClaimSpec : IdemRecord → W → Ran W ClaimResult → Type 0
  ClaimSpec mine w (returned res w') =
      Written w w'
      × (res.acquired ≡ true → IsVacant w w' × ((v.stored w' ≢ none) ⊎ IsOutlived w w'))
      × (res.acquired ≡ false → (ex : IdemRecord) → res.existing ≡ some ex → v.stored w ≡ some ex)
  ClaimSpec mine w (raised e w') =
      Written w w' × ((v.stored w' ≡ v.stored w) ⊎ IsVacant w w' ⊎ (v.stored w' ≡ none))
  ClaimSpec mine w (crashed w') =
      Written w w' × ((v.stored w' ≡ v.stored w) ⊎ IsVacant w w' ⊎ (v.stored w' ≡ none))

  abbrev pub NowSpec : Ran W ℕ → Type 0
  NowSpec (returned n w') = n ≡ v.clock w'
  NowSpec (raised e w') = Unit
  NowSpec (crashed w') = Unit

  abbrev pub UuidSpec : Ran W String → Type 0
  UuidSpec (returned token w') = IsUnseen token w'
  UuidSpec (raised e w') = Unit
  UuidSpec (crashed w') = Unit

  -- A Reconciler that answers "not applied" is right.
  abbrev pub AnswerSpec : Ran W ReconcileResult → Type 0
  AnswerSpec (returned a w') = a.applied ≡ false → v.effects w' ≡ 0
  AnswerSpec (raised e w') = Unit
  AnswerSpec (crashed w') = Unit

  -- An Execute makes the effect happen at most once, whatever it reports and wherever it dies.
  pub record Effected (w w' : W) : Type 0 where
    pub clock_grows : v.clock w ≤ v.clock w'
    pub at_most_one_more : v.effects w' ≤ suc (v.effects w)
    pub same_record : IsLeft w w'

  pub record Contract (rt : Runtime W) (store : Store W) : Type 0 where
    pub now_later : (w : W) → Later w (left (rt.now w))
    pub now_reads : (w : W) → NowSpec (rt.now w)
    pub sleep_later : (d : ℕ) (w : W) → Later w (left (rt.sleep d w))
    pub ctx_later : (w : W) → Later w (left (rt.ctx_done w))
    pub uuid_later : (w : W) → Later w (left (rt.new_uuid w))
    pub uuid_fresh : (w : W) → UuidSpec (rt.new_uuid w)
    pub crash_later :
        (tool : String) (p : CrashPoint) (w : W) → Later w (left (rt.crash_at tool p w))
    pub claim_spec : (mine : IdemRecord) (w : W) → ClaimSpec mine w (store.claim r.key mine w)
    pub get_later : (w : W) → Later w (left (store.get_record r.key w))
    pub resolve_written :
        (token : String) (rec : IdemRecord) (w : W)
        → Written w (left (store.resolve r.key token rec w))
    pub take_over_written :
        (token : String) (rec : IdemRecord) (w : W)
        → Written w (left (store.take_over r.key token rec w))
    pub ask_later :
        (ask : Invocation → RawMessage → Process W ReconcileResult)
        → r.tool.reconcile ≡ some ask
        → (w : W) → Later w (left (ask r.inv r.tc.tool_args w))
    pub ask_truthful :
        (ask : Invocation → RawMessage → Process W ReconcileResult)
        → r.tool.reconcile ≡ some ask
        → (w : W) → AnswerSpec (ask r.inv r.tc.tool_args w)
    pub execute_effected : (w : W) → Effected w (left (r.tool.execute r.inv r.tc.tool_args w))

  -- The key is held: it carries a record, or is too old to be proof of anything.
  abbrev pub IsHeld : W → Type 0
  IsHeld w = v.stored w ≡ none → IsOld w

  -- The call was journaled before, and a record under the key lives for the TTL from then on.
  pub record IsTimed (w : W) : Type 0 where
    pub started : r.tc.invoked_at ≤ v.clock w
    pub lasts : v.stored w ≢ none → r.tc.invoked_at + r.cfg.ttl ≤ v.deadline w

  -- At most one effect, and none that the key does not account for.
  pub record IsFenced (w : W) : Type 0 where
    pub at_most_once : v.effects w ≤ 1
    pub accounted : (v.effects w ≡ 0) ⊎ IsHeld w
    pub timed : IsTimed w

  -- We hold a claim on a key that was absent.
  pub record IsOwn (w : W) : Type 0 where
    pub fenced : IsFenced w
    pub held : IsHeld w
    pub clean : (v.effects w ≡ 0) ⊎ IsOld w

  -- The key is held and nothing has happened under it.
  pub record IsClean (w : W) : Type 0 where
    pub held : IsHeld w
    pub none_yet : v.effects w ≡ 0
    pub timed : IsTimed w

  pub record IsKept (w : W) : Type 0 where
    pub fenced : IsFenced w
    pub held : IsHeld w

  -- A key that expires is too old to be proof of anything.
  pub IsOld-over :
      (w w' : W) → v.clock w ≤ v.clock w' → IsTimed w → IsHeld w → IsOver w w' → IsOld w'
  IsOld-over w w' grows t h over = elim (Option-cases (v.stored w)) [
    | inl gone ↦ omega (arith, grows, h gone)
    | inr (rec, there) ↦ omega (arith, over, t.lasts (λ gone. absurd (cc (there, gone))))
  ]

  pub IsOld-vacant :
      (w w' : W) → v.clock w ≤ v.clock w' → IsTimed w → IsHeld w → IsVacant w w' → IsOld w'
  IsOld-vacant w w' grows t h (inl gone) = omega (arith, grows, h gone)
  IsOld-vacant w w' grows t h (inr over) = IsOld-over w w' grows t h over

  pub IsTimed-left : (w w' : W) → v.clock w ≤ v.clock w' → IsLeft w w' → IsTimed w → IsTimed w'
  IsTimed-left w w' grows left t = record {
    started = omega (arith, t.started);
    lasts = λ there. elim left [
      | inl same ↦ omega (arith, same.1, t.lasts (λ gone. absurd (there (same.0 ∙ gone))))
      | inr gone ↦ absurd (there gone.0)
    ];
  }

  pub IsHeld-left :
      (w w' : W) → v.clock w ≤ v.clock w' → IsLeft w w' → IsTimed w → IsHeld w → IsHeld w'
  IsHeld-left w w' grows left t h gone = elim left [
    | inl same ↦ omega (arith, grows, h (sym same.0 ∙ gone))
    | inr over ↦ IsOld-over w w' grows t h over.1
  ]

  pub IsTimed-Written : {w w' : W} → Written w w' → IsTimed w → IsTimed w'
  IsTimed-Written l t = record {
    started = omega (arith, l.clock_grows, t.started);
    lasts = λ there. elim (l.lives there) [
      | inl kept ↦ omega (arith, kept.1, t.lasts kept.0)
      | inr fresh ↦ omega (arith, fresh, t.started)
    ];
  }

  IsHeld-Written : {w w' : W} → Written w w' → IsTimed w → IsHeld w → IsHeld w'
  IsHeld-Written {w} {w'} l t h n = elim (l.still_there n) [
    | inl vacant ↦ IsOld-vacant w w' l.clock_grows t h vacant
    | inr outlived ↦ omega (arith, outlived, t.started)
  ]

  pub Later→Written : {w w' : W} → Later w w' → Written w w'
  Later→Written {w} {w'} l = record {
    clock_grows = l.clock_grows;
    same_effects = l.same_effects;
    still_there =
        λ n. inl (elim l.same_record [ inl same ↦ inl (sym same.0 ∙ n) | inr gone ↦ inr gone.1 ]);
    lives = λ there. elim l.same_record [
      | inl same ↦ inl (λ gone. absurd (there (same.0 ∙ gone)), omega (arith, same.1))
      | inr gone ↦ absurd (there gone.0)
    ];
  }

  pub IsFenced-Written : {w w' : W} → Written w w' → IsFenced w → IsFenced w'
  IsFenced-Written l f = record {
    at_most_once = omega (arith, l.same_effects, f.at_most_once);
    accounted = elim f.accounted [
      | inl zero_yet ↦ inl (l.same_effects ∙ zero_yet)
      | inr held ↦ inr (IsHeld-Written l f.timed held)
    ];
    timed = IsTimed-Written l f.timed;
  }

  pub IsOwn-Written : {w w' : W} → Written w w' → IsOwn w → IsOwn w'
  IsOwn-Written l o = record {
    fenced = IsFenced-Written l o.fenced;
    held = IsHeld-Written l o.fenced.timed o.held;
    clean = elim o.clean [
      | inl zero_yet ↦ inl (l.same_effects ∙ zero_yet)
      | inr old ↦ inr (omega (arith, l.clock_grows, old))
    ];
  }

  pub IsClean-Written : {w w' : W} → Written w w' → IsClean w → IsClean w'
  IsClean-Written l c = record {
    held = IsHeld-Written l c.timed c.held;
    none_yet = l.same_effects ∙ c.none_yet;
    timed = IsTimed-Written l c.timed;
  }

  pub IsKept-Written : {w w' : W} → Written w w' → IsKept w → IsKept w'
  IsKept-Written l k = record {
    fenced = IsFenced-Written l k.fenced;
    held = IsHeld-Written l k.fenced.timed k.held;
  }
