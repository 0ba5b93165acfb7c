-- ===== src/Idempotency/Claiming.antt =====
-- The retries of Claim in internal/idempotency/guard.go: an attempt whose answer was lost may have
-- taken the key, and a later one finds our own token on it.
use durable_agent_execution.Idempotency.Triple.{Triple, Ends}
use durable_agent_execution.Idempotency.Store.{Store}
use durable_agent_execution.Idempotency.Retry.{Runtime}
use durable_agent_execution.Idempotency.Record.{IdemRecord, ClaimResult}
use durable_agent_execution.Idempotency.Contract.{
  IsVacant, IsOutlived, IsOld-vacant, View, IsFenced, IsUnseen, Later, Written, IsFenced-Written,
  IsOwn, IsKept, Contract, Later→Written, IsKept-Written, IsOwn-Written, ClaimSpec,
}
use durable_agent_execution.Prelude.{
  ◌≡◌, none, some, String, ◌⊎◌, true, sym, false, ◌∙◌, inl, inr, arith, Option-cases, ◌≢◌,
}
use durable_agent_execution.Idempotency.Process.{Ran, returned, raised, crashed}
use durable_agent_execution.Idempotency.Claims.{Run}

module _ {W : Type 0} (v : View W) (r : Run W) where
  -- While the claim with this token is tried: the token is on no record, or the key is ours.
  abbrev pub IsClaiming : String → W → Type 0
  IsClaiming token w = IsFenced v r w × (IsUnseen v r token w ⊎ IsOwn v r w)

  -- What a claim that returned has shown.
  abbrev pub IsClaimed : IdemRecord → ClaimResult → W → Type 0
  IsClaimed mine res w =
      IsFenced v r w
      × (res.acquired ≡ true → IsOwn v r w)
      × (res.acquired ≡ false
          → (ex : IdemRecord) → res.existing ≡ some ex
          → IsKept v r w × (ex.claim_token ≡ mine.claim_token → IsOwn v r w))

  pub IsUnseen-same :
      (token : String) {w w' : W}
      → v.stored w' ≡ v.stored w
      → IsUnseen v r token w
      → IsUnseen v r token w'
  IsUnseen-same token same u rec e = u rec (sym same ∙ e)

  IsUnseen-gone : (token : String) {w : W} → v.stored w ≡ none → IsUnseen v r token w
  IsUnseen-gone token gone rec e = absurd (cc (gone, e))

  pub IsClaiming-Later :
      (token : String) {w w' : W} → Later v r w w' → IsClaiming token w → IsClaiming token w'
  IsClaiming-Later token l j = (
    IsFenced-Written v r (Later→Written v r l) j.0,
    elim j.1 [
      | inl unseen ↦ elim l.same_record [
        | inl same ↦ inl (IsUnseen-same token same.0 unseen)
        | inr gone ↦ inl (IsUnseen-gone token gone.0)
      ]
      | inr own ↦ inr (IsOwn-Written v r (Later→Written v r l) own)
    ],
  )

  -- A write into a vacant key makes it ours.
  IsOwn-vacant :
      {w w' : W}
      → Written v r w w'
      → IsFenced v r w
      → IsVacant v r w w'
      → (v.stored w' ≢ none) ⊎ IsOutlived v r w w'
      → IsOwn v r w'
  IsOwn-vacant {w} {w'} l f vacant there = record {
    fenced = IsFenced-Written v r l f;
    held = λ gone. elim there [
      | inl stands ↦ absurd (stands gone)
      | inr outlived ↦ omega (arith, outlived, f.timed.started)
    ];
    clean = elim f.accounted [
      | inl zero_yet ↦ inl (l.same_effects ∙ zero_yet)
      | inr held ↦ inr (IsOld-vacant v r w w' l.clock_grows f.timed held vacant)
    ];
  }

  IsClaiming-Written :
      (token : String) {w w' : W}
      → Written v r w w'
      → (v.stored w' ≡ v.stored w) ⊎ IsVacant v r w w' ⊎ (v.stored w' ≡ none)
      → IsClaiming token w
      → IsClaiming token w'
  IsClaiming-Written token {w' = w'} l how j = (
    IsFenced-Written v r l j.0,
    elim j.1 [
      | inr own ↦ inr (IsOwn-Written v r l own)
      | inl unseen ↦ elim how [
        | inl same ↦ inl (IsUnseen-same token same unseen)
        | inr (inr gone) ↦ inl (IsUnseen-gone token gone)
        | inr (inl vacant) ↦ elim (Option-cases (v.stored w')) [
          | inl gone ↦ inl (IsUnseen-gone token gone)
          | inr there ↦ inr (IsOwn-vacant l j.0 vacant (inl (λ gone. absurd (cc (there.1, gone)))))
        ]
      ]
    ],
  )

  IsKept-there :
      {w w' : W} {rec : IdemRecord}
      → Written v r w w'
      → IsFenced v r w
      → v.stored w ≡ some rec
      → IsKept v r w'
  IsKept-there l f there =
      IsKept-Written v r l (record { fenced = f; held = λ gone. absurd (cc (there, gone)) })

  module _ (rt : Runtime W) (store : Store W) (c : Contract v r rt store) where
    pub claim-Triple :
        (mine : IdemRecord)
        → Triple
            (IsClaiming mine.claim_token)
            (store.claim r.key mine)
            (IsClaimed mine)
            (IsClaiming mine.claim_token)
    claim-Triple mine = record {
      run = λ w j. go w j (store.claim r.key mine w) (c.claim_spec mine w);
    }
      where
        go :
            (w : W)
            → IsClaiming mine.claim_token w
            → (x : Ran W ClaimResult) → ClaimSpec v r mine w x
            → Ends (IsClaimed mine) (IsClaiming mine.claim_token) x
        go w j (returned res w') s = (
          IsFenced-Written v r s.0 j.0,
          λ yes_acquired. IsOwn-vacant s.0 j.0 (s.1 yes_acquired).0 (s.1 yes_acquired).1,
          λ refused ex there.
              let was = s.2 refused ex there in
              (
                IsKept-there s.0 j.0 was,
                λ same_token. elim j.1 [
                  | inl unseen ↦ absurd (unseen ex was same_token)
                  | inr own ↦ IsOwn-Written v r s.0 own
                ],
              ),
        )
        go w j (raised e w') s = IsClaiming-Written mine.claim_token s.0 s.1 j
        go w j (crashed w') s = IsClaiming-Written mine.claim_token s.0 s.1 j
