-- ===== src/Projector/Committed.antt =====
-- cmd/projector/main.go: an offset is committed only after its event is in Postgres.
use durable_agent_execution.Errors.{Error}
use durable_agent_execution.Idempotency.Triple.{
  Triple, Ends, Triple-raise, Triple-pure, Triple-if, Triple-bind, Triple-try, left-Triple,
}
use durable_agent_execution.Prelude.{
  ℕ, suc, ◌≡◌, ◌<◌, ◌≤◌, ◌≢◌, ok, Bool, ◌⊎◌, arith, subst, inr, inl, sym, ap, ◌∙◌, Result, err,
  zero,
}
use durable_agent_execution.Json.{Bytes}
use durable_agent_execution.Events.{Envelope}
use durable_agent_execution.Events.Codec.{decode, TimeText}
use durable_agent_execution.Idempotency.Process.{Ran, returned, raised, crashed, left, Process}
use durable_agent_execution.Store.Projection.{Database, apply_event}
use durable_agent_execution.Projector.{
  Consumer, Message, apply_with_retry, Error, after_apply, is_conflict, is_transient_error,
  next_db_backoff,
}
use durable_agent_execution.Projector.Known.{
  IsProjected, IsProjected-apply_event, apply_event-IsProjected,
}

-- How a world is seen: the tables, and per partition the offset that the group has committed and the
-- one that the reader fetches next.
pub record Watch (W : Type 0) : Type 0 where
  pub db : W → Database
  pub committed : W → ℕ → ℕ
  pub position : W → ℕ → ℕ

module _ {W : Type 0} (v : Watch W) (text : TimeText) (log : ℕ → ℕ → Bytes) where
  -- The message at this place decodes, and its event is in the table.
  abbrev pub IsStored : Database → ℕ → ℕ → Type 0
  IsStored db p i = (e : Envelope) × (decode text (log p i) ≡ ok e) × IsProjected db e

  -- No committed message is missing.
  abbrev pub IsComplete : W → Type 0
  IsComplete w = (p i : ℕ) → i < v.committed w p → IsStored (v.db w) p i

  -- Nor one that the reader is past.
  abbrev pub IsCaughtUp : W → Type 0
  IsCaughtUp w =
      ((p i : ℕ) → i < v.position w p → IsStored (v.db w) p i)
      × ((p : ℕ) → v.committed w p ≤ v.position w p)

  abbrev pub Aside : W → W → Type 0
  Aside w w' =
      (v.db w' ≡ v.db w) × (v.committed w' ≡ v.committed w) × (v.position w' ≡ v.position w)

  -- A fetch returns the message at the reader's place and moves on.
  abbrev pub FetchSpec : W → Ran W Message → Type 0
  FetchSpec w (returned m w') =
      (m.value ≡ log m.partition m.offset)
      × (v.position w m.partition ≡ m.offset)
      × (v.position w' m.partition ≡ suc m.offset)
      × ((p : ℕ) → p ≢ m.partition → v.position w' p ≡ v.position w p)
      × (v.db w' ≡ v.db w)
      × (v.committed w' ≡ v.committed w)
  FetchSpec w (raised e w') = Aside w w'
  FetchSpec w (crashed w') = Aside w w'

  -- ApplyEvent is one transaction: without an answer, it happened or it did not.
  abbrev pub ApplySpec : Envelope → W → Ran W Bool → Type 0
  ApplySpec e w (returned b w') =
      (apply_event (v.db w) e ≡ ok (v.db w', b))
      × (v.committed w' ≡ v.committed w)
      × (v.position w' ≡ v.position w)
  ApplySpec e w (raised x w') =
      ((v.db w' ≡ v.db w) ⊎ ((b : Bool) × (apply_event (v.db w) e ≡ ok (v.db w', b))))
      × (v.committed w' ≡ v.committed w)
      × (v.position w' ≡ v.position w)
  ApplySpec e w (crashed w') =
      ((v.db w' ≡ v.db w) ⊎ ((b : Bool) × (apply_event (v.db w) e ≡ ok (v.db w', b))))
      × (v.committed w' ≡ v.committed w)
      × (v.position w' ≡ v.position w)

  -- A commit moves the partition's offset past the message, or, without an answer, leaves it.
  abbrev pub Moved : Message → W → W → Type 0
  Moved m w w' =
      (v.db w' ≡ v.db w)
      × (v.position w' ≡ v.position w)
      × ((p : ℕ)
          → (v.committed w' p ≡ v.committed w p)
            ⊎ ((p ≡ m.partition) × (v.committed w' p ≡ suc m.offset)))

  pub record IsConsuming (consumer : Consumer W) : Type 0 where
    pub same_text : consumer.text ≡ text
    pub fetch_spec : (w : W) → FetchSpec w (consumer.fetch w)
    pub apply_spec : (e : Envelope) (w : W) → ApplySpec e w (consumer.apply_event e w)
    pub commit_moves : (m : Message) (w : W) → Moved m w (left (consumer.commit m w))
    pub wait_aside : (d : ℕ) (w : W) → Aside w (left (consumer.wait d w))

  abbrev pub Looks : (Database → (ℕ → ℕ) → (ℕ → ℕ) → Type 0) → W → Type 0
  Looks P w = P (v.db w) (v.committed w) (v.position w)

  pub Looks-Aside :
      (P : Database → (ℕ → ℕ) → (ℕ → ℕ) → Type 0) (w w' : W) → Aside w w' → Looks P w → Looks P w'
  Looks-Aside P w w' same h =
      subst (λ d. P d (v.committed w') (v.position w')) (sym same.0)
        (subst (λ c. P (v.db w) c (v.position w')) (sym same.1)
          (subst (λ q. P (v.db w) (v.committed w) q) (sym same.2) h))

  -- The message at hand is fetched and not projected yet.
  abbrev pub Fetched : Message → Database → (ℕ → ℕ) → (ℕ → ℕ) → Type 0
  Fetched m db done_to pos =
      ((p i : ℕ) → i < pos p → ((p ≡ m.partition) × (i ≡ m.offset)) ⊎ IsStored db p i)
      × ((p : ℕ) → done_to p ≤ pos p)
      × (done_to m.partition ≤ m.offset)
      × (pos m.partition ≡ suc m.offset)

  -- It is projected.
  abbrev pub Projected : Message → Database → (ℕ → ℕ) → (ℕ → ℕ) → Type 0
  Projected m db done_to pos =
      ((p i : ℕ) → i < pos p → IsStored db p i)
      × ((p : ℕ) → done_to p ≤ pos p)
      × (pos m.partition ≡ suc m.offset)

  -- A try of ApplyEvent that failed may have done either.
  abbrev pub Midway : Message → Database → (ℕ → ℕ) → (ℕ → ℕ) → Type 0
  Midway m db done_to pos = Fetched m db done_to pos ⊎ Projected m db done_to pos

  pub IsCaughtUp→IsComplete : (w : W) → IsCaughtUp w → IsComplete w
  IsCaughtUp→IsComplete w h p i below = h.0 p i (omega (arith, below, h.1 p))

  pub Midway→IsComplete : (m : Message) (w : W) → Looks (Midway m) w → IsComplete w
  Midway→IsComplete m w (inr h) p i below = h.0 p i (omega (arith, below, h.1 p))
  Midway→IsComplete m w (inl h) p i below = elim (h.0 p i (omega (arith, below, h.1 p))) [
    | inr stored ↦ stored
    | inl (same_p, same_i) ↦
        let lower : v.committed w p ≤ m.offset =
          subst (λ q. v.committed w q ≤ m.offset) (sym same_p) h.2 in
        absurd (omega (arith, below, same_i, lower))
  ]

  module _ (m : Message) (e : Envelope)
      (reads : decode text (log m.partition m.offset) ≡ ok e) where
    IsStored-grows :
        (db next : Database) (b : Bool)
        → apply_event db e ≡ ok (next, b)
        → (p i : ℕ) → IsStored db p i
        → IsStored next p i
    IsStored-grows db next b done p i (x, decodes, h) =
        (x, decodes, IsProjected-apply_event db next e b done x h)

    at_hand :
        (db next : Database) (b : Bool)
        → apply_event db e ≡ ok (next, b)
        → (p i : ℕ) → ((p ≡ m.partition) × (i ≡ m.offset)) ⊎ IsStored db p i
        → IsStored next p i
    at_hand db next b done p i (inl (same_p, same_i)) = (
      e,
      ap (λ q. decode text (log q i)) same_p
          ∙ ap (λ j. decode text (log m.partition j)) same_i
          ∙ reads,
      apply_event-IsProjected db next e b done,
    )
    at_hand db next b done p i (inr stored) = IsStored-grows db next b done p i stored

    Projected-apply_event :
        (db next : Database) (b : Bool) (done_to pos : ℕ → ℕ)
        → apply_event db e ≡ ok (next, b)
        → Midway m db done_to pos
        → Projected m next done_to pos
    Projected-apply_event db next b done_to pos done (inl h) =
        (λ p i below. at_hand db next b done p i (h.0 p i below), h.1, h.3)
    Projected-apply_event db next b done_to pos done (inr h) =
        (λ p i below. IsStored-grows db next b done p i (h.0 p i below), h.1, h.2)

    applied_view :
        (w w' : W) (b : Bool)
        → apply_event (v.db w) e ≡ ok (v.db w', b)
        → v.committed w' ≡ v.committed w
        → v.position w' ≡ v.position w
        → Looks (Midway m) w
        → Looks (Projected m) w'
    applied_view w w' b done done_to pos h =
        subst (λ c. Projected m (v.db w') c (v.position w')) (sym done_to)
          (subst (λ q. Projected m (v.db w') (v.committed w) q) (sym pos)
            (Projected-apply_event (v.db w) (v.db w') b (v.committed w) (v.position w) done h))

    module _ (consumer : Consumer W) (c : IsConsuming consumer) where
      apply-Triple :
          Triple
            (Looks (Midway m))
            (consumer.apply_event e)
            (λ _. Looks (Projected m))
            (Looks (Midway m))
      apply-Triple = record { run = λ w h. go w h (consumer.apply_event e w) (c.apply_spec e w) }
        where
          unclear :
              (w w' : W)
              → (v.db w' ≡ v.db w) ⊎ ((b : Bool) × (apply_event (v.db w) e ≡ ok (v.db w', b)))
              → v.committed w' ≡ v.committed w
              → v.position w' ≡ v.position w
              → Looks (Midway m) w
              → Looks (Midway m) w'
          unclear w w' (inl same) done_to pos h = Looks-Aside (Midway m) w w' (same, done_to, pos) h
          unclear w w' (inr (b, done)) done_to pos h = inr (applied_view w w' b done done_to pos h)

          go :
              (w : W)
              → Looks (Midway m) w
              → (x : Ran W Bool) → ApplySpec e w x
              → Ends (λ _. Looks (Projected m)) (Looks (Midway m)) x
          go w h (returned b w') s = applied_view w w' b s.0 s.1 s.2 h
          go w h (raised x w') s = unclear w w' s.0 s.1 s.2 h
          go w h (crashed w') s = unclear w w' s.0 s.1 s.2 h

      after_apply-Triple :
          {again : Process W Bool}
          → Triple (Looks (Midway m)) again (λ _. Looks (Projected m)) (Looks (Midway m))
          → (x : Result Error Bool)
          → Triple
              (λ w. elim x as (λ _. Type 0) [
                | ok a ↦ Looks (Projected m) w
                | err y ↦ Looks (Midway m) w
              ])
              (after_apply consumer again x)
              (λ _. Looks (Projected m))
              (Looks (Midway m))
      unfolding after_apply
      after_apply-Triple t (ok b) = Triple-pure _ (λ w h. h)
      after_apply-Triple t (err x) =
          Triple-if (is_conflict x) _ _ (λ _. Triple-raise x (λ w h. h))
            (λ _. Triple-if (is_transient_error x) _ _ (λ _. t) (λ _. Triple-raise x (λ w h. h)))

      pub apply_with_retry-Triple :
          (fuel backoff : ℕ)
          → Triple
              (Looks (Midway m))
              (apply_with_retry consumer fuel backoff e)
              (λ _. Looks (Projected m))
              (Looks (Midway m))
      unfolding apply_with_retry
      apply_with_retry-Triple zero backoff = Triple-raise _ (λ w h. h)
      apply_with_retry-Triple (suc fuel) backoff = Triple-bind _ _ (Triple-try _ apply-Triple) (
          after_apply-Triple (
            Triple-bind _ _
              (left-Triple (consumer.wait backoff)
                (λ w h. Looks-Aside (Midway m) w _ (c.wait_aside backoff w) h))
              (λ t. apply_with_retry-Triple fuel (next_db_backoff backoff))))
