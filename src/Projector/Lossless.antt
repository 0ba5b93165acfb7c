-- ===== src/Projector/Lossless.antt =====
-- consumeLoop of cmd/projector/main.go, over restarts: no event between Kafka and Postgres is lost.
use durable_agent_execution.Prelude.{
  ℕ, zero, suc, ◌≡◌, ◌<◌, ◌≤◌, List, [], ◌∷◌, Option, none, some, Result, ok, err, Bool, ◌⊎◌, inl,
  inr, arith, ap, sym, ◌∙◌, subst, All, ltb, ◌&&◌, ◌==◌,
}
use native.Mathlib.Decide.{ℕ_discrete}
use durable_agent_execution.Errors.{Error}
use durable_agent_execution.Json.{Bytes}
use durable_agent_execution.Events.{Envelope}
use durable_agent_execution.Events.Codec.{decode, TimeText}
use durable_agent_execution.Idempotency.Process.{
  Process, Ran, returned, raised, crashed, left, exit,
}
use durable_agent_execution.Idempotency.Triple.{
  Triple, Ends, Triple-bind, Triple-pure, Triple-post, Triple-pre, Triple-raise, Triple-if,
  Triple-try, left-Triple, left-end, Triple-given,
}
use durable_agent_execution.Projector.{
  Consumer, Message, consume_loop, after_fetch, after_decode, after_projected, after_commit,
  after_round, db_retry_initial_backoff,
}
use durable_agent_execution.Projector.Committed.{
  Watch, IsStored, IsComplete, IsCaughtUp, Aside, FetchSpec, Moved, IsConsuming, Looks, Fetched,
  Projected, Midway, IsCaughtUp→IsComplete, Midway→IsComplete, apply_with_retry-Triple, Looks-Aside,
}

module _ {W : Type 0} (v : Watch W) (text : TimeText) (log : ℕ → ℕ → Bytes) where
  abbrev Caught : W → Type 0
  Caught w = IsCaughtUp v text log w

  abbrev Complete : W → Type 0
  Complete w = IsComplete v text log w

  -- After a round: ready for the next message, or the process ends.
  abbrev Rounded : Option ℕ → W → Type 0
  Rounded none w = Caught w
  Rounded (some code) w = Complete w

  -- A message that the reader has fetched.
  abbrev Handed : Message → W → Type 0
  Handed m w = Looks v text log (Fetched v text log m) w × (m.value ≡ log m.partition m.offset)

  IsCaughtUp-Moved :
      (m : Message) (w w' : W)
      → Moved v text log m w w'
      → Looks v text log (Projected v text log m) w
      → Caught w'
  IsCaughtUp-Moved m w w' moved h = (stored, below)
    where
      stored : (p i : ℕ) → i < v.position w' p → IsStored v text log (v.db w') p i
      stored p i less =
          subst (λ d. IsStored v text log d p i) (sym moved.0)
            (h.0 p i (subst (λ q. i < q p) moved.1 less))

      below : (p : ℕ) → v.committed w' p ≤ v.position w' p
      below p = elim (moved.2 p) [
        | inl same ↦ omega (arith, same, h.1 p, ap (λ q. q p) moved.1)
        | inr (is, new) ↦ omega (arith, new, h.2, ap (λ q. q p) moved.1, ap (v.position w) is)
      ]

  Fetched-fetch :
      (m : Message) (w w' : W) → FetchSpec v text log w (returned m w') → Caught w → Handed m w'
  Fetched-fetch m w w' s h =
      ((stored, below, omega (arith, ap (λ q. q m.partition) s.5, h.1 m.partition, s.1), s.2), s.0)
    where
      stored :
          (p i : ℕ)
          → i < v.position w' p
          → ((p ≡ m.partition) × (i ≡ m.offset)) ⊎ IsStored v text log (v.db w') p i
      stored p i less = elim (ℕ_discrete p m.partition) [
        | yes is ↦ elim (ℕ_discrete i m.offset) [
          | yes same ↦ inl (is, same)
          | no other ↦ inr (
              subst (λ d. IsStored v text log d p i) (sym s.4)
                (h.0 p i (
                  omega
                    (arith, less, other, s.1, s.2, ap (v.position w) is, ap (v.position w') is))))
        ]
        | no other ↦ inr (
            subst (λ d. IsStored v text log d p i) (sym s.4)
              (h.0 p i (subst (λ n. i < n) (s.3 p other) less)))
      ]

      below : (p : ℕ) → v.committed w' p ≤ v.position w' p
      below p = elim (ℕ_discrete p m.partition) [
        | yes is ↦
            omega (
              arith,
              ap (λ q. q p) s.5,
              h.1 p,
              s.1,
              s.2,
              ap (v.position w) is,
              ap (v.position w') is,
            )
        | no other ↦ omega (arith, ap (λ q. q p) s.5, h.1 p, s.3 p other)
      ]

  Complete-Aside : (w w' : W) → Aside v text log w w' → Caught w → Caught w'
  Complete-Aside w w' same h =
      Looks-Aside v text log
        (λ db done_to pos.
          ((p i : ℕ) → i < pos p → IsStored v text log db p i) × ((p : ℕ) → done_to p ≤ pos p))
        w w' same h

  module _ (consumer : Consumer W) (c : IsConsuming v text log consumer) where
    fetch-Triple : Triple Caught consumer.fetch Handed Caught
    fetch-Triple = record { run = λ w h. go w h (consumer.fetch w) (c.fetch_spec w) }
      where
        go :
            (w : W)
            → Caught w
            → (x : Ran W Message) → FetchSpec v text log w x
            → Ends Handed Caught x
        go w h (returned m w') s = Fetched-fetch m w w' s h
        go w h (raised e w') s = Complete-Aside w w' s h
        go w h (crashed w') s = Complete-Aside w w' s h

    after_commit-Triple :
        (x : Result Error Unit)
        → Triple
            (λ w. elim x as (λ _. Type 0) [ ok a ↦ Caught w | err y ↦ Caught w ])
            (after_commit consumer x)
            Rounded
            Complete
    unfolding after_commit
    after_commit-Triple (ok t) = Triple-pure _ (λ w h. h)
    after_commit-Triple (err e) = Triple-pure _ (λ w h. IsCaughtUp→IsComplete v text log w h)

    after_projected-Triple :
        (crash_before consumed : ℕ) (m : Message) (x : Result Error Bool)
        → Triple
            (λ w. elim x as (λ _. Type 0) [
              | ok a ↦ Looks v text log (Projected v text log m) w
              | err y ↦ Looks v text log (Midway v text log m) w
            ])
            (after_projected consumer crash_before consumed m x)
            Rounded
            Complete
    unfolding after_projected exit
    after_projected-Triple crash_before consumed m (err e) =
        Triple-pure _ (λ w h. Midway→IsComplete v text log m w h)
    after_projected-Triple crash_before consumed m (ok b) =
        Triple-if (ltb 0 crash_before && consumed == crash_before) _ _
          (λ _. record { run = λ w h. Midway→IsComplete v text log m w (inr h) })
          (λ _.
            Triple-bind _ _
              (Triple-post _ (λ a w h. h) (λ w h. IsCaughtUp→IsComplete v text log w h)
                (Triple-try (consumer.commit m) (
                  left-Triple (consumer.commit m)
                    (λ w h. IsCaughtUp-Moved m w _ (c.commit_moves m w) h))))
              after_commit-Triple)

    after_decode-decoded :
        (fuel crash_before consumed : ℕ) (m : Message) (x : Result Error Envelope)
        → decode text (log m.partition m.offset) ≡ x
        → Triple
            (Looks v text log (Fetched v text log m))
            (after_decode consumer fuel crash_before consumed m x)
            Rounded
            Complete
    unfolding after_decode
    after_decode-decoded fuel crash_before consumed m (err e) reads =
        Triple-pure _ (λ w h. Midway→IsComplete v text log m w (inl h))
    after_decode-decoded fuel crash_before consumed m (ok e) reads =
        Triple-bind _ _
          (Triple-pre (λ w h. inl h)
            (Triple-post _ (λ x w h. h) (Midway→IsComplete v text log m)
              (Triple-try _ (
                apply_with_retry-Triple v text log m e reads consumer c fuel
                  db_retry_initial_backoff))))
          (λ x. rest x)
      where
        rest :
            (x : Result Error Bool)
            → Triple
                (λ w. elim x as (λ _. Type 0) [
                  | ok a ↦ Looks v text log (Projected v text log m) w
                  | err y ↦ Looks v text log (Midway v text log m) w
                ])
                (after_projected consumer crash_before (suc consumed) m x)
                Rounded
                Complete
        rest x = after_projected-Triple crash_before (suc consumed) m x

    after_decode-Triple :
        (fuel crash_before consumed : ℕ) (m : Message)
        → Triple
            (Handed m)
            (after_decode consumer fuel crash_before consumed m (decode consumer.text m.value))
            Rounded
            Complete
    after_decode-Triple fuel crash_before consumed m = Triple-given (λ w h.
        Triple-pre (λ u k. k.0)
          (after_decode-decoded fuel crash_before consumed m _
            (sym (ap (λ t. decode t m.value) c.same_text ∙ ap (decode text) h.1))))

    after_fetch-Triple :
        (fuel crash_before consumed : ℕ) (x : Result Error Message)
        → Triple
            (λ w. elim x as (λ _. Type 0) [ ok m ↦ Handed m w | err y ↦ Caught w ])
            (after_fetch consumer fuel crash_before consumed x)
            Rounded
            Complete
    unfolding after_fetch
    after_fetch-Triple fuel crash_before consumed (ok m) =
        after_decode-Triple fuel crash_before consumed m
    after_fetch-Triple fuel crash_before consumed (err e) =
        Triple-pure _ (λ w h. IsCaughtUp→IsComplete v text log w h)

    after_round-Triple :
        (more : ℕ → Process W ℕ) (consumed : ℕ)
        → ((n : ℕ) → Triple Caught (more n) (λ _. Complete) Complete)
        → (x : Option ℕ)
        → Triple (Rounded x) (after_round consumer more consumed x) (λ _. Complete) Complete
    unfolding after_round
    after_round-Triple more consumed t none = t (suc consumed)
    after_round-Triple more consumed t (some code) = Triple-pure _ (λ w h. h)

    consume_loop-Triple :
        (rounds fuel crash_before consumed : ℕ)
        → Triple Caught
            (consume_loop consumer rounds fuel crash_before consumed)
            (λ _. Complete)
            Complete
    unfolding consume_loop
    consume_loop-Triple zero fuel crash_before consumed =
        Triple-raise _ (λ w h. IsCaughtUp→IsComplete v text log w h)
    consume_loop-Triple (suc rounds) fuel crash_before consumed =
        Triple-bind _ _
          (Triple-post _ (λ x w h. h) (λ w h. IsCaughtUp→IsComplete v text log w h)
            (Triple-try _ fetch-Triple))
          (λ x.
            Triple-bind _ _ (after_fetch-Triple fuel crash_before consumed x)
              (after_round-Triple _ consumed (consume_loop-Triple rounds fuel crash_before)))

  -- A start of the projector: its reader begins where the group has committed.
  pub record Start : Type 0 where
    pub consumer : Consumer W
    pub rounds : ℕ
    pub fuel : ℕ
    pub crash_before : ℕ

  module _ (join : W → W)
      (joins : (w : W)
        → (v.db (join w) ≡ v.db w)
          × (v.committed (join w) ≡ v.committed w)
          × (v.position (join w) ≡ v.committed w)) where
    -- Projectors, one after another.
    abbrev pub projectors : List Start → W → W
    projectors [] w = w
    projectors (s ∷ starts) w =
        projectors starts (left (consume_loop s.consumer s.rounds s.fuel s.crash_before 0 (join w)))

    join-Caught : (w : W) → Complete w → Caught (join w)
    join-Caught w h =
        (stored, λ p. omega (arith, ap (λ q. q p) (joins w).1, ap (λ q. q p) (joins w).2))
      where
        stored : (p i : ℕ) → i < v.position (join w) p → IsStored v text log (v.db (join w)) p i
        stored p i less =
            subst (λ d. IsStored v text log d p i) (sym (joins w).0)
              (h p i (subst (λ q. i < q p) (joins w).2 less))

    -- However often the projector is started, and wherever it stops, fails or dies: every message whose
    -- offset is committed decodes, and its event is in the table events in its place. It is assumed
    -- that this holds at first (as when nothing is committed), that a start reads on from the committed
    -- offsets, and that Kafka's reader and Postgres's transactions are as IsConsuming says.
    pub projectors-IsComplete :
        (starts : List Start) (w : W)
        → All (λ s. IsConsuming v text log s.consumer) starts
        → IsComplete v text log w
        → IsComplete v text log (projectors starts w)
    projectors-IsComplete [] w c h = h
    projectors-IsComplete (s ∷ starts) w c h = projectors-IsComplete starts _ c.1 (
        left-end Complete _ (
          (consume_loop-Triple s.consumer c.0 s.rounds s.fuel s.crash_before 0).run (join w)
            (join-Caught w h)))
