-- ===== src/Tools/Recorded.antt =====
-- Record of internal/tools/ledger.go: what its error says about the effect.
use durable_agent_execution.Prelude.{
  ℕ, suc, ◌≡◌, String, Option, none, some, inl, inr, ◌⊎◌, arith, ◌∙◌, ap, true,
}
use durable_agent_execution.Json.{Bytes, malformed, fits_int64}
use durable_agent_execution.Idempotency.Process.{Process, Ran, returned, raised, crashed, left}
use durable_agent_execution.Idempotency.Triple.{
  Triple, Ends, Triple-bind, Triple-pure, Triple-post, Triple-option, left-Triple,
}
use durable_agent_execution.Tools.{ExecError, outcome_unknown_error, failure}
use durable_agent_execution.Tools.Host.{Host, Write, whole, nothing, partial}
use durable_agent_execution.Tools.Ledger.{
  LedgerEntry, encode_entry, decode_entry, settle_entry, after_write, write_entry, record_entry,
}
use durable_agent_execution.Tools.Written.{File, IsAppending, IsAside, WriteSpec, append_line, tear}
use durable_agent_execution.Tools.Effects.{
  effects_in, effects_in-append_line, effects_in-tear, decode_entry-encode, counts,
}

module _ {W : Type 0} (file : W → File) (Passed : W → W → Type 0) (host : Host W)
    (c : IsAppending file Passed host) (k : String) (start : W) where
  -- So many entries stand under the key.
  pub record Counted (n : ℕ) (w : W) : Type 0 where
    pub entries : effects_in host.text k (file w) ≡ n
    pub passed : Passed start w

  -- As many as before, or one more.
  abbrev pub Unclear : ℕ → W → Type 0
  Unclear n w = Counted n w ⊎ Counted (suc n) w

  -- The contract of Tool.Execute: success is an effect, ErrOutcomeUnknown says nothing, and any other
  -- error says that no effect happened.
  abbrev pub Judged : ℕ → Option ExecError → W → Type 0
  Judged n none w = Counted (suc n) w
  Judged n (some outcome_unknown_error) w = Unclear n w
  Judged n (some (failure t)) w = Counted n w

  Counted-aside :
      {A : Type 0} (m : Process W A)
      → IsAside file Passed m
      → (n : ℕ) (w : W) → Counted n w
      → Counted n (left (m w))
  Counted-aside m aside n w h = record {
    entries = ap (effects_in host.text k) (aside w).0 ∙ h.entries;
    passed = c.passed_trans _ _ _ h.passed (aside w).1;
  }

  Unclear-aside :
      {A : Type 0} (m : Process W A)
      → IsAside file Passed m
      → (n : ℕ) (w : W) → Unclear n w
      → Unclear n (left (m w))
  Unclear-aside m aside n w (inl h) = inl (Counted-aside m aside n w h)
  Unclear-aside m aside n w (inr h) = inr (Counted-aside m aside (suc n) w h)

  -- An operation that leaves the ledger alone, in the middle of an Execute that has had no effect.
  pub quiet-Triple :
      {A : Type 0} (n : ℕ) (m : Process W A)
      → IsAside file Passed m
      → Triple (Counted n) m (λ _. Counted n) (Unclear n)
  quiet-Triple n m aside =
      Triple-post m (λ a w h. h) (λ w h. inl h) (left-Triple m (Counted-aside m aside n))

  -- The same, in an operation that has no effect at all.
  pub still-Triple :
      {A : Type 0} (n : ℕ) (m : Process W A)
      → IsAside file Passed m
      → Triple (Counted n) m (λ _. Counted n) (Counted n)
  still-Triple n m aside = left-Triple m (Counted-aside m aside n)

  -- The same, after the effect.
  done-Triple :
      {A : Type 0} (n : ℕ) (m : Process W A)
      → IsAside file Passed m
      → Triple (Counted (suc n)) m (λ _. Counted (suc n)) (Unclear n)
  done-Triple n m aside =
      Triple-post m (λ a w h. h) (λ w h. inr h) (left-Triple m (Counted-aside m aside (suc n)))

  pub Unclear-Triple :
      {A : Type 0} (n : ℕ) (m : Process W A)
      → IsAside file Passed m
      → Triple (Unclear n) m (λ _. Unclear n) (Unclear n)
  Unclear-Triple n m aside = left-Triple m (Unclear-aside m aside n)

  settle_entry-Triple :
      (n : ℕ) → Triple (Counted (suc n)) (settle_entry host) (Judged n) (Unclear n)
  unfolding settle_entry
  settle_entry-Triple n = Triple-bind _ _ (done-Triple n host.sync c.sync_aside) (λ x.
      Triple-option x
        (λ _. Triple-bind _ _ (done-Triple n host.close c.close_aside) (λ y.
          Triple-option y (λ _. Triple-pure _ (λ w h. h)) (λ t _. Triple-pure _ (λ w h. inr h))))
        (λ t _.
          Triple-bind _ _ (done-Triple n host.close c.close_aside)
            (λ y. Triple-pure _ (λ w h. inr h))))

  -- What a Write says about the entry.
  abbrev Landed : ℕ → Write → W → Type 0
  Landed n whole w = Counted (suc n) w
  Landed n (nothing x) w = Counted n w
  Landed n (partial x) w = Unclear n w

  after_write-Triple :
      (n : ℕ) (x : Write) → Triple (Landed n x) (after_write host x) (Judged n) (Unclear n)
  unfolding after_write
  after_write-Triple n whole = settle_entry-Triple n
  after_write-Triple n (nothing x) =
      Triple-bind _ _ (quiet-Triple n host.close c.close_aside) (λ y. Triple-pure _ (λ w h. h))
  after_write-Triple n (partial x) =
      Triple-bind _ _ (Unclear-Triple n host.close c.close_aside) (λ y. Triple-pure _ (λ w h. h))

  module _ (b : Bytes) (e : LedgerEntry) (reads : decode_entry host.text b ≡ some e)
      (under : e.idempotency_key ≡ k) where
    one_more : counts host.text k (decode_entry host.text b) ≡ 1
    one_more = ground (arith, reads, under)

    module _ (n : ℕ) (w w' : W) (h : Counted n w) (passed : Passed w w') where
      Counted-same : file w' ≡ file w → Counted n w'
      Counted-same same = record {
        entries = ap (effects_in host.text k) same ∙ h.entries;
        passed = c.passed_trans _ _ _ h.passed passed;
      }

      Counted-append : file w' ≡ append_line b (file w) → Counted (suc n) w'
      Counted-append grown = record {
        entries =
            ap (effects_in host.text k) grown
            ∙ omega (arith, effects_in-append_line host.text k b (file w), h.entries, one_more);
        passed = c.passed_trans _ _ _ h.passed passed;
      }

      Counted-tear : file w' ≡ tear b (file w) → Counted (suc n) w'
      Counted-tear grown = record {
        entries =
            ap (effects_in host.text k) grown
            ∙ omega (arith, effects_in-tear host.text k b (file w), h.entries, one_more);
        passed = c.passed_trans _ _ _ h.passed passed;
      }

      Counted-torn : file w' ≡ tear malformed (file w) → Counted n w'
      unfolding decode_entry
      Counted-torn grown = record {
        entries =
            ap (effects_in host.text k) grown
            ∙ omega (arith, effects_in-tear host.text k malformed (file w), h.entries);
        passed = c.passed_trans _ _ _ h.passed passed;
      }

    write-Triple : (n : ℕ) → Triple (Counted n) (host.write b) (Landed n) (Unclear n)
    write-Triple n = record {
      run = λ w h. go w h (host.write b w) (c.write_spec b w) (c.write_passed b w);
    }
      where
        go :
            (w : W)
            → Counted n w
            → (x : Ran W Write) → WriteSpec file Passed b w x
            → Passed w (left x)
            → Ends (Landed n) (Unclear n) x
        go w h (returned whole w') grown p = Counted-append n w w' h p grown
        go w h (returned (nothing x) w') same p = Counted-same n w w' h p same
        go w h (returned (partial x) w') (inl grown) p = inr (Counted-tear n w w' h p grown)
        go w h (returned (partial x) w') (inr grown) p = inl (Counted-torn n w w' h p grown)
        go w h (raised x w') same p = inl (Counted-same n w w' h p same)
        go w h (crashed w') (inl grown) p = inr (Counted-append n w w' h p grown)
        go w h (crashed w') (inr same) p = inl (Counted-same n w w' h p same)

    write_entry-Triple : (n : ℕ) → Triple (Counted n) (write_entry host b) (Judged n) (Unclear n)
    unfolding write_entry
    write_entry-Triple n =
        Triple-bind _ _ (quiet-Triple n host.make_directory c.make_directory_aside) (λ x.
          Triple-option x
            (λ _. Triple-bind _ _ (quiet-Triple n host.open_file c.open_aside) (λ y.
              Triple-option y (λ _. Triple-bind _ _ (write-Triple n) (after_write-Triple n))
                (λ t _. Triple-pure _ (λ w h. h))))
            (λ t _. Triple-pure _ (λ w h. h)))

  pub record_entry-Triple :
      (n : ℕ) (e : LedgerEntry)
      → e.idempotency_key ≡ k
      → fits_int64 e.writer_pid ≡ true
      → Triple (Counted n) (record_entry host e) (Judged n) (Unclear n)
  unfolding record_entry
  record_entry-Triple n e under fits =
      Triple-bind _ _ (quiet-Triple n host.ctx_error c.ctx_aside) (λ done.
        Triple-option done
          (λ _.
            Triple-option (encode_entry host.text e) (λ _. Triple-pure _ (λ w h. h))
              (λ line made.
                write_entry-Triple line e (decode_entry-encode host.text e line fits made) under n))
          (λ t _. Triple-pure _ (λ w h. h)))
