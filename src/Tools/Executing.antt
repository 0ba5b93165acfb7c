-- ===== src/Tools/Executing.antt =====
-- Execute and Reconcile of the mock tools (internal/tools/mock_open_pr.go, mock_apply_fix.go,
use durable_agent_execution.Idempotency.Process.{◌>>=◌}
-- mock_run_tests.go) against the contract of a tool in internal/tools/tool.go.
use durable_agent_execution.Prelude.{
  ℕ, suc, ◌≡◌, String, Option, none, some, ok, err, Result, Option-cases, inl, inr, ◌≤◌, true,
  false, ◌∙◌, sym, ap, arith, List, Result-cases, zero, subst,
}
use durable_agent_execution.Prelude.Int64.{ℤ, pos, negsuc}
use durable_agent_execution.Json.{RawMessage, fits_int64}
use durable_agent_execution.Idempotency.Process.{Process, Ran, returned, raised, crashed, left}
use durable_agent_execution.Idempotency.Triple.{
  Triple, Ends, Triple-bind, Triple-pure, Triple-post, Triple-raise, Triple-option,
}
use durable_agent_execution.Tools.{
  ExecError, outcome_unknown_error, failure, Invocation, ReconcileResult,
}
use durable_agent_execution.Tools.Host.{Host, Content, missing, unreadable, content}
use durable_agent_execution.Tools.Ledger.{
  LedgerEntry, wrap, entry_key, entries, entries_of, find_by_key, first_under, parse_ledger,
}
use durable_agent_execution.Tools.Mocks.{
  Answer, mock_tool_delay, delay_for, delayed, with_effect, new_entry, pr_args, fix_args,
  open_pr_execute, apply_fix_execute, open_pr_reconcile, delay_text, answer_for, reconcile_answer,
  observed,
}
use durable_agent_execution.Tools.Written.{File, IsAppending, ReadSpec}
use durable_agent_execution.Tools.Effects.{
  entries_under, effects_in-scanned, parse_ledger-counts, first_under-none, first_under-some,
  lines_under,
}
use durable_agent_execution.Tools.Recorded.{
  Counted, Unclear, Judged, quiet-Triple, record_entry-Triple, still-Triple, Unclear-Triple,
}

module _ {W : Type 0} (file : W → File) (Passed : W → W → Type 0) (host : Host W)
    (c : IsAppending file Passed host) (k : String) (start : W) where
  abbrev Now : ℕ → W → Type 0
  Now n w = Counted file Passed host c k start n w

  abbrev Maybe : ℕ → W → Type 0
  Maybe n w = Unclear file Passed host c k start n w

  -- What an Execute that has an effect answers for.
  abbrev pub Ruled : ℕ → Answer → W → Type 0
  Ruled n (ok result) w = Now (suc n) w
  Ruled n (err outcome_unknown_error) w = Maybe n w
  Ruled n (err (failure t)) w = Now n w

  -- A ledger that was read has an entry for each effect.
  abbrev pub Listed : ℕ → Result String (List LedgerEntry) → W → Type 0
  Listed n (err x) w = Now n w
  Listed n (ok es) w = Now n w × (entries_under host.text k es ≡ n)

  quiet :
      {A : Type 0} (n : ℕ) (m : Process W A)
      → ((w : W) → (file (left (m w)) ≡ file w) × Passed w (left (m w)))
      → Triple (Now n) m (λ _. Now n) (Maybe n)
  quiet n m h = quiet-Triple file Passed host c k start n m h

  entries_of-Listed :
      (n : ℕ) (w w' : W) (x : Content)
      → Now n w
      → Now n w'
      → ReadSpec file Passed w (returned x w')
      → Listed n (entries_of host x) w'
  unfolding entries_of entries_under lines_under
  entries_of-Listed n w w' missing h h' e = (
    h',
    sym (ap (lines_under host.text k) e) ∙ effects_in-scanned host.text k (file w) ∙ h.entries,
  )
  entries_of-Listed n w w' (unreadable x) h h' e = h'
  entries_of-Listed n w w' (content lines) h h' e =
      elim (Result-cases (parse_ledger host 1 lines)) [
        | inr (x, bad) ↦ subst (λ r. Listed n r w') (sym bad) h'
        | inl (es, good) ↦
            subst (λ r. Listed n r w') (sym good)
              (
                h',
                parse_ledger-counts host k 1 lines es good
                    ∙ ap (lines_under host.text k) e
                    ∙ effects_in-scanned host.text k (file w)
                    ∙ h.entries,
              )
      ]

  still :
      {A : Type 0} (n : ℕ) (m : Process W A)
      → ((w : W) → (file (left (m w)) ≡ file w) × Passed w (left (m w)))
      → Triple (Now n) m (λ _. Now n) (Now n)
  still n m h = still-Triple file Passed host c k start n m h

  read-Triple : (n : ℕ) → Triple (Now n) host.read_file (λ x. Listed n (entries_of host x)) (Now n)
  read-Triple n = record {
    run = λ w h.
        go w h (host.read_file w) (c.read_spec w) ((still n host.read_file c.read_aside).run w h);
  }
    where
      go :
          (w : W)
          → Now n w
          → (x : Ran W Content) → ReadSpec file Passed w x
          → Ends (λ _. Now n) (Now n) x
          → Ends (λ y. Listed n (entries_of host y)) (Now n) x
      go w h (returned y w') e h' = entries_of-Listed n w w' y h h' e
      go w h (raised y w') e h' = h'
      go w h (crashed w') e h' = h'

  entries-Triple : (n : ℕ) → Triple (Now n) (entries host) (Listed n) (Now n)
  unfolding entries
  entries-Triple n = Triple-bind _ _ (still n host.ctx_error c.ctx_aside) (λ done.
      Triple-option done (λ _. Triple-bind _ _ (read-Triple n) (λ x. Triple-pure _ (λ w h. h)))
        (λ t _. Triple-pure _ (λ w h. h)))

  -- With the entries in hand, or with an error that says that nothing was done.
  with_entries :
      {A : Type 0} {Q : A → W → Type 0} {R : W → Type 0} (n : ℕ)
      (found : Result String (List LedgerEntry)) (m : String → Process W A)
      (next : List LedgerEntry → Process W A)
      → ((x : String) → Triple (Now n) (m x) Q R)
      → ((es : List LedgerEntry) → entries_under host.text k es ≡ n → Triple (Now n) (next es) Q R)
      → Triple (Listed n found) (elim found [ err x ↦ m x | ok es ↦ next es ]) Q R
  with_entries n (err x) m next stop go = stop x
  with_entries n (ok es) m next stop go = record { run = λ w h. (go es h.1).run w h.0 }

  wrap-Ruled :
      (n : ℕ) (prefix : String) (e : ExecError) (w : W)
      → Judged file Passed host c k start n (some e) w
      → Ruled n (err (wrap prefix e)) w
  unfolding wrap
  wrap-Ruled n prefix outcome_unknown_error w h = h
  wrap-Ruled n prefix (failure t) w h = h

  delay_for-Triple :
      (n : ℕ) (d : Option ℤ) → Triple (Now n) (delay_for host d) (λ _. Now n) (Maybe n)
  unfolding delay_for
  delay_for-Triple n none = Triple-pure _ (λ w h. h)
  delay_for-Triple n (some (negsuc d)) = Triple-pure _ (λ w h. h)
  delay_for-Triple n (some (pos zero)) = Triple-pure _ (λ w h. h)
  delay_for-Triple n (some (pos (suc d))) = quiet n (host.wait (suc d)) (c.wait_aside (suc d))

  delay_text-Triple :
      (n : ℕ) (raw : String) → Triple (Now n) (delay_text host raw) (λ _. Now n) (Maybe n)
  unfolding delay_text
  delay_text-Triple n String.[] = Triple-pure _ (λ w h. h)
  delay_text-Triple n (String.◌∷◌ ch s) = delay_for-Triple n (host.parse_duration (String.◌∷◌ ch s))

  mock_tool_delay-Triple : (n : ℕ) → Triple (Now n) (mock_tool_delay host) (λ _. Now n) (Maybe n)
  unfolding mock_tool_delay
  mock_tool_delay-Triple n =
      Triple-bind _ _
        (quiet n (host.getenv "DAE_MOCK_TOOL_DELAY") (c.getenv_aside "DAE_MOCK_TOOL_DELAY"))
        (delay_text-Triple n)

  delayed-Triple :
      (n : ℕ) (work : Process W Answer)
      → Triple (Now n) work (Ruled n) (Maybe n)
      → Triple (Now n) (delayed host work) (Ruled n) (Maybe n)
  unfolding delayed
  delayed-Triple n work t =
      Triple-bind _ _ (mock_tool_delay-Triple n)
        (λ x. Triple-option x (λ _. t) (λ y _. Triple-pure _ (λ w h. h)))

  module _ (pid : fits_int64 host.pid ≡ true) (inv : Invocation) (under : entry_key inv ≡ k) where
    answer_for-Triple :
        (n : ℕ) (tool result : String) (x : Option ExecError)
        → Triple
            (Judged file Passed host c k start n x)
            (answer_for host tool result x)
            (Ruled n)
            (Maybe n)
    unfolding answer_for
    answer_for-Triple n tool result none = Triple-pure _ (λ w h. h)
    answer_for-Triple n tool result (some e) = Triple-pure _ (wrap-Ruled n _ e)

    with_effect-Triple :
        (n : ℕ) (tool result : String)
        → Triple (Now n) (with_effect host inv tool result) (Ruled n) (Maybe n)
    unfolding with_effect new_entry
    with_effect-Triple n tool result = Triple-bind _ _ (quiet n host.now c.now_aside) (λ now.
        Triple-bind _ _
          (record_entry-Triple file Passed host c k start n (new_entry host inv tool result now)
            under pid)
          (answer_for-Triple n tool result))

    apply_fix_execute-Triple :
        (n : ℕ) (raw : RawMessage)
        → Triple (Now n) (apply_fix_execute host inv raw) (Ruled n) (Maybe n)
    unfolding apply_fix_execute
    apply_fix_execute-Triple n raw = delayed-Triple n _ (
        Triple-option (fix_args raw) (λ _. Triple-pure _ (λ w h. h))
          (λ description _. with_effect-Triple n "apply_fix" _))

    pub open_pr_execute-Triple :
        (n : ℕ) (raw : RawMessage)
        → Triple (Now n) (open_pr_execute host inv raw) (Ruled n) (Maybe n)
    unfolding open_pr_execute
    open_pr_execute-Triple n raw = delayed-Triple n _ (
        Triple-option (pr_args raw) (λ _. Triple-pure _ (λ w h. h))
          (λ title _.
            Triple-bind _ _ (Triple-post _ (λ x w h. h) (λ w h. inl h) (entries-Triple n)) (λ found.
              with_entries n found _ _ (λ x. Triple-pure _ (λ w h. h))
                (λ es _. with_effect-Triple n "open_pr" _))))

  Ruled→Maybe : (n : ℕ) (x : Answer) (w : W) → Ruled n x w → Maybe n w
  Ruled→Maybe n (ok result) w h = inr h
  Ruled→Maybe n (err outcome_unknown_error) w h = h
  Ruled→Maybe n (err (failure t)) w h = inl h

  pub observed-Triple :
      (n : ℕ) (work : Process W Answer)
      → Triple (Now n) work (Ruled n) (Maybe n)
      → Triple (Now n) (observed host work) (λ _. Maybe n) (Maybe n)
  unfolding observed
  observed-Triple n work t = Triple-bind _ _ (Triple-post work (Ruled→Maybe n) (λ w h. h) t) (λ x.
      Triple-bind _ _ (Unclear-Triple file Passed host c k start n host.ctx_error c.ctx_aside)
        (λ done. Triple-pure _ (λ w h. h)))

  -- A Reconcile changes nothing, and its answer is right.
  abbrev pub Answered : ℕ → ReconcileResult → W → Type 0
  Answered n a w = Now n w × (a.applied ≡ false → n ≡ 0) × (a.applied ≡ true → 1 ≤ n)

  -- What FindByKey finds is there, and what it does not find is not.
  abbrev Found : ℕ → Result String (Option LedgerEntry) → W → Type 0
  Found n (err x) w = Now n w
  Found n (ok none) w = Now n w × (n ≡ 0)
  Found n (ok (some e)) w = Now n w × (1 ≤ n)

  first_under-Found :
      (n : ℕ) (es : List LedgerEntry) (w : W)
      → entries_under host.text k es ≡ n
      → Now n w
      → Found n (ok (first_under k es)) w
  first_under-Found n es w counted h = elim (Option-cases (first_under k es)) [
    | inl absent ↦
        subst (λ o. Found n (ok o) w) (sym absent)
          (h, sym counted ∙ first_under-none host.text k es absent)
    | inr (e, there) ↦
        subst (λ o. Found n (ok o) w) (sym there)
          (h, subst (λ m. 1 ≤ m) counted (first_under-some host.text k es e there))
  ]

  find_by_key-Triple : (n : ℕ) → Triple (Now n) (find_by_key host k) (Found n) (Now n)
  unfolding find_by_key
  find_by_key-Triple n = Triple-bind _ _ (entries-Triple n) (λ found.
      with_entries n found _ _ (λ x. Triple-pure _ (λ w h. h))
        (λ es counted. Triple-pure _ (λ w h. first_under-Found n es w counted h)))

  reconcile_answer-Triple :
      (n : ℕ) (x : Result String (Option LedgerEntry))
      → Triple (Found n x) (reconcile_answer host x) (Answered n) (Now n)
  unfolding reconcile_answer
  reconcile_answer-Triple n (err x) = Triple-raise _ (λ w h. h)
  reconcile_answer-Triple n (ok none) = Triple-pure _ (λ w h. (h.0, λ _. h.1, λ e. absurd (cc e)))
  reconcile_answer-Triple n (ok (some e)) =
      Triple-pure _ (λ w h. (h.0, λ f. absurd (cc f), λ _. h.1))

  open_pr_reconcile-keyed :
      (inv : Invocation) (raw : RawMessage)
      → inv.idempotency_key ≡ some k
      → open_pr_reconcile host inv raw ≡ (find_by_key host k >>= reconcile_answer host)
  unfolding open_pr_reconcile
  open_pr_reconcile-keyed inv raw has_key = ground (arith, has_key)

  pub open_pr_reconcile-Triple :
      (n : ℕ) (inv : Invocation) (raw : RawMessage)
      → inv.idempotency_key ≡ some k
      → Triple (Now n) (open_pr_reconcile host inv raw) (Answered n) (Now n)
  open_pr_reconcile-Triple n inv raw has_key =
      subst (λ m. Triple (Now n) m (Answered n) (Now n))
        (sym (open_pr_reconcile-keyed inv raw has_key))
        (Triple-bind _ _ (find_by_key-Triple n) (reconcile_answer-Triple n))
