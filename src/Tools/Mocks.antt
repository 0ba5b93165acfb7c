-- ===== src/Tools/Mocks.antt =====
-- internal/tools/delay.go and the mock tools: mock_clone_repo.go, mock_run_tests.go, mock_apply_fix.go
-- and mock_open_pr.go. Their descriptions and schemas are left out.
use durable_agent_execution.Prelude.{
  ℕ, zero, suc, ◌+◌, ◌==◌, String, Option, none, some, true, false, Result, ok, err, if◌then◌else◌,
}
use durable_agent_execution.Prelude.Int64.{ℤ, pos, negsuc}
use durable_agent_execution.Prelude.Decimal.{int_text}
use durable_agent_execution.Errors.{message}
use durable_agent_execution.Json.{Fields, RawMessage, members, read, into_string}
use durable_agent_execution.Events.Codec.{truncate_us}
use durable_agent_execution.Idempotency.Process.{Process, pure, raise, ◌>>=◌ as bind}
use durable_agent_execution.Tools.{ExecError, failure, Executed, Invocation, ReconcileResult, Tool}
use durable_agent_execution.Tools.Host.{Host}
use durable_agent_execution.Tools.Ledger.{
  LedgerEntry, wrap, entry_key, entries, find_by_key, record_entry, count_entries,
}
use Prim.Native.String.{◌++◌ as append}

-- A string member of the arguments, which are an object or null.
unfoldable pub read_arg : String → Fields → Option String
unfolding read into_string
read_arg name fs = read into_string name "" fs

unfoldable pub arg_fields : RawMessage → Option Fields
unfolding members
arg_fields none = none
arg_fields (some j) = members j

-- cloneRepoArgs
unfoldable pub clone_args : RawMessage → Option String
clone_args raw = elim (arg_fields raw) [ none ↦ none | some fs ↦ read_arg "repo_url" fs ]

-- applyFixArgs
unfoldable pub fix_args : RawMessage → Option String
fix_args raw = elim (arg_fields raw) [ none ↦ none | some fs ↦ read_arg "description" fs ]

-- openPRArgs: the title; a body that is no string is an error.
unfoldable pub pr_args : RawMessage → Option String
pr_args raw = elim (arg_fields raw) [
  | none ↦ none
  | some fs ↦ elim (read_arg "title" fs) [
    | none ↦ none
    | some title ↦ elim (read_arg "body" fs) [ none ↦ none | some body ↦ some title ]
  ]
]

abbrev pub Answer : Type 0
Answer = Result ExecError String

module _ {W : Type 0} (host : Host W) where
  -- mockToolDelay, for the text of the variable
  unfoldable pub delay_for : Option ℤ → Process W (Option String)
  delay_for none = pure none
  delay_for (some (negsuc n)) = pure none
  delay_for (some (pos zero)) = pure none
  delay_for (some (pos (suc n))) = host.wait (suc n)

  -- An empty text is no duration.
  unfoldable pub delay_text : String → Process W (Option String)
  delay_text String.[] = pure none
  delay_text (String.◌∷◌ c s) = delay_for (host.parse_duration (String.◌∷◌ c s))

  unfoldable pub mock_tool_delay : Process W (Option String)
  mock_tool_delay = bind (host.getenv "DAE_MOCK_TOOL_DELAY") delay_text

  unfoldable pub delayed : Process W Answer → Process W Answer
  delayed work = bind mock_tool_delay (λ x. elim x [
    | some t ↦ pure (err (failure (append "waiting out mock delay: " t)))
    | none ↦ work
  ])

  unfoldable pub clone_repo_execute : Invocation → RawMessage → Process W Answer
  clone_repo_execute inv raw = delayed (elim (clone_args raw) [
    | none ↦ pure (err (failure (append "unmarshaling clone_repo args: " host.json_error)))
    | some url ↦
        pure (ok (append "cloned " (append url " into /workspace/widgets at commit a1b2c3d")))
  ])

  unfoldable pub test_report : ℕ → String
  test_report fixes =
      if fixes == 0
      then "2 tests failed: TestParseWidget, TestWidgetTotal"
      else "all tests passed (2/2)"

  unfoldable pub run_tests_execute : Invocation → RawMessage → Process W Answer
  run_tests_execute inv raw = delayed (
      bind (entries host) (λ found. elim found [
        | err x ↦ pure (err (failure (append "checking whether the fix was applied: " x)))
        | ok es ↦ pure (ok (test_report (count_entries es inv.run_id "apply_fix")))
      ]))

  unfoldable pub new_entry : Invocation → String → String → ℕ → LedgerEntry
  new_entry inv tool result now = record {
    run_id = inv.run_id;
    tool_use_id = inv.tool_use_id;
    tool_name = tool;
    idempotency_key = entry_key inv;
    result = result;
    recorded_at = truncate_us now;
    writer_pid = host.pid;
  }

  unfoldable pub answer_for : String → String → Option ExecError → Process W Answer
  answer_for tool result none = pure (ok result)
  answer_for tool result (some e) =
      pure (err (wrap (append "recording " (append tool " effect: ")) e))

  -- The end of an Execute that has an effect: its entry is recorded.
  unfoldable pub with_effect : Invocation → String → String → Process W Answer
  with_effect inv tool result =
      bind host.now
        (λ now. bind (record_entry host (new_entry inv tool result now)) (answer_for tool result))

  unfoldable pub apply_fix_execute : Invocation → RawMessage → Process W Answer
  apply_fix_execute inv raw = delayed (elim (fix_args raw) [
    | none ↦ pure (err (failure (append "unmarshaling apply_fix args: " host.json_error)))
    | some description ↦ with_effect inv "apply_fix" (append "applied fix: " description)
  ])

  unfoldable pub pr_text : ℕ → String → String
  pr_text existing title =
      append "opened PR #" (append (int_text (pos (existing + 1))) (append ": " title))

  unfoldable pub open_pr_execute : Invocation → RawMessage → Process W Answer
  open_pr_execute inv raw = delayed (elim (pr_args raw) [
    | none ↦ pure (err (failure (append "unmarshaling open_pr args: " host.json_error)))
    | some title ↦ bind (entries host) (λ found. elim found [
      | err x ↦ pure (err (failure (append "counting existing PRs: " x)))
      | ok es ↦ with_effect inv "open_pr" (pr_text (count_entries es inv.run_id "open_pr") title)
    ])
  ])

  unfoldable pub reconcile_answer : Result String (Option LedgerEntry) → Process W ReconcileResult
  reconcile_answer (err x) = raise (message (append "reconciling open_pr: " x))
  reconcile_answer (ok none) = pure (record { applied = false; result = "" })
  reconcile_answer (ok (some e)) = pure (record { applied = true; result = e.result })

  unfoldable pub open_pr_reconcile : Invocation → RawMessage → Process W ReconcileResult
  open_pr_reconcile inv raw = elim inv.idempotency_key [
    | none ↦ raise (message "reconciling open_pr: invocation has no idempotency key")
    | some k ↦ bind (find_by_key host k) reconcile_answer
  ]

  -- The answer of an Execute, and whether its context was done by then.
  unfoldable pub executed_of : Answer → Option String → Executed
  executed_of (ok result) done = record {
    result = result;
    error = none;
    ctx_done = elim done [ none ↦ false | some _ ↦ true ];
  }
  executed_of (err e) done = record {
    result = "";
    error = some e;
    ctx_done = elim done [ none ↦ false | some _ ↦ true ];
  }

  unfoldable pub observed : Process W Answer → Process W Executed
  observed work = bind work (λ x. bind host.ctx_error (λ done. pure (executed_of x done)))

  unfoldable pub clone_repo_tool : Tool W
  clone_repo_tool = record {
    name = "clone_repo";
    has_side_effect = false;
    execute = λ inv raw. observed (clone_repo_execute inv raw);
    reconcile = none;
  }

  unfoldable pub run_tests_tool : Tool W
  run_tests_tool = record {
    name = "run_tests";
    has_side_effect = false;
    execute = λ inv raw. observed (run_tests_execute inv raw);
    reconcile = none;
  }

  unfoldable pub apply_fix_tool : Tool W
  apply_fix_tool = record {
    name = "apply_fix";
    has_side_effect = true;
    execute = λ inv raw. observed (apply_fix_execute inv raw);
    reconcile = none;
  }

  unfoldable pub open_pr_tool : Tool W
  open_pr_tool = record {
    name = "open_pr";
    has_side_effect = true;
    execute = λ inv raw. observed (open_pr_execute inv raw);
    reconcile = some (open_pr_reconcile);
  }
