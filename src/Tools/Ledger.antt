-- ===== src/Tools/Ledger.antt =====
-- internal/tools/ledger.go: the append-only file that stands for the outside world.
use durable_agent_execution.Prelude.{
  ℕ, suc, String, List, [], ◌∷◌, Option, none, some, Result, ok, err, ◌>>=◌, str_dec, ite, ltb,
  if◌then◌else◌,
}
use durable_agent_execution.Prelude.Int64.{ℤ, pos}
use durable_agent_execution.Prelude.Decimal.{int_text}
use durable_agent_execution.Json.{
  str, num, Fields, field, end, Bytes, malformed, doc, obj, members, read, into_string, into_int,
}
use durable_agent_execution.Events.Codec.{TimeText, into_time, time_limit}
use durable_agent_execution.Idempotency.Process.{Process, pure, ◌>>=◌ as bind}
use durable_agent_execution.Tools.{ExecError, outcome_unknown_error, failure, Invocation}
use durable_agent_execution.Tools.Host.{
  Host, Line, Write, whole, nothing, partial, Content, missing, unreadable, content,
}
use Prim.Native.String.{◌++◌ as append}

pub record LedgerEntry : Type 0 where
  pub run_id : String
  pub tool_use_id : String
  pub tool_name : String
  pub idempotency_key : String
  pub result : String
  pub recorded_at : ℕ
  pub writer_pid : ℤ

-- fmt.Errorf with %w: ErrOutcomeUnknown stays what it is.
unfoldable pub wrap : String → ExecError → ExecError
wrap prefix outcome_unknown_error = outcome_unknown_error
wrap prefix (failure s) = failure (append prefix s)

-- entryKey
unfoldable pub entry_key : Invocation → String
entry_key inv = elim inv.idempotency_key [ none ↦ "" | some k ↦ k ]

module _ (text : TimeText) where
  -- The entry's fields, by their struct tags.
  unfoldable pub entry_wire : LedgerEntry → Fields
  entry_wire e = field "run_id" (str e.run_id) (
      field "tool_use_id" (str e.tool_use_id) (
        field "tool_name" (str e.tool_name) (
          field "idempotency_key" (str e.idempotency_key) (
            field "result" (str e.result) (
              field "recorded_at" (str (text.format e.recorded_at))
                (field "writer_pid" (num e.writer_pid) end))))))

  -- json.Marshal of an entry fails on a time from the year 10000 on.
  unfoldable pub encode_entry : LedgerEntry → Option Bytes
  encode_entry e = if ltb e.recorded_at time_limit then some (doc (obj (entry_wire e))) else none

  unfoldable pub read_entry : Fields → Option LedgerEntry
  unfolding read into_string into_int into_time
  read_entry fs = elim (read into_string "run_id" "" fs) [
    | none ↦ none
    | some r ↦ elim (read into_string "tool_use_id" "" fs) [
      | none ↦ none
      | some u ↦ elim (read into_string "tool_name" "" fs) [
        | none ↦ none
        | some n ↦ elim (read into_string "idempotency_key" "" fs) [
          | none ↦ none
          | some k ↦ elim (read into_string "result" "" fs) [
            | none ↦ none
            | some x ↦ elim (read (into_time text) "recorded_at" 0 fs) [
              | none ↦ none
              | some t ↦ elim (read into_int "writer_pid" (pos 0) fs) [
                | none ↦ none
                | some p ↦ some (record {
                  run_id = r;
                  tool_use_id = u;
                  tool_name = n;
                  idempotency_key = k;
                  result = x;
                  recorded_at = t;
                  writer_pid = p;
                })
              ]
            ]
          ]
        ]
      ]
    ]
  ]

  -- json.Unmarshal into a LedgerEntry.
  unfoldable pub decode_entry : Bytes → Option LedgerEntry
  unfolding members
  decode_entry malformed = none
  decode_entry (doc j) = elim (members j) [ none ↦ none | some fs ↦ read_entry fs ]

-- Two writes on one line are no JSON value.
unfoldable pub line_bytes : Line → Bytes
line_bytes (b ∷ []) = b
line_bytes bs = malformed

-- The first entry under the key.
unfoldable pub first_under : String → List LedgerEntry → Option LedgerEntry
first_under k [] = none
first_under k (e ∷ es) = ite (str_dec e.idempotency_key k) (some e) (first_under k es)

module _ {W : Type 0} (host : Host W) where
  unfoldable pub parse_line : ℕ → Line → Result String (Option LedgerEntry)
  parse_line n [] = ok none
  parse_line n (b ∷ bs) = elim (decode_entry host.text (line_bytes (b ∷ bs))) [
    | none ↦
        err
          (append "decoding ledger line " (append (int_text (pos n)) (append ": " host.json_error)))
    | some e ↦ ok (some e)
  ]

  unfoldable pub add_entry : Option LedgerEntry → List LedgerEntry → List LedgerEntry
  add_entry none es = es
  add_entry (some e) es = e ∷ es

  -- parseLedger, from line n on
  unfoldable pub parse_ledger : ℕ → List Line → Result String (List LedgerEntry)
  parse_ledger n [] = ok []
  parse_ledger n (line ∷ lines) =
      let rest = parse_ledger (suc n) lines in
      if host.fits_buffer line
      then (parse_line n line >>= λ e. rest >>= λ es. ok (add_entry e es))
      else err "scanning ledger: bufio.Scanner: token too long"

  unfoldable pub entries_of : Content → Result String (List LedgerEntry)
  entries_of missing = ok []
  entries_of (unreadable x) = err (append "reading ledger: " x)
  entries_of (content lines) = parse_ledger 1 lines

  unfoldable pub entries : Process W (Result String (List LedgerEntry))
  entries = bind host.ctx_error (λ done. elim done [
    | some x ↦ pure (err (append "reading ledger: " x))
    | none ↦ bind host.read_file (λ c. pure (entries_of c))
  ])

  unfoldable pub find_by_key : String → Process W (Result String (Option LedgerEntry))
  find_by_key k = bind entries (λ found. elim found [
    | err x ↦ pure (err (append "looking up ledger key: " x))
    | ok es ↦ pure (ok (first_under k es))
  ])

  -- Record, after a write that was whole: an error no longer means that nothing happened.
  unfoldable pub settle_entry : Process W (Option ExecError)
  settle_entry = bind host.sync (λ x. elim x [
    | some _ ↦ bind host.close (λ _. pure (some outcome_unknown_error))
    | none ↦
        bind host.close
          (λ y. elim y [ some _ ↦ pure (some outcome_unknown_error) | none ↦ pure none ])
  ])

  unfoldable pub after_write : Write → Process W (Option ExecError)
  after_write whole = settle_entry
  after_write (nothing x) =
      bind host.close (λ _. pure (some (failure (append "writing ledger entry: " x))))
  after_write (partial x) = bind host.close (λ _. pure (some outcome_unknown_error))

  unfoldable pub write_entry : Bytes → Process W (Option ExecError)
  write_entry line = bind host.make_directory (λ x. elim x [
    | some t ↦ pure (some (failure (append "creating ledger directory: " t)))
    | none ↦ bind host.open_file (λ y. elim y [
      | some t ↦ pure (some (failure (append "opening ledger: " t)))
      | none ↦ bind (host.write line) after_write
    ])
  ])

  -- Record: `none` is success.
  unfoldable pub record_entry : LedgerEntry → Process W (Option ExecError)
  record_entry e = bind host.ctx_error (λ done. elim done [
    | some t ↦ pure (some (failure (append "recording ledger entry: " t)))
    | none ↦ elim (encode_entry host.text e) [
      | none ↦ pure (some (failure "encoding ledger entry"))
      | some line ↦ write_entry line
    ]
  ])

-- countEntries
unfoldable pub count_entries : List LedgerEntry → String → String → ℕ
count_entries [] run_id tool = 0
count_entries (e ∷ es) run_id tool =
    ite (str_dec e.run_id run_id)
      (ite (str_dec e.tool_name tool) (suc (count_entries es run_id tool))
        (count_entries es run_id tool))
      (count_entries es run_id tool)
