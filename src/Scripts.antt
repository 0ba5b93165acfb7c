-- ===== src/Scripts.antt =====
-- scripts/effects/main.go: the report on the ledger that counts duplicated side effects. The rows are
-- printed in the order of their keys, which is left out.
pub mod Duplicates
pub mod Replay
pub mod Truncated
use durable_agent_execution.Prelude.{
  ℕ, zero, suc, ◌+◌, ◌-◌, ◌==◌, String, List, [], ◌∷◌, Bool, true, false, Result, ok, err, str_dec,
  ite, length, if◌then◌else◌,
}
use durable_agent_execution.Tools.Ledger.{LedgerEntry}

-- row and totals
pub record Row : Type 0 where
  pub key : String
  pub tool : String
  pub count : ℕ

pub record Totals : Type 0 where
  pub entries : ℕ
  pub distinct_keys : ℕ
  pub duplicates : ℕ

-- Whether an entry counts: runID restricts it if set.
unfoldable pub is_counted : String → LedgerEntry → Bool
is_counted String.[] e = true
is_counted (String.◌∷◌ c s) e = ite (str_dec e.run_id (String.◌∷◌ c s)) true false

-- The row of the entry's key is counted up, or a new one begins.
unfoldable pub count_row : LedgerEntry → List Row → List Row
count_row e [] = record { key = e.idempotency_key; tool = e.tool_name; count = 1 } ∷ []
count_row e (row ∷ rows) =
    ite (str_dec row.key e.idempotency_key) (record row { count = suc row.count } ∷ rows)
      (row ∷ count_row e rows)

-- The loop over the entries.
unfoldable pub rows_of : String → List LedgerEntry → List Row → List Row
rows_of run_id [] rows = rows
rows_of run_id (e ∷ es) rows =
    rows_of run_id es (if is_counted run_id e then count_row e rows else rows)

unfoldable pub counted : String → List LedgerEntry → ℕ
counted run_id [] = 0
counted run_id (e ∷ es) = (if is_counted run_id e then 1 else 0) + counted run_id es

-- Each row beyond its first entry.
unfoldable pub extra : List Row → ℕ
extra [] = 0
extra (row ∷ rows) = (row.count - 1) + extra rows

unfoldable pub totals_of : ℕ → List Row → Totals
totals_of entries rows = record {
  entries = entries;
  distinct_keys = length rows;
  duplicates = extra rows;
}

-- summarize, less the rows
unfoldable pub summarize : List LedgerEntry → String → Totals
summarize es run_id = totals_of (counted run_id es) (rows_of run_id es [])

-- The exit code of run, for whether the ledger exists and what reading it gives.
unfoldable pub exit_of : Totals → ℕ
exit_of t = if t.duplicates == 0 then 0 else 1

unfoldable pub effects_exit : Bool → Result String (List LedgerEntry) → String → ℕ
effects_exit false entries run_id = 2
effects_exit true (err x) run_id = 3
effects_exit true (ok es) run_id = exit_of (summarize es run_id)
