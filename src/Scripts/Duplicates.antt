-- ===== src/Scripts/Duplicates.antt =====
-- scripts/effects/main.go as evidence: what its exit code says of the ledger.
use durable_agent_execution.Prelude.{
  ℕ, ◌+◌, ◌≡◌, ◌≤◌, refl, String, List, [], ◌∷◌, Bool, true, false, Bool-cases, inl, inr, ok, All,
  str_dec, ite, arith, sym, if◌then◌else◌, Result, err, subst,
}
use durable_agent_execution.Tools.Ledger.{LedgerEntry}
use durable_agent_execution.Scripts.{
  Row, is_counted, count_row, rows_of, extra, totals_of, summarize, effects_exit, exit_of,
}

-- The entries that count under a key.
unfoldable pub counted_under : String → String → List LedgerEntry → ℕ
counted_under run_id k [] = 0
counted_under run_id k (e ∷ es) =
    (if is_counted run_id e then ite (str_dec e.idempotency_key k) 1 0 else 0)
    + counted_under run_id k es

-- The count of a key's row.
count_of : String → List Row → ℕ
count_of k [] = 0
count_of k (row ∷ rows) = ite (str_dec row.key k) row.count (count_of k rows)

sum_of : List Row → ℕ
sum_of [] = 0
sum_of (row ∷ rows) = row.count + sum_of rows

abbrev IsUsed : Row → Type 0
IsUsed row = 1 ≤ row.count

count_of-count_row :
    (k : String) (e : LedgerEntry) (rows : List Row)
    → count_of k (count_row e rows) ≡ ite (str_dec e.idempotency_key k) 1 0 + count_of k rows
unfolding count_of count_row
count_of-count_row k e [] = ground arith
count_of-count_row k e (row ∷ rows) = ground (arith, count_of-count_row k e rows)

ite-IsUsed :
    {X : Type 0} (d : Dec X) (xs ys : List Row)
    → All IsUsed xs
    → All IsUsed ys
    → All IsUsed (ite d xs ys)
ite-IsUsed (yes x) xs ys hx hy = hx
ite-IsUsed (no n) xs ys hx hy = hy

count_row-IsUsed :
    (e : LedgerEntry) (rows : List Row) → All IsUsed rows → All IsUsed (count_row e rows)
unfolding count_row
count_row-IsUsed e [] h = (omega arith, tt)
count_row-IsUsed e (row ∷ rows) h =
    ite-IsUsed (str_dec row.key e.idempotency_key) _ _ (omega arith, h.1)
      (h.0, count_row-IsUsed e rows h.1)

rows_of-IsUsed :
    (run_id : String) (es : List LedgerEntry) (rows : List Row)
    → All IsUsed rows
    → All IsUsed (rows_of run_id es rows)
unfolding rows_of
rows_of-IsUsed run_id [] rows h = h
rows_of-IsUsed run_id (e ∷ es) rows h = elim (Bool-cases (is_counted run_id e)) [
  | inl yes_counted ↦
      subst (λ b. All IsUsed (rows_of run_id es (if b then count_row e rows else rows)))
        (sym yes_counted) (rows_of-IsUsed run_id es (count_row e rows) (count_row-IsUsed e rows h))
  | inr left_out ↦
      subst (λ b. All IsUsed (rows_of run_id es (if b then count_row e rows else rows)))
        (sym left_out) (rows_of-IsUsed run_id es rows h)
]

-- A key's row counts its entries.
count_of-rows_of :
    (run_id k : String) (es : List LedgerEntry) (rows : List Row)
    → count_of k (rows_of run_id es rows) ≡ counted_under run_id k es + count_of k rows
unfolding rows_of counted_under
count_of-rows_of run_id k [] rows = omega arith
count_of-rows_of run_id k (e ∷ es) rows = elim (Bool-cases (is_counted run_id e)) [
  | inl yes_counted ↦ ground (
    arith,
    yes_counted,
    count_of-rows_of run_id k es (count_row e rows),
    count_of-count_row k e rows,
  )
  | inr left_out ↦ ground (arith, left_out, count_of-rows_of run_id k es rows)
]

-- Without an extra entry, every row counts one.
count_of-extra :
    (k : String) (rows : List Row) → All IsUsed rows → extra rows ≡ 0 → count_of k rows ≤ 1
unfolding count_of extra
count_of-extra k [] h none_extra = omega arith
count_of-extra k (row ∷ rows) h none_extra =
    ground (arith, h.0, none_extra, count_of-extra k rows h.1)

-- Exit code 0 of the report means that the ledger was there and was read, and that no key has two
-- entries among those that count.
pub effects_exit-once :
    (exists : Bool) (found : Result String (List LedgerEntry)) (run_id k : String)
    → effects_exit exists found run_id ≡ 0
    → (es : List LedgerEntry) × (exists ≡ true) × (found ≡ ok es) × (counted_under run_id k es ≤ 1)
unfolding effects_exit exit_of summarize totals_of count_of
effects_exit-once false found run_id k h = absurd (omega (arith, h))
effects_exit-once true (err x) run_id k h = absurd (omega (arith, h))
effects_exit-once true (ok es) run_id k h = (
  es,
  refl,
  refl,
  omega (
    arith,
    count_of-rows_of run_id k es [],
    count_of-extra k (rows_of run_id es []) (rows_of-IsUsed run_id es [] tt) (ground (arith, h)),
  ),
)
