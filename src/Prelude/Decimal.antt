-- ===== src/Prelude/Decimal.antt =====
-- %d of package fmt, for an int64.
use Prim.Native.Nat.{ℕ, zero, suc, ◌+◌, ◌/◌, ◌%◌}
use Prim.Native.String.{String, ◌++◌ as append}
use durable_agent_execution.Prelude.Tests.{ltb, ◌==◌, if◌then◌else◌}
use durable_agent_execution.Prelude.Int64.{ℤ, pos, negsuc}

-- A remainder modulo 10 as a text.
unfoldable pub digit : ℕ → String
digit n =
    if n == 0
    then "0"
    else if n == 1
    then "1"
    else if n == 2
    then "2"
    else if n == 3
    then "3"
    else if n == 4
    then "4"
    else if n == 5
    then "5"
    else if n == 6
    then "6"
    else if n == 7
    then "7"
    else if n == 8
    then "8"
    else "9"

-- An int64 has at most 19 digits: fuel of 20 is enough.
unfoldable pub digits : ℕ → ℕ → String
digits zero n = ""
digits (suc fuel) n =
    let rest = digits fuel (n / 10) in if ltb n 10 then digit n else append rest (digit (n % 10))

unfoldable pub int_text : ℤ → String
int_text (pos n) = digits 20 n
int_text (negsuc n) = append "-" (digits 20 (n + 1))
