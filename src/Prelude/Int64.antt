-- ===== src/Prelude/Int64.antt =====
-- Go's `int` and `int64`: integers whose successor wraps at 2 ^ 63 - 1.
use Prim.Native.Nat.{ℕ, zero, suc, ◌+◌, ◌-◌, ◌^◌, ◌<◌, ◌≤◌, ◌%◌}
use mathlib.Core.Path.{◌≡◌, ap, sym}
use mathlib.Core.Bool.{Bool, true, false}
use native.Mathlib.Omega.{arith}
use native.Mathlib.Decide.{ℕ_discrete}
use durable_agent_execution.Prelude.Tests.{ltb, if◌then◌else◌, ◌==◌}

-- `negsuc n` is -(n + 1).
pub data ℤ : Type 0 where
  pos : ℕ → ℤ
  negsuc : ℕ → ℤ

abbrev pub max_int64 : ℕ
max_int64 = 2 ^ 63 - 1

pub pos-injective : {a b : ℕ} → pos a ≡ pos b → a ≡ b
pos-injective h = ground arith

pub negsuc-injective : {a b : ℕ} → negsuc a ≡ negsuc b → a ≡ b
negsuc-injective h = ground arith

pub pos-ne-negsuc : {a b : ℕ} → pos a ≡ negsuc b → ⊥
pos-ne-negsuc h = cc

unfoldable pub int_dec : Discrete ℤ
int_dec (pos a) (pos b) = elim (ℕ_discrete a b) [
  | yes p ↦ yes (ap pos p)
  | no n ↦ no (λ e. n (pos-injective e))
]
int_dec (pos a) (negsuc b) = no pos-ne-negsuc
int_dec (negsuc a) (pos b) = no (λ e. pos-ne-negsuc (sym e))
int_dec (negsuc a) (negsuc b) = elim (ℕ_discrete a b) [
  | yes p ↦ yes (ap negsuc p)
  | no n ↦ no (λ e. n (negsuc-injective e))
]

unfoldable pub inc : ℤ → ℤ
inc (pos n) = if n == max_int64 then negsuc max_int64 else pos (n + 1)
inc (negsuc zero) = pos 0
inc (negsuc (suc n)) = negsuc n

unfoldable pub lt_int : ℤ → ℤ → Bool
lt_int (pos a) (pos b) = ltb a b
lt_int (pos a) (negsuc b) = false
lt_int (negsuc a) (pos b) = true
lt_int (negsuc a) (negsuc b) = ltb b a

pub inc-pos : (n : ℕ) → n < max_int64 → inc (pos n) ≡ pos (suc n)
unfolding inc
inc-pos n h = ground arith

-- Two's complement, and back.
unfoldable pub to_word : ℤ → ℕ
to_word (pos n) = n
to_word (negsuc n) = 2 ^ 64 - 1 - n

unfoldable pub of_word : ℕ → ℤ
of_word n = if ltb n (2 ^ 63) then pos n else negsuc (2 ^ 64 - 1 - n)

-- The sum of two int64, which wraps.
unfoldable pub add_int : ℤ → ℤ → ℤ
unfolding to_word of_word
add_int a b = of_word ((to_word a + to_word b) % 2 ^ 64)

pub add_int-pos : (a b : ℕ) → a + b ≤ max_int64 → add_int (pos a) (pos b) ≡ pos (a + b)
unfolding add_int to_word of_word
add_int-pos a b room = ground arith
