-- ===== src/Idempotency/Key/Separates.antt =====
-- Key of internal/idempotency/key.go: two invocations do not share a key.
use Prim.Native.Nat.{◌/◌, ◌%◌}
use Prim.Native.String.{◌++◌ as append}
use durable_agent_execution.Prelude.{
  ℕ, zero, suc, ◌+◌, ◌≡◌, refl, String, true, sym, ap, ◌∙◌, Bool, ◌==◌, ltb, if◌then◌else◌, false,
}
use durable_agent_execution.Prelude.Int64.{ℤ, pos, negsuc}
use durable_agent_execution.Prelude.Decimal.{digit, digits, int_text}
use durable_agent_execution.Prelude.Cut.{
  is_free, joined_text, is_free-append, append-cancel, one-append,
}
use durable_agent_execution.Idempotency.Key.{key}

is_free-if :
    (b : Bool) (s t : String)
    → is_free b':' s ≡ true
    → is_free b':' t ≡ true
    → is_free b':' (if b then s else t) ≡ true
is_free-if true s t hs ht = hs
is_free-if false s t hs ht = ht

digit-is_free : (n : ℕ) → is_free b':' (digit n) ≡ true
unfolding digit is_free
digit-is_free n = is_free-if (n == 0) _ _ refl (
    is_free-if (n == 1) _ _ refl (
      is_free-if (n == 2) _ _ refl (
        is_free-if (n == 3) _ _ refl (
          is_free-if (n == 4) _ _ refl (
            is_free-if (n == 5) _ _ refl (
              is_free-if (n == 6) _ _ refl
                (is_free-if (n == 7) _ _ refl (is_free-if (n == 8) _ _ refl refl))))))))

digits-is_free : (fuel n : ℕ) → is_free b':' (digits fuel n) ≡ true
unfolding digits is_free
digits-is_free zero n = refl
digits-is_free (suc fuel) n = is_free-if (ltb n 10) _ _ (digit-is_free n) (
    is_free-append b':' (digits fuel (n / 10)) (digit (n % 10)) (digits-is_free fuel (n / 10))
      (digit-is_free (n % 10)))

int_text-is_free : (n : ℤ) → is_free b':' (int_text n) ≡ true
unfolding int_text is_free
int_text-is_free (pos n) = digits-is_free 20 n
int_text-is_free (negsuc n) =
    is_free-append b':' "-" (digits 20 (n + 1)) refl (digits-is_free 20 (n + 1))

joined_at_colon :
    (s t s' t' : String)
    → is_free b':' s ≡ true
    → is_free b':' s' ≡ true
    → append s (append ":" t) ≡ append s' (append ":" t')
    → (s ≡ s') × (t ≡ t')
joined_at_colon s t s' t' free free' same =
    joined_text ":" s t s' t' free free'
      (ap (append s) (sym (one-append ":" t)) ∙ same ∙ ap (append s') (one-append ":" t'))

-- Two tool invocations that have the same key, in runs whose ids hold no colon, as a uuid holds none,
-- are the same invocation of the same run: their run ids and their tool_use ids are equal.
pub key-separates :
    (run_id run_id' tool_use_id tool_use_id' : String) (step step' : ℤ)
    → is_free b':' run_id ≡ true
    → is_free b':' run_id' ≡ true
    → key run_id step tool_use_id ≡ key run_id' step' tool_use_id'
    → (run_id ≡ run_id') × (tool_use_id ≡ tool_use_id')
unfolding key
key-separates run_id run_id' tool_use_id tool_use_id' step step' free free' same =
    let (same_run, rest) =
      joined_at_colon run_id _ run_id' _ free free' (append-cancel "idem:" _ _ same) in
    (
      same_run,
      (joined_at_colon (int_text step) tool_use_id (int_text step') tool_use_id'
          (int_text-is_free step) (int_text-is_free step') rest).1,
    )
