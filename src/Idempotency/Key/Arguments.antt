-- ===== src/Idempotency/Key/Arguments.antt =====
-- ArgsHash of internal/idempotency/key.go: the same arguments, and no others, have the same hash.
use durable_agent_execution.Json.Canonical.{canonical}
use durable_agent_execution.Json.{Json}
use Prim.Native.String.{◌++◌ as append}
use durable_agent_execution.Prelude.{String, ◌≡◌, true, some, ap, ◌↔◌, ok-injective}
use durable_agent_execution.Idempotency.Key.{args_hash, String, Json, some, canonical}
use durable_agent_execution.Json.Equivalence.{SameJson, canonical-SameJson}
use durable_agent_execution.Prelude.Cut.{is_free, joined_text}

module _ (sha256_hex : String → String) (text_of : Json → String) (n m : String) (a b : Json) where
  hash_again :
      (n ≡ m) × SameJson a b
      → args_hash sha256_hex text_of n (some a) ≡ args_hash sha256_hex text_of m (some b)
  unfolding args_hash
  hash_again (same, same_args) = cc (same, ap text_of ((canonical-SameJson a b).0 same_args))

  -- What is hashed of a call.
  abbrev pub hashed_text : String → Json → String
  hashed_text name args = append name (String.◌∷◌ "\0" (text_of (canonical args)))

  -- Calls of two tools, whose names hold no NUL, have the same hash exactly when it is one tool and its
  -- arguments are the same JSON value, whatever the order of members, unless SHA-256 collides on the two
  -- texts that are hashed; the encoding tells the two canonical forms apart if they differ.
  pub args_hash-SameJson :
      is_free 0 n ≡ true
      → is_free 0 m ≡ true
      → (sha256_hex (hashed_text n a) ≡ sha256_hex (hashed_text m b)
          → hashed_text n a ≡ hashed_text m b)
      → (text_of (canonical a) ≡ text_of (canonical b) → canonical a ≡ canonical b)
      → (args_hash sha256_hex text_of n (some a) ≡ args_hash sha256_hex text_of m (some b))
        ↔ ((n ≡ m) × SameJson a b)
  unfolding args_hash
  args_hash-SameJson free free' separates injective = (
    λ same.
        let parts = joined_text "\0" n _ m _ free free' (separates (ok-injective same)) in
        (parts.0, (canonical-SameJson a b).1 (injective parts.1)),
    hash_again,
  )
