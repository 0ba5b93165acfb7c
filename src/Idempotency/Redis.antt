-- ===== src/Idempotency/Redis.antt =====
-- RedisStore of internal/idempotency/store.go. The client (go-redis) and the server are parameters: a
-- server runs a script atomically.
pub mod Values
pub mod Refines
pub mod Resolved
use durable_agent_execution.Idempotency.Redis.Values.{decode_record, encode_record}
use durable_agent_execution.Prelude.{
  ℕ, ◌+◌, ◌==◌, String, Option, none, some, Bool, true, false, ◌&&◌, ◌||◌, not, Result, ok, err,
  ltb, str_dec, ite, if◌then◌else◌,
}
use Prim.Native.Nat.{◌/◌}
use durable_agent_execution.Prelude.Int64.{ℤ, pos}
use durable_agent_execution.Errors.{Error, message, claim_lost, corrupt_record}
use durable_agent_execution.Json.{
  Json, null, str, num, obj, Fields, end, field, Bytes, malformed, doc, write_ptr, read, members,
  into_string, into_int, into_ptr, find,
}
use durable_agent_execution.Events.Codec.{TimeText, time_limit, into_time}
use durable_agent_execution.Idempotency.Process.{Process, pure, raise, ◌>>=◌}
use durable_agent_execution.Idempotency.Record.{
  RecordState, claimed, resolved, other_state, IdemRecord, ClaimResult,
}
use durable_agent_execution.Idempotency.Store.{Store}

-- What a script answers, and the value that it sets, with its expiry in seconds.
pub record Reply : Type 0 where
  pub answer : ℕ
  pub sets : Option (Bytes × ℕ)

pub record Client (W : Type 0) : Type 0 where
  -- SET key value NX GET EX: the value that was there, or redis.Nil
  pub set_args : String → Bytes → ℕ → Process W (Option Bytes)
  pub get : String → Process W (Option Bytes)
  pub run_script : (Option Bytes → Reply) → String → Process W ℕ

-- The fields that the script reads of a table: rec.state and rec.claim_token.
unfoldable pub holds_claim : String → Fields → Bool
unfolding find
holds_claim expected fs = elim (find "state" fs) [
  | some (str s) ↦
      ite (str_dec s "claimed")
        (elim (find "claim_token" fs) [
          | some (str t) ↦ ite (str_dec t expected) true false
          | _ ↦ false
        ])
        false
  | _ ↦ false
]

-- casScript, for the value of KEYS[1].
unfoldable pub cas_script : String → Bytes → ℕ → Option Bytes → Reply
cas_script expected value seconds (some (doc (obj fs))) =
    if holds_claim expected fs
    then record { answer = 1; sets = some (value, seconds) }
    else record { answer = 0; sets = none }
cas_script expected value seconds _ = record { answer = 0; sets = none }

module _ {W : Type 0} (text : TimeText) (client : Client W) (ttl : ℕ) where
  -- An error of the client is wrapped, and stays what it is.
  unfoldable pub decoded : Bytes → Process W IdemRecord
  decoded b = elim (decode_record text b) [ err e ↦ raise e | ok rec ↦ pure rec ]

  -- The reply to Claim's command: redis.Nil is an acquired key.
  unfoldable pub claimed_of : Option Bytes → Process W ClaimResult
  claimed_of none = pure (record { acquired = true; existing = none })
  claimed_of (some old) =
      decoded old >>= λ rec. pure (record { acquired = false; existing = some rec })

  unfoldable pub redis_claim : String → IdemRecord → Process W ClaimResult
  redis_claim key rec = elim (encode_record text rec) [
    | none ↦ raise (message "encoding claim record")
    | some val ↦ (client.set_args key val ttl >>= claimed_of)
  ]

  unfoldable pub got : Option Bytes → Process W (Option IdemRecord)
  got none = pure none
  got (some raw) = decoded raw >>= λ rec. pure (some rec)

  unfoldable pub redis_get : String → Process W (Option IdemRecord)
  redis_get key = client.get key >>= got

  unfoldable pub cas_verdict : ℕ → Process W (Unit {0})
  cas_verdict n = if n == 1 then pure tt else raise claim_lost

  -- ttlSeconds
  abbrev pub ttl_seconds : ℕ
  ttl_seconds = ttl / 1000000000

  unfoldable pub compare_and_set : String → String → IdemRecord → Process W (Unit {0})
  compare_and_set key expected rec = elim (encode_record text rec) [
    | none ↦ raise (message "encoding record")
    | some val ↦ (client.run_script (cas_script expected val ttl_seconds) key >>= cas_verdict)
  ]

  unfoldable pub redis_store : Store W
  redis_store = record {
    claim = redis_claim;
    get_record = redis_get;
    resolve = compare_and_set;
    take_over = compare_and_set;
  }
