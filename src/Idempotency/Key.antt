-- ===== src/Idempotency/Key.antt =====
-- Key and ArgsHash of internal/idempotency/key.go.
pub mod Separates
pub mod Arguments
use durable_agent_execution.Json.Canonical.{canonical}
use durable_agent_execution.Errors.{Error, message}
use durable_agent_execution.Json.{Json, RawMessage}
use Prim.Native.String.{◌++◌ as append}
use durable_agent_execution.Prelude.{String, Result, err, some, ok, none}
use durable_agent_execution.Prelude.Int64.{ℤ}
use durable_agent_execution.Prelude.Decimal.{int_text}

-- idem:{run_id}:{step}:{tool_use_id}
unfoldable pub key : String → ℤ → String → String
key run_id step tool_use_id =
    append "idem:" (append run_id (append ":" (append (int_text step) (append ":" tool_use_id))))

-- ArgsHash, with hex(sha256(text)) and the text that encoding/json writes for a value as parameters. No
-- argument at all is no JSON text.
unfoldable pub args_hash :
    (String → String) → (Json → String) → String → RawMessage → Result Error String
args_hash sha256_hex text_of tool_name none =
    err (message "canonicalizing tool args: decoding json: EOF")
args_hash sha256_hex text_of tool_name (some args) =
    ok (sha256_hex (append tool_name (String.◌∷◌ "\0" (text_of (canonical args)))))
