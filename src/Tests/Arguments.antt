-- ===== src/Tests/Arguments.antt =====
-- Tool arguments as they were journaled, and as JSONB gives them back.
use durable_agent_execution.Prelude.Int64.{pos}
use durable_agent_execution.Prelude.{String, ◌↔◌, some, ◌≡◌, refl}
use durable_agent_execution.Json.Canonical.{canonical, insert_member, lt_text}
use durable_agent_execution.Json.{Json, Fields, obj, field, str, num, end}
use durable_agent_execution.Json.Equivalence.{SameJson, canonical-SameJson}
use durable_agent_execution.Idempotency.Key.{args_hash}
use durable_agent_execution.Idempotency.Key.Arguments.{args_hash-SameJson}
use durable_agent_execution.Prelude.Cut.{is_free}
use Prim.Native.String.{◌++◌ as append, String}

-- {"title":"Fix","files":2,"title":"Fix it"}
abbrev journaled_args : Json
journaled_args =
    obj (field "title" (str "Fix") (field "files" (num (pos 2)) (field "title" (str "Fix it") end)))

-- {"files":2,"title":"Fix it"}
abbrev projected_args : Json
projected_args = obj (field "files" (num (pos 2)) (field "title" (str "Fix it") end))

same_canonical : canonical journaled_args ≡ canonical projected_args
unfolding canonical insert_member lt_text
same_canonical = refl

-- The texts of strings and the names and texts of an object's members.
unfoldable value_text : Json → String
value_text (str s) = s
value_text _ = ""

unfoldable members_text : Fields → String
unfolding value_text
members_text end = "}"
members_text (field k v rest) = append k (append ":" (append (value_text v) (members_text rest)))

unfoldable text_of : Json → String
unfolding members_text value_text
text_of (obj fs) = members_text fs
text_of j = value_text j

canonical-SameJson_example :
    SameJson journaled_args projected_args ↔ (canonical journaled_args ≡ canonical projected_args)
canonical-SameJson_example = canonical-SameJson journaled_args projected_args

args_hash-SameJson_example :
    (args_hash (λ s. s) text_of "open_pr" (some journaled_args)
      ≡ args_hash (λ s. s) text_of "open_pr" (some projected_args))
    ↔ (◌≡◌ {A = String} "open_pr" "open_pr" × SameJson journaled_args projected_args)
unfolding is_free
args_hash-SameJson_example =
    args_hash-SameJson (λ s. s) text_of "open_pr" "open_pr" journaled_args projected_args refl refl
      (λ h. h) (λ h. same_canonical)
