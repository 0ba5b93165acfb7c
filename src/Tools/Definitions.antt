-- ===== src/Tools/Definitions.antt =====
-- Definitions of internal/tools/tool.go. A Go map is ranged over in any order: the order of this call is
-- a parameter.
use durable_agent_execution.Tools.{Tool, Registry, lookup}
use durable_agent_execution.Prelude.{String, List, ◌∷◌, Option, if◌then◌else◌, some, [], none}
use durable_agent_execution.Json.Canonical.{lt_text}

unfoldable pub insert_name : String → List String → List String
insert_name name [] = name ∷ []
insert_name name (n ∷ names) =
    let rest = insert_name name names in if lt_text n name then n ∷ rest else name ∷ n ∷ names

-- sort.Strings
unfoldable pub sort_strings : List String → List String
sort_strings [] = []
sort_strings (n ∷ names) = insert_name n (sort_strings names)

-- What is sent of a tool is given by `def`, the schema of its Description and InputSchema.
module _ {W D : Type 0} (def : Tool W → D) where
  -- A name of the map has its tool.
  unfoldable pub append_definition : Option (Tool W) → List D → List D
  append_definition none defs = defs
  append_definition (some t) defs = def t ∷ defs

  unfoldable pub definitions_of : Registry W → List String → List D
  definitions_of reg [] = []
  definitions_of reg (n ∷ names) = append_definition (lookup reg n) (definitions_of reg names)

  unfoldable pub definitions : Registry W → List String → List D
  definitions reg range = definitions_of reg (sort_strings range)
