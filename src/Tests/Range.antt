-- ===== src/Tests/Range.antt =====
-- Two ranges over one registry.
use durable_agent_execution.Prelude.Dict.{put, get}
use durable_agent_execution.Json.Canonical.{lt_text}
use durable_agent_execution.Idempotency.Process.{returned}
use durable_agent_execution.Prelude.{String, ℕ, false, ◌∷◌, [], none, ◌≡◌, refl, str_dec}
use durable_agent_execution.Tools.{Tool, Registry, new_registry, lookup}
use durable_agent_execution.Tools.Definitions.{
  definitions, definitions_of, append_definition, sort_strings, insert_name,
}
use durable_agent_execution.Tools.Deterministic.{definitions-Perm}
use mathlib.Core.List.Permᴰ.{swap}

abbrev tool_named : String → Tool ℕ
tool_named name = record {
  name = name;
  has_side_effect = false;
  execute = λ inv args n. returned (record { result = ""; error = none; ctx_done = false }) n;
  reconcile = none;
}

abbrev registry : Registry ℕ
registry = new_registry (tool_named "run_tests" ∷ tool_named "open_pr" ∷ [])

definitions-Perm_example :
    definitions (λ (t : Tool ℕ). t.name) registry ("run_tests" ∷ "open_pr" ∷ [])
    ≡ definitions (λ (t : Tool ℕ). t.name) registry ("open_pr" ∷ "run_tests" ∷ [])
definitions-Perm_example =
    definitions-Perm (λ (t : Tool ℕ). t.name) registry ("run_tests" ∷ "open_pr" ∷ [])
      ("open_pr" ∷ "run_tests" ∷ []) (swap refl refl)

-- They are sorted by name.
sorted_definitions :
    definitions (λ (t : Tool ℕ). t.name) registry ("run_tests" ∷ "open_pr" ∷ [])
    ≡ "open_pr" ∷ "run_tests" ∷ []
unfolding definitions definitions_of append_definition sort_strings insert_name lt_text lookup get
    put new_registry str_dec
sorted_definitions = refl
