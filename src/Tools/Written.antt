-- ===== src/Tools/Written.antt =====
-- What internal/tools/ledger.go relies on: files of package os that are opened to append.
use durable_agent_execution.Prelude.{◌≡◌, List, [], ◌∷◌, ◌++◌, ◌⊎◌, ℕ, String}
use durable_agent_execution.Json.{Bytes, malformed}
use durable_agent_execution.Idempotency.Process.{Process, Ran, returned, raised, crashed, left}
use durable_agent_execution.Tools.Host.{
  Host, Line, Write, whole, nothing, partial, Content, missing, unreadable, content,
}

-- A file: its finished lines, and what stands after the last newline.
pub record File : Type 0 where
  pub done : List Line
  pub torn : Line

-- The whole of a line ends the unfinished one, if there is one.
abbrev pub append_line : Bytes → File → File
append_line b f = record { done = f.done ++ (f.torn ++ b ∷ []) ∷ []; torn = [] }

abbrev pub tear : Bytes → File → File
tear b f = record { done = f.done; torn = f.torn ++ b ∷ [] }

-- What a Scanner finds.
abbrev pub scanned : File → List Line
scanned f = elim f.torn [ [] ↦ f.done | b ∷ bs ↦ f.done ++ (b ∷ bs) ∷ [] ]

module _ {W : Type 0} (file : W → File) (Passed : W → W → Type 0) where
  -- An operation that leaves the file alone.
  abbrev pub IsAside : {A : Type 0} → Process W A → Type 0
  IsAside m = (w : W) → (file (left (m w)) ≡ file w) × Passed w (left (m w))

  -- Some of a line is no JSON value, unless only the newline is missing. A process that dies has
  -- written the whole line or none of it.
  abbrev pub WriteSpec : Bytes → W → Ran W Write → Type 0
  WriteSpec b w (returned whole w') = file w' ≡ append_line b (file w)
  WriteSpec b w (returned (nothing x) w') = file w' ≡ file w
  WriteSpec b w (returned (partial x) w') =
      (file w' ≡ tear b (file w)) ⊎ (file w' ≡ tear malformed (file w))
  WriteSpec b w (raised e w') = file w' ≡ file w
  WriteSpec b w (crashed w') = (file w' ≡ append_line b (file w)) ⊎ (file w' ≡ file w)

  abbrev pub ReadSpec : W → Ran W Content → Type 0
  ReadSpec w (returned missing w') = scanned (file w) ≡ []
  ReadSpec w (returned (unreadable x) w') = Unit
  ReadSpec w (returned (content lines) w') = lines ≡ scanned (file w)
  ReadSpec w (raised e w') = Unit
  ReadSpec w (crashed w') = Unit

  -- `Passed` is what else the operations do to the world, such as the time that they take. One process
  -- writes at a time.
  pub record IsAppending (host : Host W) : Type 0 where
    pub passed_refl : (w : W) → Passed w w
    pub passed_trans : (a b d : W) → Passed a b → Passed b d → Passed a d
    pub ctx_aside : IsAside host.ctx_error
    pub make_directory_aside : IsAside host.make_directory
    pub open_aside : IsAside host.open_file
    pub sync_aside : IsAside host.sync
    pub close_aside : IsAside host.close
    pub read_aside : IsAside host.read_file
    pub now_aside : IsAside host.now
    pub getenv_aside : (name : String) → IsAside (host.getenv name)
    pub wait_aside : (d : ℕ) → IsAside (host.wait d)
    pub read_spec : (w : W) → ReadSpec w (host.read_file w)
    pub write_spec : (b : Bytes) (w : W) → WriteSpec b w (host.write b w)
    pub write_passed : (b : Bytes) (w : W) → Passed w (left (host.write b w))
