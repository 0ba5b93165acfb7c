-- ===== src/Idempotency/Process.antt =====
-- A worker process that acts on a world: it returns a value, returns a Go error, or dies. What it did
-- to the world before its death stays done.
use durable_agent_execution.Prelude.{Result, ok, err}
use durable_agent_execution.Errors.{Error}

pub data Ran (W A : Type 0) : Type 0 where
  returned : A → W → Ran W A
  raised : Error → W → Ran W A
  crashed : W → Ran W A

abbrev pub Process : Type 0 → Type 0 → Type 0
Process W A = W → Ran W A

module _ {W : Type 0} where
  unfoldable pub pure : {A : Type 0} → A → Process W A
  pure a w = returned a w

  unfoldable pub raise : {A : Type 0} → Error → Process W A
  raise e w = raised e w

  -- os.Exit
  unfoldable pub exit : {A : Type 0} → Process W A
  exit w = crashed w

  unfoldable pub after : {A B : Type 0} → Ran W A → (A → Process W B) → Ran W B
  after (returned a w) f = f a w
  after (raised e w) f = raised e w
  after (crashed w) f = crashed w

  infixl 5 ◌>>=◌ ◌>>◌
  abbrev pub ◌>>=◌ : {A B : Type 0} → Process W A → (A → Process W B) → Process W B
  ◌>>=◌ m f w = after (m w) f

  abbrev pub ◌>>◌ : {A B : Type 0} → Process W A → Process W B → Process W B
  m >> k = m >>= λ _. k

  -- `v, err := m`: the error as a value.
  unfoldable pub caught : {A : Type 0} → Ran W A → Ran W (Result Error A)
  caught (returned a w) = returned (ok a) w
  caught (raised e w) = returned (err e) w
  caught (crashed w) = crashed w

  unfoldable pub try : {A : Type 0} → Process W A → Process W (Result Error A)
  unfolding caught
  try m w = caught (m w)

  -- The world that is left, however the process ended.
  abbrev pub left : {A : Type 0} → Ran W A → W
  left (returned a w) = w
  left (raised e w) = w
  left (crashed w) = w
