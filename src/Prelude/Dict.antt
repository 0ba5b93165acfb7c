-- ===== src/Prelude/Dict.antt =====
-- Go's maps as association lists. The program never depends on the order of a map.
use Prim.Native.Nat.{suc}
use mathlib.Core.Path.{◌≡◌, refl}
use mathlib.Core.Logic.{ite}
use mathlib.Core.List.{List, [], ◌∷◌}
use mathlib.Core.Option.{Option, none, some}
use native.Mathlib.Omega.{arith}
use durable_agent_execution.Prelude.Lists.{length}

module _ {ℓ} {K V : Type ℓ} (dec : Discrete K) where
  -- m[k], with the `ok` of a two-valued read
  unfoldable pub get : List (K × V) → K → Option V
  get [] k = none
  get ((j, v) ∷ m) k = ite (dec j k) (some v) (get m k)

  -- m[k] = v
  unfoldable pub put : List (K × V) → K → V → List (K × V)
  put [] k v = (k, v) ∷ []
  put ((j, w) ∷ m) k v = ite (dec j k) ((k, v) ∷ m) ((j, w) ∷ put m k v)

  pub get-put :
      (m : List (K × V)) (k j : K) (v : V) → get (put m k v) j ≡ ite (dec k j) (some v) (get m j)
  unfolding get put
  get-put [] k j v = refl
  get-put ((i, w) ∷ m) k j v = ground (arith, get-put m k j v)

  -- a write under a new key adds one entry
  pub length-put :
      (m : List (K × V)) (k : K) (v : V) → get m k ≡ none → length (put m k v) ≡ suc (length m)
  unfolding get put
  length-put [] k v h = refl
  length-put ((i, w) ∷ m) k v h = ground (arith, length-put m k v)
