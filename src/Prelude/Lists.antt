-- ===== src/Prelude/Lists.antt =====
-- Lists measured by native numbers, their last element, and predicates on them by recursion.
use Prim.Native.Nat.{ℕ, suc, ◌+◌}
use mathlib.Core.Path.{◌≡◌, refl}
use mathlib.Core.List.{List, [], ◌∷◌, ◌++◌}
use mathlib.Core.Bool.{Bool, true, false}
use mathlib.Core.Option.{Option, none, some}
use native.Mathlib.Omega.{arith}

module _ {ℓ} {A : Type ℓ} where
  abbrev pub length : List A → ℕ
  length [] = 0
  length (x ∷ xs) = suc (length xs)

  -- len(xs) == 0
  abbrev pub is_nil : List A → Bool
  is_nil [] = true
  is_nil (x ∷ xs) = false

  abbrev pub get_last? : List A → Option A
  get_last? [] = none
  get_last? (x ∷ []) = some x
  get_last? (x ∷ y ∷ xs) = get_last? (y ∷ xs)

  -- Replaces the last element; an empty list stays empty.
  abbrev pub set_last : List A → A → List A
  set_last [] v = []
  set_last (x ∷ []) v = v ∷ []
  set_last (x ∷ y ∷ xs) v = x ∷ set_last (y ∷ xs) v

  pub length-append : (xs ys : List A) → length (xs ++ ys) ≡ length xs + length ys
  length-append [] ys = omega arith
  length-append (x ∷ xs) ys = omega (arith, length-append xs ys)

  pub get_last?-snoc : (xs : List A) (x : A) → get_last? (xs ++ x ∷ []) ≡ some x
  get_last?-snoc [] x = refl
  get_last?-snoc (y ∷ []) x = refl
  get_last?-snoc (y ∷ z ∷ xs) x = get_last?-snoc (z ∷ xs) x

module _ {ℓ κ} {A : Type ℓ} where
  abbrev pub All : (A → Type κ) → List A → Type κ
  All P [] = Unit
  All P (x ∷ xs) = P x × All P xs

  -- Every element but the last.
  abbrev pub AllButLast : (A → Type κ) → List A → Type κ
  AllButLast P [] = Unit
  AllButLast P (x ∷ []) = Unit
  AllButLast P (x ∷ y ∷ xs) = P x × AllButLast P (y ∷ xs)

module _ {ℓ κ} {A : Type ℓ} (P : A → Type κ) where
  pub All-append : (xs ys : List A) → All P xs → All P ys → All P (xs ++ ys)
  All-append [] ys hx hy = hy
  All-append (x ∷ xs) ys hx hy = (hx.0, All-append xs ys hx.1 hy)

  pub All-get_last? : (xs : List A) (x : A) → get_last? xs ≡ some x → All P xs → P x
  All-get_last? [] x e h = absurd (cc)
  All-get_last? (y ∷ []) x e h = ground (arith, e)
  All-get_last? (y ∷ z ∷ xs) x e h = All-get_last? (z ∷ xs) x e h.1

  pub All-set_last : (xs : List A) (x : A) → P x → All P xs → All P (set_last xs x)
  All-set_last [] x hx h = h
  All-set_last (y ∷ []) x hx h = (hx, tt)
  All-set_last (y ∷ z ∷ xs) x hx h = (h.0, All-set_last (z ∷ xs) x hx h.1)

  pub AllButLast-set_last : (xs : List A) (x : A) → AllButLast P xs → AllButLast P (set_last xs x)
  AllButLast-set_last [] x h = h
  AllButLast-set_last (y ∷ []) x h = tt
  AllButLast-set_last (y ∷ z ∷ []) x h = (h.0, tt)
  AllButLast-set_last (y ∷ z ∷ w ∷ xs) x h = (h.0, AllButLast-set_last (z ∷ w ∷ xs) x h.1)

  -- A list whose elements all satisfy the predicate may be extended by any element.
  pub AllButLast-snoc :
      (xs : List A) (x : A)
      → AllButLast P xs
      → ((y : A) → get_last? xs ≡ some y → P y)
      → AllButLast P (xs ++ x ∷ [])
  AllButLast-snoc [] x h last = tt
  AllButLast-snoc (y ∷ []) x h last = (last y refl, tt)
  AllButLast-snoc (y ∷ z ∷ xs) x h last = (h.0, AllButLast-snoc (z ∷ xs) x h.1 last)
