-- ===== src/Prelude/Cut.antt =====
-- Texts cut at a character: Cut and Split of package strings.
use Prim.Native.Nat.{ℕ, compare, Ordering}
use Prim.Native.Char.{Char, code}
use Prim.Native.String.{String, ◌++◌}
use Prim.Native.String.append
use mathlib.Core.Path.{◌≡◌, ap, sym, ◌∙◌}
use mathlib.Core.Logic.{inl, inr}
use mathlib.Core.Bool.{Bool, true, false}
use mathlib.Core.Option.{Option, none, some}
use mathlib.Core.List.{List, [], ◌∷◌}
use native.Mathlib.Omega.{arith}
use durable_agent_execution.Prelude.Tests.{Bool-cases}

abbrev pub is_char : ℕ → ℕ → Bool
is_char c d = elim (compare c d) [ Ordering.eq ↦ true | _ ↦ false ]

-- A first character before the text in front of a separator.
abbrev pub onto : Char → Option (String × String) → Option (String × String)
onto c none = none
onto c (some (before, after)) = some (String.◌∷◌ c before, after)

-- strings.Cut at a character of this code: the text before and after the first one.
unfoldable pub cut : ℕ → String → Option (String × String)
cut sep String.[] = none
cut sep (String.◌∷◌ c s) =
    let rest = cut sep s in
    elim (is_char (code c) sep) [ true ↦ some ("", s) | false ↦ onto c rest ]

-- Whether a text holds no such character.
unfoldable pub is_free : ℕ → String → Bool
is_free sep String.[] = true
is_free sep (String.◌∷◌ c s) =
    let rest = is_free sep s in elim (is_char (code c) sep) [ true ↦ false | false ↦ rest ]

abbrev pub onto_first : Char → List String → List String
onto_first c [] = String.◌∷◌ c "" ∷ []
onto_first c (s ∷ ss) = String.◌∷◌ c s ∷ ss

-- strings.Split at a character.
unfoldable pub split : ℕ → String → List String
split sep String.[] = "" ∷ []
split sep (String.◌∷◌ c s) =
    let rest = split sep s in
    elim (is_char (code c) sep) [ true ↦ "" ∷ rest | false ↦ onto_first c rest ]

is_char_self : (n : ℕ) → is_char n n ≡ true
is_char_self n = ground arith

append-nil_text : (t : String) → String.[] ++ t ≡ t
append-nil_text t = λ i. append.nil t i

pub append-cons_text : (c : Char) (s t : String) → String.◌∷◌ c s ++ t ≡ String.◌∷◌ c (s ++ t)
append-cons_text c s t = λ i. append.cons c s t i

cut-at : (sep : Char) (t : String) → cut (code sep) (String.◌∷◌ sep t) ≡ some ("", t)
unfolding cut
cut-at sep t = ground (arith, is_char_self (code sep))

cut-past :
    (sep c : Char) (s : String)
    → is_char (code c) (code sep) ≡ false
    → cut (code sep) (String.◌∷◌ c s) ≡ onto c (cut (code sep) s)
unfolding cut
cut-past sep c s other = ground (arith, other)

-- A text without the separator, and what follows the separator after it, are what Cut returns.
pub cut-append :
    (sep : Char) (s t : String)
    → is_free (code sep) s ≡ true
    → cut (code sep) (s ++ String.◌∷◌ sep t) ≡ some (s, t)
unfolding is_free
cut-append sep String.[] t free =
    ap (cut (code sep)) (append-nil_text (String.◌∷◌ sep t)) ∙ cut-at sep t
cut-append sep (String.◌∷◌ c s) t free = elim (Bool-cases (is_char (code c) (code sep))) [
  | inl same ↦ absurd (ground (arith, free, same))
  | inr other ↦
      ap (cut (code sep)) (append-cons_text c s (String.◌∷◌ sep t))
      ∙ cut-past sep c (s ++ String.◌∷◌ sep t) other
      ∙ ap (onto c) (cut-append sep s t (ground (arith, free, other)))
]

abbrev tail_of : String → String
tail_of String.[] = ""
tail_of (String.◌∷◌ c s) = s

pub append-cancel : (p s t : String) → p ++ s ≡ p ++ t → s ≡ t
append-cancel String.[] s t h = sym (append-nil_text s) ∙ h ∙ append-nil_text t
append-cancel (String.◌∷◌ c p) s t h =
    append-cancel p s t (ap tail_of (sym (append-cons_text c p s) ∙ h ∙ append-cons_text c p t))

pub one-append : (c : Char) (s : String) → String.◌∷◌ c "" ++ s ≡ String.◌∷◌ c s
one-append c s = append-cons_text c "" s ∙ ap (String.◌∷◌ c) (append-nil_text s)

pub is_free-append :
    (sep : ℕ) (s t : String)
    → is_free sep s ≡ true
    → is_free sep t ≡ true
    → is_free sep (s ++ t) ≡ true
unfolding is_free
is_free-append sep String.[] t hs ht = ap (is_free sep) (append-nil_text t) ∙ ht
is_free-append sep (String.◌∷◌ c s) t hs ht = elim (Bool-cases (is_char (code c) sep)) [
  | inl same ↦ absurd (ground (arith, hs, same))
  | inr other ↦
      ap (is_free sep) (append-cons_text c s t) ∙ ground (arith, other, hs, is_free-append sep s t)
]

before_text : Option (String × String) → String
before_text none = ""
before_text (some (s, t)) = s

after_text : Option (String × String) → String
after_text none = ""
after_text (some (s, t)) = t

-- Two texts that are joined at a separator that their first parts do not hold have the same parts.
pub joined_text :
    (sep : Char) (s t s' t' : String)
    → is_free (code sep) s ≡ true
    → is_free (code sep) s' ≡ true
    → s ++ String.◌∷◌ sep t ≡ s' ++ String.◌∷◌ sep t'
    → (s ≡ s') × (t ≡ t')
unfolding before_text after_text
joined_text sep s t s' t' free free' same =
    let cuts : some (s, t) ≡ some (s', t') =
      sym (cut-append sep s t free) ∙ ap (cut (code sep)) same ∙ cut-append sep s' t' free' in
    (ap before_text cuts, ap after_text cuts)
