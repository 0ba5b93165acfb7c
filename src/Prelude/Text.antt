-- ===== src/Prelude/Text.antt =====
-- Texts are compared whole: a decision, which hands each branch its proof.
use Prim.Native.Nat.{ℕ}
use Prim.Native.Char.{code}
use Prim.Native.String.{String}
use mathlib.Core.Path.{◌≡◌, refl}
use mathlib.Core.Logic.{ite}
use mathlib.Core.Bool.{◌&&◌, Bool, true, false}
use mathlib.Core.List.{List, [], ◌∷◌}
use text.Mathlib.Text.{◌==◌}
use text.Mathlib.TextEquality.{eq_iff}

abbrev pub code_list : String → List ℕ
code_list String.[] = []
code_list (String.◌∷◌ c s) = code c ∷ code_list s

dec_of_test : {s t : String} → Dec ((s == t) ≡ true) → Dec (s ≡ t)
dec_of_test {s} {t} (yes e) = yes ((eq_iff s t).0 e)
dec_of_test {s} {t} (no n) = no (λ p. n ((eq_iff s t).1 p))

is_true : (b : Bool) → Dec (b ≡ true)
is_true true = yes refl
is_true false = no (λ e. cc)

unfoldable pub str_dec : Discrete String
unfolding dec_of_test is_true
str_dec s t = dec_of_test (is_true (s == t))

pub and-same : (b : Bool) {s t : String} → (b && ite (str_dec s t) true false) ≡ true → s ≡ t
and-same true {s} {t} e = same (str_dec s t) e
  where
    same : (d : Dec (s ≡ t)) → ite d true false ≡ true → s ≡ t
    same (yes p) e = p
    same (no n) e = absurd (cc e)
and-same false e = absurd (cc e)
