-- ===== src/Tools/Deterministic.antt =====
-- Definitions of internal/tools/tool.go: the order in which the map is ranged over does not show.
use durable_agent_execution.Prelude.{
  String, List, ◌≡◌, true, false, ◌∷◌, arith, subst, sym, [], Bool-cases, ◌∙◌, ap, refl, inl, inr,
}
use durable_agent_execution.Json.SameValue.{compared, before, same, behind, lt_text_trans}
use durable_agent_execution.Tools.{Tool, Registry}
use mathlib.Core.List.{Permᴰ}
use mathlib.Core.List.Permᴰ.{nil, cons, swap, trans}
use durable_agent_execution.Json.Canonical.{lt_text}
use durable_agent_execution.Tools.Definitions.{
  insert_name, sort_strings, definitions, definitions_of,
}

module _ (k h : String) (m : List String) where
  insert_name-past : lt_text h k ≡ true → insert_name k (h ∷ m) ≡ h ∷ insert_name k m
  unfolding insert_name
  insert_name-past l = ground (arith, l)

  insert_name-stop : lt_text h k ≡ false → insert_name k (h ∷ m) ≡ k ∷ h ∷ m
  unfolding insert_name
  insert_name-stop l = ground (arith, l)

insert_name-less :
    (k j : String) (m : List String)
    → lt_text k j ≡ true
    → lt_text j k ≡ false
    → insert_name k (insert_name j m) ≡ insert_name j (insert_name k m)
unfolding insert_name
insert_name-less k j [] kj jk = ground (arith, kj, jk)
insert_name-less k j (h ∷ m) kj jk = elim (Bool-cases (lt_text h k)) [
  | inl l ↦
      let hj : lt_text h j ≡ true = lt_text_trans h k j l kj in
      cc (
        insert_name-past j h m hj,
        insert_name-past k h (insert_name j m) l,
        insert_name-past k h m l,
        insert_name-past j h (insert_name k m) hj,
        insert_name-less k j m kj jk,
      )
  | inr l ↦ elim (Bool-cases (lt_text h j)) [
    | inl hj ↦ cc (
      insert_name-past j h m hj,
      insert_name-stop k h (insert_name j m) l,
      insert_name-stop k h m l,
      insert_name-past j k (h ∷ m) kj,
    )
    | inr jh ↦ cc (
      insert_name-stop j h m jh,
      insert_name-stop k j (h ∷ m) jk,
      insert_name-stop k h m l,
      insert_name-past j k (h ∷ m) kj,
    )
  ]
]

insert_name-swap :
    (k j : String) (m : List String)
    → insert_name k (insert_name j m) ≡ insert_name j (insert_name k m)
insert_name-swap k j m = elim (compared k j) [
  | before l g ↦ insert_name-less k j m l g
  | same e l g ↦
      subst (λ x. insert_name k (insert_name x m) ≡ insert_name x (insert_name k m)) e refl
  | behind l g ↦ sym (insert_name-less j k m g l)
]

sort_strings-Perm : {ns ms : List String} → Permᴰ ns ms → sort_strings ns ≡ sort_strings ms
unfolding sort_strings
sort_strings-Perm nil = refl
sort_strings-Perm (cons e h) = λ i. insert_name (e i) (sort_strings-Perm h i)
sort_strings-Perm (swap {a = a} {b = b} {l = l} e f) =
    insert_name-swap a b (sort_strings l)
    ∙ (λ i. insert_name (f i) (insert_name (e i) (sort_strings l)))
sort_strings-Perm (trans h k) = sort_strings-Perm h ∙ sort_strings-Perm k

-- The tool definitions that the model is sent do not depend on the order in which the call ranges over
-- the registry's map: the request is the same at every call.
pub definitions-Perm :
    {W D : Type 0} (def : Tool W → D) (reg : Registry W) (range range' : List String)
    → Permᴰ range range'
    → definitions def reg range ≡ definitions def reg range'
unfolding definitions
definitions-Perm def reg range range' h = ap (definitions_of def reg) (sort_strings-Perm h)
