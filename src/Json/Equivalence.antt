-- ===== src/Json/Equivalence.antt =====
-- When two values are the same but for the order of members and repeated names: exactly when their
-- canonical forms are equal.
use durable_agent_execution.Prelude.{◌≡◌, String, ◌↔◌, ap, subst, sym, ◌∙◌, ◌≢◌, refl}
use durable_agent_execution.Json.Canonical.{
  canonical, insert_member, canonical_items, canonical_fields, lt_text,
}
use durable_agent_execution.Json.{
  Json, Fields, Items, field, String, arr, obj, nil, bool, item, num, end, real, str, null,
}
use durable_agent_execution.Json.SameValue.{
  insert_member-swap, insert_member-again, compared, before, insert_member-before, same,
  insert_member-same, behind, insert_member-behind, lt_text_irrefl,
}

-- The same value: an object's members may stand in any order, and the last one of a name counts.
mutual
  pub data SameJson : Json → Json → Type 0 where
    same_json : (j : Json) → SameJson j j
    same_arr : {xs ys : Items} → SameItems xs ys → SameJson (arr xs) (arr ys)
    same_obj : {fs gs : Fields} → SameFields fs gs → SameJson (obj fs) (obj gs)
    json_back : {a b : Json} → SameJson a b → SameJson b a
    json_chain : {a b c : Json} → SameJson a b → SameJson b c → SameJson a c

  pub data SameItems : Items → Items → Type 0 where
    no_items : SameItems nil nil
    same_item :
        {a b : Json} {xs ys : Items}
        → SameJson a b
        → SameItems xs ys
        → SameItems (item a xs) (item b ys)

  pub data SameFields : Fields → Fields → Type 0 where
    no_members : SameFields end end
    same_member :
        {a b : Json} {fs gs : Fields} (k : String)
        → SameJson a b
        → SameFields fs gs
        → SameFields (field k a fs) (field k b gs)
    swapped :
        (k j : String) (a b : Json) (fs : Fields)
        → k ≢ j
        → SameFields (field k a (field j b fs)) (field j b (field k a fs))
    repeated :
        (k : String) (a b : Json) (fs : Fields)
        → SameFields (field k a (field k b fs)) (field k b fs)
    members_chain : {fs gs hs : Fields} → SameFields fs gs → SameFields gs hs → SameFields fs hs

mutual
  unfolding canonical

  canonical_same : {a b : Json} → SameJson a b → canonical a ≡ canonical b
  canonical_same (same_json j) = refl
  canonical_same (same_arr h) = ap arr (canonical_items_same h)
  canonical_same (same_obj h) = ap obj (canonical_fields_same h)
  canonical_same (json_back h) = sym (canonical_same h)
  canonical_same (json_chain h k) = canonical_same h ∙ canonical_same k

  canonical_items_same : {xs ys : Items} → SameItems xs ys → canonical_items xs ≡ canonical_items ys
  canonical_items_same no_items = refl
  canonical_items_same (same_item h t) = λ i. item (canonical_same h i) (canonical_items_same t i)

  canonical_fields_same :
      {fs gs : Fields} → SameFields fs gs → canonical_fields fs ≡ canonical_fields gs
  canonical_fields_same no_members = refl
  canonical_fields_same (same_member k h t) =
      λ i. insert_member k (canonical_same h i) (canonical_fields_same t i)
  canonical_fields_same (swapped k j a b fs apart) =
      insert_member-swap k j (canonical a) (canonical b) (canonical_fields fs) apart
  canonical_fields_same (repeated k a b fs) =
      insert_member-again k (canonical a) (canonical b) (canonical_fields fs)
  canonical_fields_same (members_chain h t) = canonical_fields_same h ∙ canonical_fields_same t

members_same : (fs : Fields) → SameFields fs fs
members_same end = no_members
members_same (field k v fs) = same_member k (same_json v) (members_same fs)

insert_member-SameFields :
    (k : String) (v : Json) (m : Fields) → SameFields (field k v m) (insert_member k v m)
unfolding insert_member
insert_member-SameFields k v end = members_same (field k v end)
insert_member-SameFields k v (field h u m) = elim (compared k h) [
  | before l g ↦
      subst (SameFields (field k v (field h u m))) (sym (insert_member-before k v h u m l))
        (members_same _)
  | same e l g ↦
      subst (SameFields (field k v (field h u m))) (sym (insert_member-same k v h u m l g))
        (subst (λ x. SameFields (field x v (field h u m)) (field h u m)) (sym e) (repeated h v u m))
  | behind l g ↦
      subst (SameFields (field k v (field h u m))) (sym (insert_member-behind k v h u m l g)) (
        members_chain (swapped k h v u m (λ e. absurd (cc (ap (lt_text h) e, lt_text_irrefl h, g))))
          (same_member h (same_json u) (insert_member-SameFields k v m)))
]

mutual
  unfolding canonical

  is_canonical : (a : Json) → SameJson a (canonical a)
  is_canonical (arr xs) = same_arr (are_canonical xs)
  is_canonical (obj fs) = same_obj (members_canonical fs)
  is_canonical null = same_json null
  is_canonical (bool b) = same_json (bool b)
  is_canonical (num z) = same_json (num z)
  is_canonical (real x) = same_json (real x)
  is_canonical (str s) = same_json (str s)

  are_canonical : (xs : Items) → SameItems xs (canonical_items xs)
  are_canonical nil = no_items
  are_canonical (item a xs) = same_item (is_canonical a) (are_canonical xs)

  members_canonical : (fs : Fields) → SameFields fs (canonical_fields fs)
  members_canonical end = no_members
  members_canonical (field k v fs) =
      members_chain (same_member k (is_canonical v) (members_canonical fs))
        (insert_member-SameFields k (canonical v) (canonical_fields fs))

-- Two values have the same canonical form exactly when they are the same value: when they differ at
-- most in the order of an object's members, at any depth, and in members that a later one of the same
-- name replaces.
pub canonical-SameJson : (a b : Json) → SameJson a b ↔ (canonical a ≡ canonical b)
canonical-SameJson a b = (
  canonical_same,
  λ e. json_chain (is_canonical a) (subst (λ x. SameJson x b) (sym e) (json_back (is_canonical b))),
)
