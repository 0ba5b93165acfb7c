-- ===== src/Json/Canonical.antt =====
-- canonicalJSON of internal/idempotency/key.go: decoding into `any` and encoding again. A Go map keeps
-- the last member of a name, and is encoded in the order of its names.
use durable_agent_execution.Json.{Json, false, Fields, true, field, end, arr, obj, Items, item, nil}
use durable_agent_execution.Prelude.{
  String, Bool, false, true, ltb, ◌||◌, if◌then◌else◌, ◌==◌, ◌&&◌,
}
use Prim.Native.Char.{code}

-- The order of Go's strings, by bytes, is the order of their code points.
unfoldable pub lt_text : String → String → Bool
lt_text String.[] String.[] = false
lt_text String.[] (String.◌∷◌ d t) = true
lt_text (String.◌∷◌ c s) String.[] = false
lt_text (String.◌∷◌ c s) (String.◌∷◌ d t) =
    ltb (code c) (code d) || (code c == code d && lt_text s t)

-- A member of the map before the ones that the later members of the object gave.
unfoldable pub insert_member : String → Json → Fields → Fields
insert_member k v end = field k v end
insert_member k v (field j w rest) =
    let more = insert_member k v rest in
    if lt_text k j
    then field k v (field j w rest)
    else if lt_text j k
    then field j w more
    else field j w rest

unfoldable mutual
  unfolding insert_member

  pub canonical : Json → Json
  canonical (arr xs) = arr (canonical_items xs)
  canonical (obj fs) = obj (canonical_fields fs)
  canonical j = j

  pub canonical_items : Items → Items
  canonical_items nil = nil
  canonical_items (item j xs) = item (canonical j) (canonical_items xs)

  pub canonical_fields : Fields → Fields
  canonical_fields end = end
  canonical_fields (field k v rest) = insert_member k (canonical v) (canonical_fields rest)
