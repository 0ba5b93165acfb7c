-- ===== src/Json.antt =====
-- JSON values as encoding/json reads and writes them, and the decoding of an object into the
-- fields of a struct (used by internal/events, internal/replay and internal/idempotency).
-- A document is either a value or text that no value can be read from.
pub mod Canonical
pub mod SameValue
pub mod Equivalence
use durable_agent_execution.Prelude.{
  ℕ, ◌+◌, String, Bool, true, false, ◌&&◌, Option, none, some, leb, ◌==◌, if◌then◌else◌, ite,
  str_dec,
}
use durable_agent_execution.Prelude.Int64.{ℤ, pos, negsuc, max_int64}
use Prim.Native.Char.{code}

-- `num` is a literal without fraction and exponent, `real` any other number's literal.
mutual
  pub data Json : Type 0 where
    null : Json
    bool : Bool → Json
    num : ℤ → Json
    real : String → Json
    str : String → Json
    arr : Items → Json
    obj : Fields → Json

  pub data Items : Type 0 where
    nil : Items
    item : Json → Items → Items

  pub data Fields : Type 0 where
    end : Fields
    field : String → Json → Fields → Fields

-- The bytes of a message or of a stored value.
pub data Bytes : Type 0 where
  malformed : Bytes
  doc : Json → Bytes

-- json.RawMessage: `none` is the nil slice of a field that was absent.
abbrev pub RawMessage : Type 0
RawMessage = Option Json

-- What Marshal writes for a RawMessage.
unfoldable pub write_raw : RawMessage → Json
write_raw none = null
write_raw (some j) = j

-- What Marshal writes for a *string.
unfoldable pub write_ptr : Option String → Json
write_ptr none = null
write_ptr (some s) = str s

-- A key's code points with the case folded. U+017F folds to s and U+212A to k: no other character
-- outside ASCII folds to an ASCII letter.
fold_code : ℕ → ℕ
fold_code c =
    if leb b'A' c && leb c b'Z'
    then c + 32
    else if c == 0x17f
    then b's'
    else if c == 0x212a
    then b'k'
    else c

-- The name of a struct field is lower-case ASCII: an object's key names it if they are equal up to
-- case.
unfoldable pub same_name : String → String → Bool
unfolding fold_code
same_name String.[] String.[] = true
same_name String.[] (String.◌∷◌ d t) = false
same_name (String.◌∷◌ c s) String.[] = false
same_name (String.◌∷◌ c s) (String.◌∷◌ d t) = code c == fold_code (code d) && same_name s t

-- An int literal outside int64 does not fit.
abbrev pub fits_int64 : ℤ → Bool
fits_int64 (pos n) = leb n max_int64
fits_int64 (negsuc n) = leb n max_int64

-- Decoding of one value into a field of each Go type that holds `cur` so far: `null` changes no
-- string, number or Boolean, and makes a pointer nil. An error is a type mismatch.
unfoldable pub into_string : String → Json → Option String
into_string cur null = some cur
into_string cur (str s) = some s
into_string cur _ = none

unfoldable pub into_bool : Bool → Json → Option Bool
into_bool cur null = some cur
into_bool cur (bool b) = some b
into_bool cur _ = none

unfoldable pub into_int : ℤ → Json → Option ℤ
into_int cur null = some cur
into_int cur (num z) = if fits_int64 z then some z else none
into_int cur _ = none

unfoldable pub into_ptr : Option String → Json → Option (Option String)
into_ptr cur null = some none
into_ptr cur (str s) = some (some s)
into_ptr cur _ = none

unfoldable pub into_raw : RawMessage → Json → Option RawMessage
into_raw cur j = some (some j)

-- One struct field, over the keys of an object in order: every key that names it is decoded.
unfoldable pub read : {A : Type 0} → (A → Json → Option A) → String → A → Fields → Option A
unfolding same_name
read into name cur end = some cur
read into name cur (field k v rest) =
    if same_name name k
    then elim (into cur v) [ none ↦ none | some next ↦ read into name next rest ]
    else read into name cur rest

-- The members of a document that is decoded into a struct: `null` leaves the struct as it is.
unfoldable pub members : Json → Option Fields
members null = some end
members (obj fs) = some fs
members _ = none

-- raw[name] after decoding into map[string]json.RawMessage: exact names, the last one wins.
unfoldable pub find : String → Fields → Option Json
find name end = none
find name (field k v rest) = elim (find name rest) [
  | some j ↦ some j
  | none ↦ ite (str_dec k name) (some v) none
]
