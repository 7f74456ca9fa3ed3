-- ===== src/Values.antt =====
-- The values of the source's mappings (payloads, extra fields, evidence): what `json.loads` yields.
-- A mapping is a list of keys and values in insertion order; where one key stands twice, the first
-- is read. A float carries its text, since the modelled code compares none.
use sesslint.Prelude.{
  String, ◌==◌, Bool, true, false, Option, none, some, if◌then◌else◌, ℤ, pos, negsuc, ltb, List, [],
  ◌∷◌,
}

mutual
  pub data Value : Type 0 where
    null : Value
    bool : Bool → Value
    int : ℤ → Value
    float : String → Value
    text : String → Value
    array : Items → Value
    object : Fields → Value

  -- A mapping.
  pub data Fields : Type 0 where
    field : String → Value → Fields → Fields
    end : Fields

  -- The members of a list.
  pub data Items : Type 0 where
    item : Value → Items → Items
    no_items : Items

-- `m.get(key)`, with `None` for a missing key.
unfoldable pub get : Fields → String → Value
get end key = null
get (field k v rest) key = if k == key then v else get rest key

-- `key in m`.
unfoldable pub has_key : Fields → String → Bool
has_key end key = false
has_key (field k v rest) key = if k == key then true else has_key rest key

-- `m[key] = v` for a key that is new: a dict keeps insertion order.
unfoldable pub put : Fields → String → Value → Fields
put end key v = field key v end
put (field k w rest) key v = if k == key then field k v rest else field k w (put rest key v)

-- `m.pop(key, None)`, as a statement.
unfoldable pub removed : Fields → String → Fields
removed end key = end
removed (field k v rest) key =
    let rest' = removed rest key in if k == key then rest' else field k v rest'

-- `value is None`.
abbrev pub none? : Value → Bool
none? null = true
none? _ = false

-- `isinstance(value, int)`: Python's booleans are integers.
abbrev pub as_int : Value → Option ℤ
as_int (int z) = some z
as_int (bool true) = some (pos 1)
as_int (bool false) = some (pos 0)
as_int _ = none

-- `isinstance(value, int) and not isinstance(value, bool)`.
abbrev pub as_plain_int : Value → Option ℤ
as_plain_int (int z) = some z
as_plain_int _ = none

-- Python's truth of a value.
abbrev pub truthy : Value → Bool
truthy null = false
truthy (bool b) = b
truthy (int (pos n)) = ltb 0 n
truthy (int (negsuc n)) = true
truthy (float s) = if s == "0.0" then false else if s == "-0.0" then false else true
truthy (text s) = if s == "" then false else true
truthy (array no_items) = false
truthy (array (item _ _)) = true
truthy (object end) = false
truthy (object (field _ _ _)) = true

-- `a or b`.
abbrev pub or_else : Value → Value → Value
or_else a b = if truthy a then a else b

-- The members of a list, and of a list alone: `isinstance(v, Sequence)` but not a text.
abbrev pub members : Items → List Value
members no_items = []
members (item v rest) = v ∷ members rest
