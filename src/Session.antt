-- ===== src/Session.antt =====
-- The canonical event of canonical.py and the field accessors of _events.py. A kind is a text, since
-- the dataclass checks none. Events are `SessionEvent`s; the plain-dict form that recipes work on is
-- not read here.
use sesslint.Prelude.{String, ◌==◌, Option, none, some, List, [], ◌∷◌, if◌then◌else◌, ℤ}
use sesslint.Values.{Value, text, float, null, Fields, as_int}

pub record SessionEvent : Type 0 where
  pub id : String
  pub parent_id : Option String
  pub seq : ℤ
  pub ts : String
  pub actor : String
  pub kind : String
  pub payload : Fields
  pub content_hash : Option String
  pub correlation_id : Option String
  pub branch_id : Option String
  pub interaction_id : Option String
  pub agent_id : Option String
  pub execution_state : Option String
  pub source_line : Option ℤ
  pub source_record_hash : Option String
  pub original_id : Option String
  pub source_adapter : Option String
  pub source_location : Option String
  pub side_effects : Option String
  pub extra_fields : Fields

-- What the modelled code calls and does not contain: `str()` of a value that is no text, the SHA-256 of
-- a payload's canonical JSON, and the integer that a float's text equals, if it equals one.
pub record Host : Type 0 where
  pub text_of : Value → String
  pub payload_digest : Fields → String
  pub float_int : String → Option ℤ

-- `str(value)`.
abbrev pub str_of : Host → Value → String
str_of host (text s) = s
str_of host v = host.text_of v

-- The integer that a value equals, in Python's `==`.
abbrev pub equal_int : Host → Value → Option ℤ
equal_int host (float s) = host.float_int s
equal_int host v = as_int v

-- An optional text as a value.
abbrev pub optional : Option String → Value
optional none = null
optional (some s) = text s

-- A text that is there and not empty: the source's `if eid:` and `if isinstance(ch, str) and ch:`.
abbrev pub non_empty : Option String → Option String
non_empty none = none
non_empty (some s) = if s == "" then none else some s

abbrev pub or_digest : Option String → String → String
or_digest none d = d
or_digest (some s) d = s

-- `_event_content_fingerprint`: the declared content hash, or that of the payload.
unfoldable pub content_fingerprint : Host → SessionEvent → String
content_fingerprint host ev = or_digest (non_empty ev.content_hash) (host.payload_digest ev.payload)

abbrev pub read_only_tool_names : List String
read_only_tool_names =
    "cat" ∷ "check" ∷ "fetch" ∷ "find" ∷ "find_by_name" ∷ "get" ∷ "get_file" ∷ "glob" ∷ "globtool"
    ∷ "grep" ∷ "greptool" ∷ "head" ∷ "inspect" ∷ "list_dir" ∷ "ls" ∷ "query" ∷ "read" ∷ "read_file"
    ∷ "readnotebook" ∷ "scan" ∷ "scan_dir" ∷ "search" ∷ "search_web" ∷ "tail" ∷ "view" ∷ "view_file"
    ∷ []
