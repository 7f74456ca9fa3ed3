-- ===== src/Repair/Planner/Targets.antt =====
-- `_resolve_target_index`: the event that a finding is about, from its evidence or by its record id.
use sesslint.Prelude.{
  ℕ, suc, String, ◌==◌, Option, none, some, List, [], ◌∷◌, if◌then◌else◌, ℤ, pos, mem_text,
}
use sesslint.Values.{Value, null, text, array, Fields, get, as_plain_int, members, or_else, none?}
use sesslint.Session.{SessionEvent, Host, str_of, non_empty}
use sesslint.Finding.{Finding}

abbrev pub index_keys : List String
index_keys =
    "at_index" ∷ "first_unsafe_index" ∷ "index" ∷ "first_index" ∷ "cut_index" ∷ "boundary_index"
    ∷ "entry_index" ∷ "use_index" ∷ []

abbrev pub list_keys : List String
list_keys = "record_indexes" ∷ "result_indexes" ∷ []

abbrev or_next : Option ℤ → Option ℤ → Option ℤ
or_next (some z) next = some z
or_next none next = next

-- The first of the keys with a plain integer.
unfoldable pub keyed_index : Fields → List String → Option ℤ
keyed_index e [] = none
keyed_index e (k ∷ ks) = or_next (as_plain_int (get e k)) (keyed_index e ks)

unfoldable pub first_int : List Value → Option ℤ
first_int [] = none
first_int (v ∷ vs) = or_next (as_plain_int v) (first_int vs)

abbrev list_members : Value → List Value
list_members (array vs) = members vs
list_members _ = []

unfoldable pub listed_index : Fields → List String → Option ℤ
unfolding first_int
listed_index e [] = none
listed_index e (k ∷ ks) = or_next (first_int (list_members (get e k))) (listed_index e ks)

-- The first event with an id.
unfoldable pub index_of_id : String → ℕ → List SessionEvent → Option ℤ
index_of_id s i [] = none
index_of_id s i (ev ∷ evs) =
    let rest = index_of_id s (suc i) evs in if ev.id == s then some (pos i) else rest

-- A record that never decoded has no event.
abbrev pub undecoded_record_codes : List String
undecoded_record_codes = "SL001" ∷ "SL002" ∷ []

abbrev optional_text : Option String → Value
optional_text none = null
optional_text (some s) = text s

-- The record id: the evidence's `root_id` or `event_id`, or else the source's.
abbrev pub record_id_of : Finding → Value
record_id_of f =
    let named : Value = elim f.evidence [
      | none ↦ null
      | some e ↦ or_else (get e "root_id") (get e "event_id")
    ] in
    if none? named then optional_text (non_empty f.source.record_id) else named

abbrev pub by_record_id : Host → Finding → List SessionEvent → Option ℤ
by_record_id host f evs =
    if mem_text f.code undecoded_record_codes
    then none
    else if none? (record_id_of f)
    then none
    else index_of_id (str_of host (record_id_of f)) 0 evs

abbrev evidence_index : Option Fields → Option ℤ
evidence_index none = none
evidence_index (some e) = or_next (keyed_index e index_keys) (listed_index e list_keys)

unfoldable pub resolve_target_index : Host → Finding → List SessionEvent → Option ℤ
unfolding keyed_index listed_index index_of_id
resolve_target_index host f evs = or_next (evidence_index f.evidence) (by_record_id host f evs)
