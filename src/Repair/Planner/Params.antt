-- ===== src/Repair/Planner/Params.antt =====
-- The parameters of a step and its loss, by the recipe's name.
use sesslint.Prelude.{
  ℕ, suc, ◌-◌, ◌+◌, String, ◌==◌, Option, none, some, List, [], ◌∷◌, if◌then◌else◌, ℤ, pos, negsuc,
  length, ltb,
}
use sesslint.Values.{Value, int, text, Fields, end, get, put, none?, as_int, as_plain_int, or_else}
use sesslint.Session.{SessionEvent}
use sesslint.Finding.{Finding}
use sesslint.Repair.Result.{Result, ok, err, type_error}
use sesslint.Repair.Steps.{Recipe}
use sesslint.Repair.Component.{find_component_indices}
use sesslint.Repair.Torn.{torn_dropped_indices}

abbrev pub param_keys : List String
param_keys =
    "correlation_id" ∷ "parent_fingerprint_prefix" ∷ "parent_id" ∷ "cut_index" ∷ "boundary_index"
    ∷ "result_id" ∷ "event_id" ∷ "record_id" ∷ "record_indexes" ∷ "variant" ∷ "first_index" ∷ []

-- `params[key] = value` for the keys that the evidence has.
unfoldable pub copy_params : Fields → List String → Fields → Fields
copy_params e [] params = params
copy_params e (k ∷ ks) params =
    copy_params e ks (if none? (get e k) then params else put params k (get e k))

abbrev put_int : String → Option ℤ → Fields → Fields
put_int key none params = params
put_int key (some z) params = put params key (int z)

abbrev put_text : String → Option String → Fields → Fields
put_text key none params = params
put_text key (some s) params = put params key (text s)

abbrev put_coordinates : Option Fields → Fields → Fields
put_coordinates none params = params
put_coordinates (some e) params = put_int "record_ordinal" (as_plain_int (get e "record_ordinal")) (
    put_int "byte_end" (as_plain_int (get e "byte_end"))
      (put_int "byte_offset" (as_plain_int (get e "byte_offset")) params))

abbrev evidence_params : Option Fields → Fields
evidence_params none = end
evidence_params (some e) = copy_params e param_keys end

-- The parameters from the evidence; a torn record also has its place in the file.
unfoldable pub step_params : Recipe → Finding → Fields
unfolding copy_params
step_params recipe f =
    let params = evidence_params f.evidence in
    if recipe.name == "torn-record-excision"
    then put_coordinates f.evidence
        (put_text "record_id" f.source.record_id (put_int "line" f.source.line params))
    else params

abbrev pub LossMap : Type 0
LossMap = List (String × ℕ)

-- `max(0, len(events) - i)`.
abbrev rest_after : ℕ → ℤ → ℕ
rest_after n (pos i) = n - i
rest_after n (negsuc i) = n + suc i

abbrev dropped_or_one : Option (List ℕ) → ℕ
dropped_or_one none = 1
dropped_or_one (some is) = length is

-- `_compute_torn_compaction_loss`.
unfoldable pub torn_compaction_loss : List SessionEvent → ℤ → ℕ
torn_compaction_loss evs (pos b) =
    if ltb b (length evs) then dropped_or_one (torn_dropped_indices evs b) else 1
torn_compaction_loss evs (negsuc b) = 1

unfoldable pub first_boundary : ℕ → List SessionEvent → ℕ
first_boundary i [] = 0
first_boundary i (ev ∷ evs) =
    let rest = first_boundary (suc i) evs in if ev.kind == "compaction_boundary" then i else rest

-- A parameter that is used as an index: a value that is no integer makes Python raise a TypeError.
abbrev index_or_error : Value → ℤ → Result ℤ
index_or_error v missing =
    if none? v then ok missing else elim (as_int v) [ none ↦ err type_error | some z ↦ ok z ]

abbrev boundary_of : List SessionEvent → Option ℕ → Fields → Result ℤ
boundary_of evs (some i) params = ok (pos i)
boundary_of evs none params =
    index_or_error (get params "boundary_index") (pos (first_boundary 0 evs))

abbrev cut_of : Option ℕ → Fields → Result ℤ
cut_of (some i) params = ok (pos i)
cut_of none params =
    index_or_error (or_else (get params "first_unsafe_index") (get params "cut_index")) (pos 0)

abbrev seed_of : Option ℕ → ℕ
seed_of none = 0
seed_of (some i) = i

abbrev one_loss : String → (ℤ → ℕ) → Result ℤ → Result LossMap
one_loss class count (ok z) = ok ((class, count z) ∷ [])
one_loss class count (err e) = err e

abbrev other_loss : Recipe → Result LossMap
other_loss recipe = if recipe.lossy then ok (("none", 0) ∷ []) else ok []

abbrev suffix_loss : Recipe → ℕ → Option ℕ → Result LossMap
suffix_loss recipe n none = other_loss recipe
suffix_loss recipe n (some i) = ok (("discarded-suffix", n - i) ∷ [])

unfoldable pub step_loss : Recipe → List SessionEvent → Option ℕ → Fields → Result LossMap
unfolding torn_compaction_loss first_boundary
step_loss recipe evs target params =
    if recipe.name == "terminal-suffix-discard"
    then suffix_loss recipe (length evs) target
    else if recipe.name == "unresolvable-branch-amputate"
    then ok (("amputated-branch", length (find_component_indices evs (seed_of target))) ∷ [])
    else if recipe.name == "torn-compaction-project"
    then one_loss "projected-orphans" (torn_compaction_loss evs) (boundary_of evs target params)
    else if recipe.name == "side-effect-unknown-truncate"
    then one_loss "truncated-side-effects" (rest_after (length evs)) (cut_of target params)
    else if recipe.name == "orphan-result-drop"
    then ok (("orphan-result", 1) ∷ [])
    else if recipe.name == "torn-record-excision"
    then ok (("torn-record", 1) ∷ [])
    else other_loss recipe
