-- ===== src/Repair/Recipes/Restore.antt =====
-- `apply_proven_unique_parent_restore` of repair/recipes_conservative.py.
pub mod Unique
use sesslint.Prelude.{
  ℕ, zero, suc, String, ◌==◌, Bool, true, false, ◌&&◌, ◌||◌, not, Option, none, some, List, [], ◌∷◌,
  if◌then◌else◌, ℤ, pos, in_range, length, get_elem?,
}
use sesslint.Values.{Value, Fields, get, as_plain_int, none?, truthy, or_else}
use sesslint.Session.{SessionEvent, Host, str_of, non_empty}
use sesslint.Checks.Graph.Candidates.{find_qualifying_parent_candidates}
use sesslint.Repair.Result.{
  Refused, Result, ok, err, precondition_failed, invalid_target, missing_parent_id, no_candidate,
  ambiguous_candidates, empty_candidate,
}
use sesslint.Repair.Steps.{PlanStep}

-- `params.get("index")`, or `params.get("at_index")` where that is missing.
abbrev index_param : Fields → Value
index_param params =
    if none? (get params "index") then get params "at_index" else get params "index"

abbrev pub restore_target : PlanStep → Option ℤ
restore_target step = elim step.target_index [
  | some i ↦ some (pos i)
  | none ↦ as_plain_int (index_param step.params)
]

abbrev parent_param : Fields → Value
parent_param params = or_else (get params "parent_id") (get params "parent_fingerprint_prefix")

-- The id that the step asks for, or that the event itself names.
unfoldable pub wanted_parent : Host → PlanStep → SessionEvent → Option String
wanted_parent host step ev =
    let value = parent_param step.params in
    if truthy value then some (str_of host value) else non_empty ev.parent_id

-- `out[i]["parent_id"] = parent`.
unfoldable pub set_parent : ℕ → String → List SessionEvent → List SessionEvent
set_parent i parent [] = []
set_parent zero parent (ev ∷ evs) = record ev { parent_id = some parent } ∷ evs
set_parent (suc i) parent (ev ∷ evs) = ev ∷ set_parent i parent evs

-- The only candidate's id.
unfoldable pub winner : List SessionEvent → List ℕ → Result String
winner evs [] = err (precondition_failed no_candidate)
winner evs (j ∷ k ∷ ks) = err (precondition_failed ambiguous_candidates)
winner evs (j ∷ []) = elim (get_elem? evs j) [
  | none ↦ err (precondition_failed empty_candidate)
  | some ev ↦ if ev.id == "" then err (precondition_failed empty_candidate) else ok ev.id
]

abbrev pub restore_to : List SessionEvent → ℕ → Result String → Result (List SessionEvent)
restore_to evs i (err e) = err e
restore_to evs i (ok parent) = ok (set_parent i parent evs)

abbrev pub restore_from :
    List SessionEvent → ℕ → SessionEvent → Option String → Result (List SessionEvent)
restore_from evs i child none = err (precondition_failed missing_parent_id)
restore_from evs i child (some parent) =
    restore_to evs i (winner evs (find_qualifying_parent_candidates evs child i parent))

abbrev pub restore_event :
    Host → List SessionEvent → PlanStep → ℕ → Option SessionEvent → Result (List SessionEvent)
restore_event host evs step i none = err (precondition_failed invalid_target)
restore_event host evs step i (some child) =
    restore_from evs i child (wanted_parent host step child)

abbrev pub restore_at : Host → List SessionEvent → PlanStep → Option ℕ → Result (List SessionEvent)
restore_at host evs step none = err (precondition_failed invalid_target)
restore_at host evs step (some i) = restore_event host evs step i (get_elem? evs i)

abbrev target_in : List SessionEvent → Option ℤ → Option ℕ
target_in evs none = none
target_in evs (some z) = in_range z (length evs)

unfoldable pub apply_proven_unique_parent_restore :
    Host → List SessionEvent → PlanStep → Result (List SessionEvent)
unfolding wanted_parent set_parent winner find_qualifying_parent_candidates
apply_proven_unique_parent_restore host evs step =
    restore_at host evs step (target_in evs (restore_target step))
