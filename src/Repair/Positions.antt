-- ===== src/Repair/Positions.antt =====
-- repair/positions.py: working events that carry their position in the source under a private key, and
-- plan steps addressed again by current positions. A working event is its mapping; a function that
-- changes events in place returns them here, and a dictionary of positions is a list in insertion order.
pub mod Tags
pub mod Relocate
use sesslint.Prelude.{
  ℕ, suc, String, Bool, true, Option, none, some, List, [], ◌∷◌, ◌++◌, map, any, length,
  if◌then◌else◌, ℤ, pos, eqb_ℤ, in_range,
}
use sesslint.Values.{
  Value, null, bool, int, float, text, array, object, Fields, Items, item, no_items, get, has_key,
  put, removed, as_int, as_plain_int,
}
use sesslint.Repair.Result.{
  Result, ok, err, ◌>>=◌, reserved_field, duplicated_event, removed_target,
}
use sesslint.Repair.Steps.{PlanStep}

-- `ORIGIN_KEY`.
abbrev pub origin_key : String
origin_key = "\0sesslint.origin"

-- `STEP_INDEX_PARAMS`.
abbrev step_index_params : List String
step_index_params =
    "at_index" ∷ "boundary_index" ∷ "cut_index" ∷ "entry_index" ∷ "first_index"
    ∷ "first_unsafe_index" ∷ "index" ∷ "use_index" ∷ []

-- `STEP_INDEX_LIST_PARAMS`.
abbrev step_index_list_params : List String
step_index_list_params = "record_indexes" ∷ "result_indexes" ∷ []

-- The loop of `tag_origins`.
unfoldable pub tags_from : ℕ → List Fields → List Fields
tags_from i [] = []
tags_from i (ev ∷ evs) = put ev origin_key (int (pos i)) ∷ tags_from (suc i) evs

unfoldable pub tag_origins : List Fields → Result (List Fields)
unfolding tags_from
tag_origins evs =
    if any (λ ev. has_key ev origin_key) evs then err reserved_field else ok (tags_from 0 evs)

unfoldable pub strip_origins : List Fields → List Fields
strip_origins [] = []
strip_origins (ev ∷ evs) = removed ev origin_key ∷ strip_origins evs

-- The current positions by source position.
abbrev pub Positions : Type 0
Positions = List (ℤ × ℕ)

-- `positions.get(origin)`.
unfoldable pub position_of : Positions → ℤ → Option ℕ
position_of [] origin = none
position_of ((o, current) ∷ ps) origin =
    if eqb_ℤ o origin then some current else position_of ps origin

-- The loop of `source_positions`.
unfoldable pub collect_positions : ℕ → Positions → List Fields → Result Positions
unfolding position_of
collect_positions current ps [] = ok ps
collect_positions current ps (ev ∷ evs) = elim (as_int (get ev origin_key)) [
  | none ↦ collect_positions (suc current) ps evs
  | some origin ↦ elim (position_of ps origin) [
    | none ↦ collect_positions (suc current) (ps ++ (origin, current) ∷ []) evs
    | some _ ↦ err (duplicated_event origin)
  ]
]

unfoldable pub source_positions : List Fields → Result Positions
unfolding collect_positions
source_positions evs = collect_positions 0 [] evs

module _ (step : PlanStep) (ps : Positions) (source_len : ℕ) where
  -- `relocate` of a source position.
  unfoldable pub relocate_index : ℕ → Result ℕ
  unfolding position_of
  relocate_index i = elim (position_of ps (pos i)) [
    | none ↦ err (removed_target step.seq step.recipe i)
    | some current ↦ ok current
  ]

  -- `relocate`; a value that is no source position passes.
  unfoldable pub relocate : Value → Result Value
  unfolding relocate_index
  relocate v = elim (as_plain_int v) [
    | none ↦ ok v
    | some z ↦ elim (in_range z source_len) [
      | none ↦ ok v
      | some i ↦ do current ← relocate_index i; ok (int (pos current))
    ]
  ]

  unfoldable pub relocate_items : Items → Result Items
  unfolding relocate
  relocate_items no_items = ok no_items
  relocate_items (item v vs) =
      let rest = relocate_items vs in do w ← relocate v; ws ← rest; ok (item w ws)

  -- `relocate(step.target_index)`.
  unfoldable pub relocate_target : Option ℕ → Result (Option ℕ)
  unfolding relocate_index
  relocate_target none = ok none
  relocate_target (some i) = elim (in_range (pos i) source_len) [
    | none ↦ ok (some i)
    | some j ↦ do current ← relocate_index j; ok (some current)
  ]

  -- The loop over the parameters that hold an index, and its body.
  unfoldable pub relocate_param : Fields → String → Result Fields
  unfolding relocate
  relocate_param params key =
      if has_key params key
      then (do v ← relocate (get params key); ok (put params key v))
      else ok params

  unfoldable pub relocate_params : List String → Fields → Result Fields
  unfolding relocate_param
  relocate_params [] params = ok params
  relocate_params (key ∷ keys) params = do
    params' ← relocate_param params key
    relocate_params keys params'

  -- The body of the loop over the parameters that hold a list of indices.
  unfoldable pub relocate_list : Fields → String → Value → Result Fields
  unfolding relocate_items
  relocate_list params key (array vs) = do ws ← relocate_items vs; ok (put params key (array ws))
  relocate_list params key null = ok params
  relocate_list params key (bool b) = ok params
  relocate_list params key (int z) = ok params
  relocate_list params key (float s) = ok params
  relocate_list params key (text s) = ok params
  relocate_list params key (object fs) = ok params

  unfoldable pub relocate_lists : List String → Fields → Result Fields
  unfolding relocate_list
  relocate_lists [] params = ok params
  relocate_lists (key ∷ keys) params = do
    params' ← relocate_list params key (get params key)
    relocate_lists keys params'

unfoldable pub relocate_step : PlanStep → Positions → ℕ → Result PlanStep
unfolding relocate_params relocate_lists relocate_target
relocate_step step ps source_len = do
  moved ← relocate_params step ps source_len step_index_params step.params
  params ← relocate_lists step ps source_len step_index_list_params moved
  target ← relocate_target step ps source_len step.target_index
  ok (record step { target_index = target; params = params })
