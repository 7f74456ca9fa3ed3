-- ===== src/Repair/Recipes/Reunion.antt =====
-- `apply_compaction_projection_reunion` and its region.
pub mod Pair
pub mod Order
use sesslint.Prelude.{
  ℕ, zero, suc, ◌+◌, ◌-◌, ◌<◌, ◌≤◌, min, max, ◌≡◌, refl, sym, ap, ◌∙◌, String, ◌==◌, Bool, true,
  false, not, ◌&&◌, ◌||◌, Option, none, some, List, [], ◌∷◌, ◌++◌, map, keep, length, if◌then◌else◌,
  arith, get_elem?, ltb, leb, eqb, eqb_ℤ, Bool-cases, inl, inr, ℤ, pos,
}
use sesslint.Values.{Value, get, truthy, none?}
use sesslint.Session.{SessionEvent, Host, str_of, equal_int, non_empty}
use sesslint.Policy.SideEffects.{is_call, is_result}
use sesslint.Policy.Scope.{AffectedRegion, span}
use sesslint.Policy.Scope.Regions.{in_region, in_ranges}
use sesslint.Repair.Result.{
  Result, ok, err, precondition_failed, missing_correlation, not_one_pair, boundary_at_endpoint,
  not_one_boundary, ◌>>=◌,
}
use sesslint.Repair.Steps.{PlanStep}
use sesslint.Repair.Recipes.Edits.{remove_at, insert_at, positions}
use sesslint.Repair.Recipes.Moves.{moved, get_elem?-moved}

-- The correlation id of the event that a step targets.
abbrev pub target_correlation : List SessionEvent → Option ℕ → Option String
target_correlation evs none = none
target_correlation evs (some i) = elim (get_elem? evs i) [
  | none ↦ none
  | some ev ↦ non_empty ev.correlation_id
]

-- The correlation id that a step is about.
abbrev pub correlation_of : Host → List SessionEvent → PlanStep → Option String
correlation_of host evs step =
    let v = get step.params "correlation_id" in
    if truthy v then some (str_of host v) else target_correlation evs step.target_index

abbrev pub has_correlation : String → SessionEvent → Bool
has_correlation corr ev = elim ev.correlation_id [ none ↦ false | some c ↦ c == corr ]

abbrev pub calls_with : String → List SessionEvent → List ℕ
calls_with corr evs = positions (λ ev. is_call ev && has_correlation corr ev) 0 evs

abbrev pub results_with : String → List SessionEvent → List ℕ
results_with corr evs = positions (λ ev. is_result ev && has_correlation corr ev) 0 evs

abbrev pub is_boundary : SessionEvent → Bool
is_boundary ev = ev.kind == "compaction_boundary"

abbrev pub boundary_at : List SessionEvent → ℕ → Bool
boundary_at evs i = elim (get_elem? evs i) [ none ↦ false | some ev ↦ is_boundary ev ]

-- The two ends of a pair with one call and one result.
abbrev pub ends_of : List ℕ → List ℕ → Option (ℕ × ℕ)
ends_of (c ∷ []) (r ∷ []) = some (min c r, max c r)
ends_of _ _ = none

abbrev pub boundaries_between : ℕ × ℕ → List SessionEvent → List ℕ
boundaries_between (lo, hi) evs = keep (λ i. ltb lo i && ltb i hi) (positions is_boundary 0 evs)

-- The position that a step names for the boundary, compared with an end of the pair.
abbrev pub hints_at : Host → List SessionEvent → PlanStep → ℕ → Bool
hints_at host evs step i =
    let v = get step.params "boundary_index" in
    if none? v
    then elim step.target_index [ none ↦ false | some t ↦ boundary_at evs t && eqb t i ]
    else elim (equal_int host v) [ none ↦ false | some z ↦ eqb_ℤ z (pos i) ]

abbrev pub only_boundary : List ℕ → Result ℕ
only_boundary (b ∷ []) = ok b
only_boundary _ = err (precondition_failed not_one_boundary)

abbrev pub ends_or_error : Option (ℕ × ℕ) → Result (ℕ × ℕ)
ends_or_error none = err (precondition_failed not_one_pair)
ends_or_error (some e) = ok e

abbrev pub correlation_or_error : Option String → Result String
correlation_or_error none = err (precondition_failed missing_correlation)
correlation_or_error (some c) = ok c

abbrev pub no_endpoint : Bool → ℕ × ℕ → Result (ℕ × ℕ)
no_endpoint b ends = if b then err (precondition_failed boundary_at_endpoint) else ok ends

-- The boundary moves from `b` to behind the pair.
unfoldable pub move_boundary : List SessionEvent → ℕ → ℕ → List SessionEvent
unfolding remove_at insert_at
move_boundary evs b hi = elim (get_elem? evs b) [
  | none ↦ evs
  | some ev ↦ insert_at hi ev (remove_at b evs)
]

-- The position of the boundary and the end that it moves to.
unfoldable pub reunion_of : Host → List SessionEvent → PlanStep → Result (ℕ × ℕ)
unfolding positions
reunion_of host evs step = do
  corr ← correlation_or_error (correlation_of host evs step)
  ends ← ends_or_error (ends_of (calls_with corr evs) (results_with corr evs))
  hinted ← no_endpoint (hints_at host evs step ends.0 || hints_at host evs step ends.1) ends
  inner ← no_endpoint (boundary_at evs hinted.0 || boundary_at evs hinted.1) hinted
  b ← only_boundary (boundaries_between inner evs)
  ok (b, inner.1)

unfoldable pub apply_compaction_projection_reunion :
    Host → List SessionEvent → PlanStep → Result (List SessionEvent)
unfolding reunion_of move_boundary
apply_compaction_projection_reunion host evs step = do
  (b, hi) ← reunion_of host evs step
  ok (move_boundary evs b hi)

-- The ids of the events from one position to another.
unfoldable pub ids_between : ℕ × ℕ → ℕ → List SessionEvent → List String
ids_between (lo, hi) i [] = []
ids_between (lo, hi) i (ev ∷ evs) =
    let rest = ids_between (lo, hi) (suc i) evs in
    if leb lo i && leb i hi then ev.id ∷ rest else rest

abbrev pub unproven_span : AffectedRegion
unproven_span = record { indices = []; ids = []; ranges = []; unproven = true }

unfoldable pub span_region : List SessionEvent → ℕ × ℕ → AffectedRegion
unfolding ids_between
span_region evs (lo, hi) = record {
  indices = span (pos lo) (hi + 1 - lo);
  ids = ids_between (lo, hi) 0 evs;
  ranges = (pos lo, pos hi) ∷ [];
  unproven = false;
}

abbrev pub region_of_ends : List SessionEvent → Option (ℕ × ℕ) → AffectedRegion
region_of_ends evs none = unproven_span
region_of_ends evs (some ends) = elim (only_boundary (boundaries_between ends evs)) [
  | err e ↦ unproven_span
  | ok b ↦ span_region evs ends
]

abbrev pub region_of_correlation : List SessionEvent → Option String → AffectedRegion
region_of_correlation evs none = unproven_span
region_of_correlation evs (some corr) =
    region_of_ends evs (ends_of (calls_with corr evs) (results_with corr evs))

unfoldable pub affected_region_compaction_projection_reunion :
    Host → PlanStep → List SessionEvent → AffectedRegion
unfolding span_region positions
affected_region_compaction_projection_reunion host step evs =
    region_of_correlation evs (correlation_of host evs step)
