-- ===== src/Repair/Recipes/Projection.antt =====
-- `apply_duplicate_projection_removal` and its region.
pub mod Frame
use sesslint.Prelude.{
  ℕ, zero, suc, String, ◌==◌, Bool, true, false, Option, none, some, List, [], ◌∷◌, ◌++◌, map,
  if◌then◌else◌, get_elem?, eqb, mem_ℕ, ℤ, pos,
}
use sesslint.Session.{SessionEvent, Host, content_fingerprint}
use sesslint.Policy.Scope.{AffectedRegion}
use sesslint.Repair.Result.{
  Result, ok, err, precondition_failed, missing_correlation, too_few_results, content_differs,
}
use sesslint.Repair.Steps.{PlanStep}
use sesslint.Repair.Recipes.Collapse.{id_at, collapse_pair, children_of, ids_of, unproven_region}
use sesslint.Repair.Recipes.Reunion.{correlation_of, calls_with, results_with}

-- The events at two positions have one content.
abbrev pub same_content_at : Host → List SessionEvent → ℕ → ℕ → Bool
same_content_at host evs i j = elim (get_elem? evs i) [
  | none ↦ false
  | some a ↦ elim (get_elem? evs j) [
    | none ↦ false
    | some b ↦ content_fingerprint host b == content_fingerprint host a
  ]
]

-- The first of the later results with the content of the first result.
unfoldable pub first_same : Host → List SessionEvent → ℕ → List ℕ → Option ℕ
first_same host evs i [] = none
first_same host evs i (j ∷ js) =
    let rest = first_same host evs i js in if same_content_at host evs i j then some j else rest

abbrev pub targeted : Option ℕ → List ℕ → Option ℕ
targeted none js = none
targeted (some t) js = if mem_ℕ t js then some t else none

-- The result to drop: the target if it is one of the later results, or else the first that matches.
abbrev pub drop_of : Host → List SessionEvent → ℕ → List ℕ → Option ℕ → Option ℕ
drop_of host evs i js (some t) = if same_content_at host evs i t then some t else none
drop_of host evs i js none = first_same host evs i js

abbrev pub pair_or_error : ℕ → Option ℕ → Result (ℕ × ℕ)
pair_or_error i none = err (precondition_failed content_differs)
pair_or_error i (some j) = ok (i, j)

abbrev pub pair_of_results : Host → List SessionEvent → Option ℕ → List ℕ → Result (ℕ × ℕ)
pair_of_results host evs target (i ∷ j ∷ js) =
    pair_or_error i (drop_of host evs i (j ∷ js) (targeted target (j ∷ js)))
pair_of_results host evs target _ = err (precondition_failed too_few_results)

abbrev pub pair_of_correlation :
    Host → List SessionEvent → Option ℕ → Option String → Result (ℕ × ℕ)
pair_of_correlation host evs target none = err (precondition_failed missing_correlation)
pair_of_correlation host evs target (some corr) =
    pair_of_results host evs target (results_with corr evs)

-- The first result and the one to drop, for the recipe and for its region.
unfoldable pub projection_pair : Host → List SessionEvent → PlanStep → Result (ℕ × ℕ)
unfolding first_same
projection_pair host evs step =
    pair_of_correlation host evs step.target_index (correlation_of host evs step)

abbrev pub projected : List SessionEvent → Result (ℕ × ℕ) → Result (List SessionEvent)
projected evs (ok p) = ok (collapse_pair evs p)
projected evs (err e) = err e

unfoldable pub apply_duplicate_projection_removal :
    Host → List SessionEvent → PlanStep → Result (List SessionEvent)
unfolding projection_pair
apply_duplicate_projection_removal host evs step = projected evs (projection_pair host evs step)

abbrev pub calls_of_correlation : Host → List SessionEvent → PlanStep → List ℕ
calls_of_correlation host evs step = elim (correlation_of host evs step) [
  | none ↦ []
  | some corr ↦ calls_with corr evs
]

unfoldable pub projection_region : List SessionEvent → List ℕ → ℕ × ℕ → AffectedRegion
projection_region evs calls (first, drop) =
    let affected = first ∷ drop ∷ (children_of (id_at evs drop) evs ++ calls) in
    record { indices = map pos affected; ids = ids_of affected evs; ranges = []; unproven = false }

abbrev pub region_of_pair : List SessionEvent → List ℕ → Result (ℕ × ℕ) → AffectedRegion
region_of_pair evs calls (ok p) = projection_region evs calls p
region_of_pair evs calls (err e) = unproven_region

unfoldable pub affected_region_duplicate_projection_removal :
    Host → PlanStep → List SessionEvent → AffectedRegion
unfolding projection_pair projection_region
affected_region_duplicate_projection_removal host step evs =
    region_of_pair evs (calls_of_correlation host evs step) (projection_pair host evs step)
