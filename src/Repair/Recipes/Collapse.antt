-- ===== src/Repair/Recipes/Collapse.antt =====
-- `apply_identical_duplicate_collapse` and its region.
pub mod Frame
use sesslint.Prelude.{
  ℕ, zero, suc, ◌+◌, ◌-◌, ◌<◌, ◌≡◌, refl, sym, String, ◌==◌, Bool, true, false, not, ◌&&◌, ◌||◌,
  Option, none, some, List, [], ◌∷◌, ◌++◌, any, map, length, if◌then◌else◌, arith, get_elem?, ltb,
  leb, eqb, Bool-cases, Option-cases, inl, inr, ℤ, pos, in_range, eq_iff, eqb_iff, All, All-append,
  and-true, ap, ◌∙◌,
}
use sesslint.Session.{SessionEvent, Host, content_fingerprint}
use sesslint.Policy.Ambiguity.Entries.{add_id}
use sesslint.Policy.Scope.{AffectedRegion, mem_ℤ}
use sesslint.Policy.Scope.Regions.{in_region}
use sesslint.Repair.Result.{
  Refused, Result, ok, err, precondition_failed, too_few_events, target_out_of_bounds,
  kind_mismatch, boundary_kind, content_differs, no_pair,
}
use sesslint.Repair.Steps.{PlanStep}
use sesslint.Repair.Planner.Targets.{keyed_index}
use sesslint.Repair.Recipes.Edits.{
  remove_at, has_parent, relink, is_boundary_kind, positions, shifted, get_elem?-remove_at,
  length-remove_at, get_elem?-relink, length-relink,
}

-- The pair's test: one kind, which delimits no segment, and one content.
unfoldable pub is_duplicate : Host → SessionEvent → SessionEvent → Bool
is_duplicate host e1 e2 =
    e1.kind == e2.kind
    && not (is_boundary_kind e1.kind)
    && content_fingerprint host e1 == content_fingerprint host e2

abbrev pub duplicate_at : Host → List SessionEvent → ℕ × ℕ → Bool
duplicate_at host evs (i, j) = elim (get_elem? evs i) [
  | none ↦ false
  | some e1 ↦ elim (get_elem? evs j) [ none ↦ false | some e2 ↦ is_duplicate host e1 e2 ]
]

-- The first of the pairs that is a duplicate.
unfoldable pub first_duplicate : Host → List SessionEvent → List (ℕ × ℕ) → Option (ℕ × ℕ)
unfolding is_duplicate
first_duplicate host evs [] = none
first_duplicate host evs (p ∷ ps) =
    let rest = first_duplicate host evs ps in if duplicate_at host evs p then some p else rest

-- `for i in range(len(events) - 1)`.
unfoldable pub adjacent_from : ℕ → List SessionEvent → List (ℕ × ℕ)
adjacent_from i [] = []
adjacent_from i (e1 ∷ []) = []
adjacent_from i (e1 ∷ e2 ∷ es) = (i, suc i) ∷ adjacent_from (suc i) (e2 ∷ es)

-- `candidate_pairs`, for a target in the session.
unfoldable pub pairs_around : ℕ → ℕ → List (ℕ × ℕ)
pairs_around i n =
    (if ltb (suc i) n then (i, suc i) ∷ [] else []) ++ (if ltb 0 i then (i - 1, i) ∷ [] else [])

-- The reason that the first pair gives when none is a duplicate.
unfoldable pub pair_refusal : Host → List SessionEvent → List (ℕ × ℕ) → Refused
pair_refusal host evs [] = no_pair
pair_refusal host evs ((i, j) ∷ ps) = elim (get_elem? evs i) [
  | none ↦ no_pair
  | some e1 ↦ elim (get_elem? evs j) [
    | none ↦ no_pair
    | some e2 ↦
        if not (e1.kind == e2.kind)
        then kind_mismatch
        else if is_boundary_kind e1.kind
        then boundary_kind
        else if not (content_fingerprint host e1 == content_fingerprint host e2)
        then content_differs
        else no_pair
  ]
]

abbrev pub collapse_keys : List String
collapse_keys = "at_index" ∷ "index" ∷ "first_index" ∷ []

abbrev pub target_of : PlanStep → Option ℤ
target_of step = elim step.target_index [
  | some i ↦ some (pos i)
  | none ↦ keyed_index step.params collapse_keys
]

abbrev pub chosen : Option (ℕ × ℕ) → Refused → Result (ℕ × ℕ)
chosen (some p) reason = ok p
chosen none reason = err (precondition_failed reason)

abbrev pub chosen_around : Host → List SessionEvent → Option ℕ → Result (ℕ × ℕ)
chosen_around host evs none = err (precondition_failed target_out_of_bounds)
chosen_around host evs (some i) =
    let ps = pairs_around i (length evs) in
    chosen (first_duplicate host evs ps) (pair_refusal host evs ps)

abbrev pub chosen_for : Host → List SessionEvent → Option ℤ → Result (ℕ × ℕ)
chosen_for host evs none = chosen (first_duplicate host evs (adjacent_from 0 evs)) no_pair
chosen_for host evs (some z) = chosen_around host evs (in_range z (length evs))

-- The pair that both the recipe and its region work on.
unfoldable pub duplicate_pair : Host → List SessionEvent → PlanStep → Result (ℕ × ℕ)
unfolding first_duplicate adjacent_from pairs_around pair_refusal
duplicate_pair host evs step =
    if ltb (length evs) 2
    then err (precondition_failed too_few_events)
    else chosen_for host evs (target_of step)

abbrev pub id_at : List SessionEvent → ℕ → String
id_at evs i = elim (get_elem? evs i) [ none ↦ "" | some ev ↦ ev.id ]

-- The later event goes, and its children pass to the earlier one.
unfoldable pub collapse_pair : List SessionEvent → ℕ × ℕ → List SessionEvent
unfolding remove_at relink
collapse_pair evs (keep, drop) = relink (id_at evs drop) (id_at evs keep) (remove_at drop evs)

abbrev pub collapsed : List SessionEvent → Result (ℕ × ℕ) → Result (List SessionEvent)
collapsed evs (ok p) = ok (collapse_pair evs p)
collapsed evs (err e) = err e

unfoldable pub apply_identical_duplicate_collapse :
    Host → List SessionEvent → PlanStep → Result (List SessionEvent)
unfolding duplicate_pair collapse_pair
apply_identical_duplicate_collapse host evs step = collapsed evs (duplicate_pair host evs step)

abbrev pub ids_of : List ℕ → List SessionEvent → List String
ids_of [] evs = []
ids_of (i ∷ is) evs =
    let rest = ids_of is evs in if id_at evs i == "" then rest else id_at evs i ∷ rest

abbrev pub unproven_region : AffectedRegion
unproven_region = record { indices = []; ids = []; ranges = []; unproven = true }

-- The children of a dropped event, which has an id.
unfoldable pub children_of : String → List SessionEvent → List ℕ
unfolding positions
children_of s evs = if s == "" then [] else positions (has_parent s) 0 evs

unfoldable pub pair_region : List SessionEvent → ℕ × ℕ → AffectedRegion
unfolding children_of
pair_region evs (keep, drop) =
    let affected = keep ∷ drop ∷ children_of (id_at evs drop) evs in
    record {
      indices = map pos affected;
      ids = ids_of affected evs;
      ranges = (pos keep, pos drop) ∷ [];
      unproven = false;
    }

abbrev pub region_of : List SessionEvent → Result (ℕ × ℕ) → AffectedRegion
region_of evs (ok p) = pair_region evs p
region_of evs (err e) = unproven_region

unfoldable pub affected_region_identical_duplicate_collapse :
    Host → PlanStep → List SessionEvent → AffectedRegion
unfolding duplicate_pair pair_region
affected_region_identical_duplicate_collapse host step evs =
    region_of evs (duplicate_pair host evs step)
