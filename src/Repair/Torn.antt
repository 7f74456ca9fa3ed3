-- ===== src/Repair/Torn.antt =====
-- `_find_torn_compaction_dropped_indices` of repair/preconditions.py. `none` is its ValueError. The
-- dictionaries by correlation id are the positions that they hold at an id; since a position has one
-- correlation id, the sets of orphans have no repeated member.
use sesslint.Prelude.{
  ℕ, suc, String, ◌==◌, Bool, false, not, ◌&&◌, ◌||◌, Option, none, some, List, [], ◌∷◌, ◌++◌,
  length, if◌then◌else◌, mem_text, ltb, eqb, get_elem?,
}
use sesslint.Session.{SessionEvent, non_empty}
use sesslint.Policy.SideEffects.{is_call, is_result}

abbrev has_correlation : String → SessionEvent → Bool
has_correlation corr ev = elim (non_empty ev.correlation_id) [ none ↦ false | some c ↦ c == corr ]

-- The positions below, or above, the boundary of the calls or results with a correlation id.
unfoldable pub positions_of :
    (SessionEvent → Bool) → (ℕ → Bool) → String → ℕ → List SessionEvent → List ℕ
positions_of is side corr i [] = []
positions_of is side corr i (ev ∷ evs) =
    let rest = positions_of is side corr (suc i) evs in
    if side i && is ev && has_correlation corr ev then i ∷ rest else rest

abbrev add_new : Option String → List String → List String
add_new none cs = cs
add_new (some c) cs = if mem_text c cs then cs else c ∷ cs

-- The keys of the four dictionaries.
unfoldable pub paired_correlations : ℕ → ℕ → List SessionEvent → List String
paired_correlations b i [] = []
paired_correlations b i (ev ∷ evs) =
    let rest = paired_correlations b (suc i) evs in
    if not (eqb i b) && (is_call ev || is_result ev)
    then add_new (non_empty ev.correlation_id) rest
    else rest

-- One correlation id: what it adds to each side. The four lists are the calls and results before the
-- boundary, then those after it.
unfoldable pub split_halves : List ℕ → List ℕ → List ℕ → List ℕ → List ℕ × List ℕ
split_halves (c ∷ cs) rb ca (r ∷ ra) = (c ∷ cs, r ∷ ra)
split_halves cb (r ∷ rb) (c ∷ ca) ra = (r ∷ rb, c ∷ ca)
split_halves (c ∷ cs) [] [] [] = (c ∷ cs, [])
split_halves [] [] [] (r ∷ ra) = ([], r ∷ ra)
split_halves cb rb ca ra = ([], [])

unfoldable pub orphans : ℕ → List SessionEvent → List String → List ℕ × List ℕ
unfolding positions_of split_halves
orphans b evs [] = ([], [])
orphans b evs (corr ∷ cs) =
    let (before, after) = orphans b evs cs in
    let below = λ (i : ℕ). ltb i b in
    let above = λ (i : ℕ). ltb b i in
    let (x, y) =
      split_halves (positions_of is_call below corr 0 evs) (positions_of is_result below corr 0 evs)
        (positions_of is_call above corr 0 evs) (positions_of is_result above corr 0 evs) in
    (x ++ before, y ++ after)

abbrev minority : ℕ → List ℕ → List ℕ → Option (List ℕ)
minority b [] [] = none
minority b (x ∷ xs) ys = some (b ∷ (if ltb (length (x ∷ xs)) (length ys) then x ∷ xs else ys))
minority b [] (y ∷ ys) = some (b ∷ [])

unfoldable pub torn_dropped_indices : List SessionEvent → ℕ → Option (List ℕ)
unfolding paired_correlations orphans
torn_dropped_indices evs b = elim (get_elem? evs b) [
  | none ↦ none
  | some ev ↦
      if ev.kind == "compaction_boundary"
      then (let (before, after) = orphans b evs (paired_correlations b 0 evs) in
          minority b before after)
      else none
]
