-- ===== src/Samples/Policies.antt =====
-- The repair policy on small sessions.
use sesslint.Prelude.{◌↔◌, ◌⊎◌, some, true, false, String}
use sesslint.Prelude.{
  ◌≡◌, refl, String, ◌==◌, true, false, not, ◌&&◌, ◌||◌, none, some, [], ◌∷◌, all, pos, ltb, mem_ℕ,
  mem_text,
}
use sesslint.Values.{end}
use sesslint.Finding.{has_sl203}
use sesslint.Policy.SideEffects.{is_tool, extract_side_effects}
use sesslint.Policy.Ambiguity.Closure.{ambiguous_ids_of_indices}
use sesslint.Policy.Ambiguity.Covers.{unambiguous-IsSettled, calls_of, results_of}
use sesslint.Policy.Ambiguity.Find.{find_ambiguous_events, initial_marks}
use sesslint.Policy.Ambiguity.Settled.{IsSettled}
use sesslint.Policy.Gates.{Candidate, should_abstain_from_repair, must_abstain}
use sesslint.Policy.Gates.Verdicts.{is_harmless, should_abstain_iff, must_abstain_iff}
use sesslint.Policy.Scope.{
  AffectedRegion, mem_ℤ, all_indices, check_step_scope, check_region, or_found,
}
use sesslint.Policy.Scope.Disjoint.{
  placed, check_region-IsDisjoint, check_step_scope_passed, check_step_scope-IsSettled,
}
use sesslint.Policy.Scope.Regions.{in_ranges, mem_ℤ-all_indices}
use sesslint.Repair.Steps.{PlanStep, RegionFn}
use sesslint.Samples.Data.{host, repeated, call, step_at, region_at}

settled_index : mem_ℕ 2 (find_ambiguous_events host repeated []).indices ≡ false
unfolding find_ambiguous_events extract_side_effects sesslint.Values.get
settled_index = refl

unambiguous_example :
    (corr : String) × (call.correlation_id ≡ some corr)
    × IsSettled host (calls_of host corr repeated) (results_of host corr repeated)
unambiguous_example = unambiguous-IsSettled host repeated [] 2 call refl refl settled_index

abbrev call_region_fn : RegionFn
call_region_fn step evs = some (region_at (pos 2))

abbrev sample_step : PlanStep
sample_step = step_at "recipe" none end

scope_passes :
    (check_step_scope host sample_step repeated (some call_region_fn) [] false none).0 ≡ true
unfolding check_step_scope find_ambiguous_events extract_side_effects sesslint.Values.get
scope_passes = refl

scope-IsSettled_example :
    (corr : String) × (call.correlation_id ≡ some corr)
    × IsSettled host (calls_of host corr repeated) (results_of host corr repeated)
scope-IsSettled_example =
    check_step_scope-IsSettled host sample_step repeated call_region_fn [] false (region_at (pos 2))
      2 call scope_passes refl refl (placed refl) refl

scope_passed_example :
    (f : RegionFn) × (region : AffectedRegion) × (some call_region_fn ≡ some f)
    × (f sample_step repeated ≡ some region)
    × (region.unproven ≡ false)
    × (has_sl203 [] ≡ false)
    × ((check_region host repeated region false (or_found host repeated [] none)).0 ≡ true)
scope_passed_example =
    check_step_scope_passed host sample_step repeated (some call_region_fn) [] false none
      scope_passes

region_passes :
    (check_region host repeated
      (region_at (pos 2))
      false
      (find_ambiguous_events host repeated [])).0
    ≡ true
unfolding check_region find_ambiguous_events extract_side_effects sesslint.Values.get
region_passes = refl

disjoint_example :
    (mem_ℕ 2 (find_ambiguous_events host repeated []).indices ≡ false)
    × ((call.id == "" || not (mem_text call.id (find_ambiguous_events host repeated []).ids))
        ≡ true)
    × ((not (is_tool call) || extract_side_effects host call == "none" || false) ≡ true)
disjoint_example =
    check_region-IsDisjoint host repeated (region_at (pos 2)) false
      (find_ambiguous_events host repeated []) 2 call region_passes refl (placed refl)

closure_example :
    (mem_ℕ 2 (find_ambiguous_events host repeated []).indices ≡ true
      → mem_text call.id (find_ambiguous_events host repeated []).ids ≡ true)
    × (mem_text call.id (initial_marks host repeated []).ids ≡ true
        → mem_ℕ 2 (find_ambiguous_events host repeated []).indices ≡ true)
closure_example = ambiguous_ids_of_indices host repeated [] 2 call refl refl

region_example :
    mem_ℤ
      (pos 1)
      (all_indices (record (region_at (pos 0)) { ranges = (pos 1, pos 2) ∷ [] }) (some 4))
    ≡ (mem_ℤ (pos 1) (pos 0 ∷ []) || ltb 1 4 && in_ranges 1 ((pos 1, pos 2) ∷ []))
region_example = mem_ℤ-all_indices (record (region_at (pos 0)) { ranges = (pos 1, pos 2) ∷ [] }) 4 1

abbrev sample_candidate : Candidate PlanStep
sample_candidate = record { step = sample_step; region_fn = some call_region_fn; excludes = false }

gate_example :
    ((should_abstain_from_repair host [] repeated "conservative" false
        (some sample_candidate)).abstain
      ≡ false)
    ↔ ((has_sl203 [] ≡ false)
        × (◌≡◌ {A = String} "conservative" "salvage"
            → (false ≡ true) ⊎ (all (is_harmless host) repeated ≡ true))
        × (◌≡◌ {A = String} "conservative" "conservative"
            → (c : Candidate PlanStep) → some sample_candidate ≡ some c
            → (check_step_scope host c.step repeated c.region_fn [] c.excludes none).0 ≡ true))
gate_example = should_abstain_iff host [] repeated "conservative" false (some sample_candidate)

must_abstain_example :
    ((must_abstain host [] repeated false).abstain
      ≡ (has_sl203 [] || not false && not (all (is_harmless host) repeated)))
    × (must_abstain host [] repeated false
        ≡ should_abstain_from_repair {Step = PlanStep} host [] repeated "salvage" false none)
must_abstain_example = must_abstain_iff PlanStep host [] repeated false
