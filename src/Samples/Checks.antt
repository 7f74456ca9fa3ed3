-- ===== src/Samples/Checks.antt =====
-- The walk over a component, the graph checks, and the restoring of a parent at work.
use sesslint.Prelude.{ℕ, String, ◌≡◌, ◌↔◌, refl, true, false, none, some, List, [], ◌∷◌, mem_ℕ, All}
use sesslint.Values.{end, field, text}
use sesslint.Session.{SessionEvent}
use sesslint.Checks.Graph.Occurrence.{node, occurrence_graph, missing_parents}
use sesslint.Checks.Graph.Occurrence.Missing.{FirstAt, Listed, names_event, missing_parents_iff}
use sesslint.Checks.Graph.Cycles.{find_cycles}
use sesslint.Checks.Graph.Cycles.Links.{Grounded}
use sesslint.Checks.Graph.Cycles.Sound.{IsCycle, find_cycles-All-IsCycle}
use sesslint.Checks.Graph.Cycles.Covered.{Ends, find_cycles_iff}
use sesslint.Repair.Component.{find_component_indices}
use sesslint.Repair.Component.Reach.{Connected, find_component_indices_iff}
use sesslint.Repair.Result.{ok}
use sesslint.Repair.Steps.{PlanStep}
use sesslint.Repair.Recipes.Restore.{apply_proven_unique_parent_restore}
use sesslint.Repair.Recipes.Restore.Unique.{
  IsRestored, apply_proven_unique_parent_restore-IsRestored,
}
use sesslint.Samples.Data.{host, event, child_event, chain, tangled, step_at}

component_example : (mem_ℕ 2 (find_component_indices chain 0) ≡ true) ↔ Connected chain 0 2
component_example = find_component_indices_iff chain 0 2

cycles_run : find_cycles tangled ≡ ("x1" ∷ "x2" ∷ "x1" ∷ []) ∷ []
unfolding find_cycles sesslint.Prelude.Text.le_text
cycles_run = refl

cycles_example : All (IsCycle (occurrence_graph tangled)) (find_cycles tangled)
cycles_example = find_cycles-All-IsCycle tangled

cycles_iff_example :
    ((s : String) → Ends (occurrence_graph tangled) (find_cycles tangled) s)
    × ((find_cycles tangled ≡ []) ↔ ((s : String) → Grounded (occurrence_graph tangled) s))
cycles_iff_example = find_cycles_iff tangled

missing_example : Listed (node 2 (child_event "o1" "message" "gone")) (missing_parents tangled) ↔ (
    FirstAt tangled 2 (child_event "o1" "message" "gone")
    × ((p : String) × ((child_event "o1" "message" "gone").parent_id ≡ some p)
        × (names_event tangled p ≡ false)))
missing_example = missing_parents_iff tangled 2 (child_event "o1" "message" "gone")

abbrev restore_step : PlanStep
restore_step = step_at "proven-unique-parent-restore" (some 2) (field "parent_id" (text "m1") end)

abbrev restored : List SessionEvent
restored =
    event "m1" "message" none
    ∷ child_event "c1" "tool_call" "m1"
    ∷ child_event "r1" "tool_result" "m1"
    ∷ []

restore_runs : apply_proven_unique_parent_restore host chain restore_step ≡ ok restored
unfolding apply_proven_unique_parent_restore sesslint.Values.get
restore_runs = refl

restore_example : IsRestored host chain restore_step restored
restore_example =
    apply_proven_unique_parent_restore-IsRestored host chain restore_step restored restore_runs
