-- ===== src/Samples/Positions.antt =====
-- Tagging, stripping and relocating at work, before and after a drop.
use sesslint.Prelude.{ℕ, String, ◌≡◌, refl, some, List, [], ◌∷◌, length, pos}
use sesslint.Values.{Value, int, text, array, item, no_items, Fields, field, end}
use sesslint.Repair.Result.{ok, err, ◌>>=◌, removed_target}
use sesslint.Repair.Steps.{PlanStep}
use sesslint.Repair.Positions.{tag_origins, strip_origins, source_positions, relocate_step}
use sesslint.Repair.Positions.Relocate.{strip_origins-tag_origins}
use sesslint.Samples.Data.{step_at}

abbrev working : String → Fields
working id = field "id" (text id) end

abbrev working_at : String → ℕ → Fields
working_at id i = field "id" (text id) (field "\0sesslint.origin" (int (pos i)) end)

abbrev two_working : List Fields
two_working = working "m1" ∷ working "m2" ∷ []

abbrev two_tagged : List Fields
two_tagged = working_at "m1" 0 ∷ working_at "m2" 1 ∷ []

two_tagged_run : tag_origins two_working ≡ ok two_tagged
unfolding tag_origins sesslint.Values.has_key sesslint.Values.put
two_tagged_run = refl

abbrev indexed : ℕ → ℕ → PlanStep
indexed target i =
    step_at "torn-result-drop" (some target) (
      field "index" (int (pos i))
        (field "record_indexes" (array (item (int (pos i)) no_items)) end))

-- After the drop of the first event, the second one stands at 0, and the first is gone.
relocated_run :
    (do ps ← source_positions (working_at "m2" 1 ∷ []); relocate_step (indexed 1 1) ps 2)
    ≡ ok (indexed 0 0)
unfolding source_positions relocate_step sesslint.Values.get sesslint.Values.has_key
    sesslint.Values.put
relocated_run = refl

gone_run :
    (do ps ← source_positions (working_at "m2" 1 ∷ []); relocate_step (indexed 0 1) ps 2)
    ≡ err (removed_target 0 "torn-result-drop" 0)
unfolding source_positions relocate_step sesslint.Values.get sesslint.Values.has_key
    sesslint.Values.put
gone_run = refl

tag_example :
    (strip_origins two_tagged ≡ two_working)
    × ((do ps ← source_positions two_tagged; relocate_step (indexed 1 0) ps (length two_working))
        ≡ ok (indexed 1 0))
tag_example = strip_origins-tag_origins two_working two_tagged (indexed 1 0) two_tagged_run
