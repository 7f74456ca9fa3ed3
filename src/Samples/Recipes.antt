-- ===== src/Samples/Recipes.antt =====
-- The recipes on small sessions.
use sesslint.Prelude.{
  ℕ, suc, ◌≡◌, ◌⊎◌, refl, ◌<◌, true, false, ◌||◌, none, some, List, [], ◌∷◌, map, length, any, take,
  drop, get_elem?, pos,
}
use sesslint.Values.{end, field, text, int}
use sesslint.Session.{SessionEvent}
use sesslint.Policy.SideEffects.{is_call, is_result}
use sesslint.Policy.Scope.Regions.{in_region}
use sesslint.Repair.Result.{ok}
use sesslint.Repair.Steps.{PlanStep}
use sesslint.Repair.Recipes.Edits.{shifted}
use sesslint.Repair.Recipes.Collapse.{
  apply_identical_duplicate_collapse, affected_region_identical_duplicate_collapse,
}
use sesslint.Repair.Recipes.Collapse.Frame.{
  IsDeduplicated, apply_identical_duplicate_collapse-frame,
}
use sesslint.Repair.Recipes.Projection.{
  apply_duplicate_projection_removal, affected_region_duplicate_projection_removal,
}
use sesslint.Repair.Recipes.Projection.Frame.{
  IsDuplicateResult, apply_duplicate_projection_removal-frame,
}
use sesslint.Repair.Recipes.Reunion.{
  apply_compaction_projection_reunion, affected_region_compaction_projection_reunion,
}
use sesslint.Repair.Recipes.Reunion.Order.{IsReunited, apply_compaction_projection_reunion-frame}
use sesslint.Repair.Recipes.Renumber.{
  apply_seq_renumber, apply_seq_renumber_lem, counted, without_seq,
}
use sesslint.Repair.Recipes.Safety.{
  SettledAt, passes_scope, collapse_safe, projection_safe, reunion_safe,
}
use sesslint.Repair.Recipes.Suffix.{
  apply_terminal_suffix_discard, apply_terminal_suffix_discard-ok, cut_index, is_checkpoint,
}
use sesslint.Samples.Data.{
  host, repeated, answered_twice, split, question, call, answer, boundary, step_at,
}

abbrev collapse_step : PlanStep
collapse_step = step_at "identical-duplicate-collapse" (some 0) end

abbrev collapsed_session : List SessionEvent
collapsed_session = question ∷ call ∷ answer ∷ []

collapse_runs :
    apply_identical_duplicate_collapse host repeated collapse_step ≡ ok collapsed_session
unfolding apply_identical_duplicate_collapse sesslint.Session.content_fingerprint
collapse_runs = refl

collapse_passes :
    passes_scope host collapse_step repeated
      (affected_region_identical_duplicate_collapse host)
      []
      false
    ≡ true
unfolding apply_identical_duplicate_collapse sesslint.Policy.Scope.check_step_scope
    affected_region_identical_duplicate_collapse sesslint.Session.content_fingerprint
    sesslint.Policy.Ambiguity.Find.find_ambiguous_events
    sesslint.Policy.SideEffects.extract_side_effects sesslint.Values.get
collapse_passes = refl

collapse_safe_example :
    (keep : ℕ) × IsDeduplicated host repeated collapsed_session keep
    × ((j : ℕ) (ev : SessionEvent)
        → get_elem? repeated j ≡ some ev
        → (is_call ev || is_result ev) ≡ true
        → (get_elem? collapsed_session (shifted (suc keep) j) ≡ some ev)
          ⊎ SettledAt host repeated ev)
collapse_safe_example =
    collapse_safe host repeated collapse_step [] false collapsed_session collapse_runs
      collapse_passes

collapse_frame_example :
    (keep : ℕ) × IsDeduplicated host repeated collapsed_session keep
    × ((affected_region_identical_duplicate_collapse host collapse_step repeated).unproven ≡ false)
    × ((j : ℕ) (ev : SessionEvent)
        → get_elem? repeated j ≡ some ev
        → in_region (affected_region_identical_duplicate_collapse host collapse_step repeated) j
          ≡ false
        → get_elem? collapsed_session (shifted (suc keep) j) ≡ some ev)
collapse_frame_example =
    apply_identical_duplicate_collapse-frame host repeated collapse_step collapsed_session
      collapse_runs

abbrev removal_step : PlanStep
removal_step = step_at "duplicate-projection-removal" (some 3) end

abbrev answered_once : List SessionEvent
answered_once = question ∷ call ∷ record answer { content_hash = some "tool_result" } ∷ []

removal_runs :
    apply_duplicate_projection_removal host answered_twice removal_step ≡ ok answered_once
unfolding apply_duplicate_projection_removal sesslint.Values.get
    sesslint.Repair.Recipes.Edits.positions sesslint.Session.content_fingerprint
    sesslint.Repair.Recipes.Collapse.collapse_pair
removal_runs = refl

removal_passes :
    passes_scope host removal_step answered_twice
      (affected_region_duplicate_projection_removal host)
      []
      false
    ≡ true
unfolding apply_duplicate_projection_removal sesslint.Policy.Scope.check_step_scope
    affected_region_duplicate_projection_removal sesslint.Values.get
    sesslint.Repair.Recipes.Edits.positions sesslint.Session.content_fingerprint
    sesslint.Policy.Ambiguity.Find.find_ambiguous_events
    sesslint.Policy.SideEffects.extract_side_effects sesslint.Repair.Recipes.Collapse.children_of
removal_passes = refl

projection_safe_example :
    (first : ℕ) × (drop : ℕ) × IsDuplicateResult host answered_twice removal_step first drop
    × ((j : ℕ) (ev : SessionEvent)
        → get_elem? answered_twice j ≡ some ev
        → (is_call ev || is_result ev) ≡ true
        → (get_elem? answered_once (shifted drop j) ≡ some ev) ⊎ SettledAt host answered_twice ev)
projection_safe_example =
    projection_safe host answered_twice removal_step [] false answered_once removal_runs
      removal_passes

projection_frame_example :
    (first : ℕ) × (drop : ℕ) × IsDuplicateResult host answered_twice removal_step first drop
    × ((affected_region_duplicate_projection_removal host removal_step answered_twice).unproven
        ≡ false)
    × ((j : ℕ) (ev : SessionEvent)
        → get_elem? answered_twice j ≡ some ev
        → in_region
            (affected_region_duplicate_projection_removal host removal_step answered_twice)
            j
          ≡ false
        → get_elem? answered_once (shifted drop j) ≡ some ev)
projection_frame_example =
    apply_duplicate_projection_removal-frame host answered_twice removal_step answered_once
      removal_runs

abbrev reunion_step : PlanStep
reunion_step = step_at "compaction-projection-reunion" none (field "correlation_id" (text "k") end)

abbrev reunited : List SessionEvent
reunited = question ∷ call ∷ answer ∷ boundary ∷ []

reunion_runs : apply_compaction_projection_reunion host split reunion_step ≡ ok reunited
unfolding apply_compaction_projection_reunion sesslint.Values.get
reunion_runs = refl

reunion_passes :
    passes_scope host reunion_step split
      (affected_region_compaction_projection_reunion host)
      []
      false
    ≡ true
unfolding apply_compaction_projection_reunion sesslint.Policy.Scope.check_step_scope
    affected_region_compaction_projection_reunion sesslint.Values.get
    sesslint.Policy.Ambiguity.Find.find_ambiguous_events
    sesslint.Policy.SideEffects.extract_side_effects
reunion_passes = refl

reunion_safe_example : (get_elem? reunited 1 ≡ some call) ⊎ SettledAt host split call
reunion_safe_example =
    reunion_safe host split reunion_step [] false reunited 1 call reunion_runs reunion_passes refl
      refl

reunion_frame_example : IsReunited host split reunion_step reunited
reunion_frame_example =
    apply_compaction_projection_reunion-frame host split reunion_step reunited reunion_runs

abbrev discard_step : PlanStep
discard_step = step_at "terminal-suffix-discard" none (field "cut_index" (int (pos 2)) end)

discard_runs : apply_terminal_suffix_discard split discard_step ≡ ok (question ∷ call ∷ [])
unfolding apply_terminal_suffix_discard sesslint.Values.get
discard_runs = refl

discard_example :
    (cut : ℕ) × (cut_index discard_step ≡ some (pos cut))
    × (0 < cut)
    × (cut < length split)
    × (any is_checkpoint (drop cut split) ≡ false)
    × ((question ∷ call ∷ []) ≡ take cut split)
discard_example =
    apply_terminal_suffix_discard-ok split discard_step (question ∷ call ∷ []) discard_runs

renumber_example :
    (map (λ ev. ev.seq) (apply_seq_renumber split discard_step) ≡ counted 0 split)
    × (map without_seq (apply_seq_renumber split discard_step) ≡ map without_seq split)
    × (apply_seq_renumber (apply_seq_renumber split discard_step) discard_step
        ≡ apply_seq_renumber split discard_step)
renumber_example = apply_seq_renumber_lem split discard_step
