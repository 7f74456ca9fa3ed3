-- ===== src/Repair/Recipes/Safety.antt =====
-- The recipes behind the scope check: what a step that passed it can do to a tool event.
use sesslint.Prelude.{
  ℕ, suc, ◌≡◌, ◌∙◌, String, Bool, true, false, ◌||◌, ◌⊎◌, inl, inr, some, List, get_elem?,
  Bool-cases,
}
use mathlib.Core.Path.{subst}
use sesslint.Session.{SessionEvent, Host}
use sesslint.Finding.{Finding}
use sesslint.Policy.SideEffects.{is_call, is_result}
use sesslint.Policy.Ambiguity.Find.{find_ambiguous_events}
use sesslint.Policy.Ambiguity.Settled.{IsSettled}
use sesslint.Policy.Ambiguity.Covers.{calls_of, results_of}
use sesslint.Policy.Scope.{AffectedRegion, check_step_scope}
use sesslint.Policy.Scope.Disjoint.{placed}
use sesslint.Policy.Scope.Regions.{in_region}
use sesslint.Repair.Result.{ok}
use sesslint.Repair.Steps.{PlanStep}
use sesslint.Repair.Planner.Scoped.{ReachesSettled, scope_check-ReachesSettled}
use sesslint.Repair.Recipes.Edits.{shifted}
use sesslint.Repair.Recipes.Collapse.{
  apply_identical_duplicate_collapse, affected_region_identical_duplicate_collapse,
}
use sesslint.Repair.Recipes.Collapse.Frame.{
  IsDeduplicated, apply_identical_duplicate_collapse-frame,
}
use sesslint.Repair.Recipes.Projection.{
  apply_duplicate_projection_removal, affected_region_duplicate_projection_removal,
}
use sesslint.Repair.Recipes.Projection.Frame.{
  IsDuplicateResult, apply_duplicate_projection_removal-frame,
}
use sesslint.Repair.Recipes.Reunion.{
  apply_compaction_projection_reunion, affected_region_compaction_projection_reunion,
}
use sesslint.Repair.Recipes.Reunion.Order.{apply_compaction_projection_reunion-frame}

-- The tool event belongs to a correlation id whose call and results are settled.
abbrev pub SettledAt : Host → List SessionEvent → SessionEvent → Type 0
SettledAt host evs ev =
    (corr : String) × (ev.correlation_id ≡ some corr)
    × IsSettled host (calls_of host corr evs) (results_of host corr evs)

-- The scope check of a step with a total region function, against the events that are ambiguous in the
-- session.
abbrev pub passes_scope :
    Host
    → PlanStep
    → List SessionEvent
    → (PlanStep → List SessionEvent → AffectedRegion)
    → List Finding
    → Bool
    → Bool
passes_scope host step evs region_fn fs excludes =
    (check_step_scope host step evs (some (λ s es. some (region_fn s es))) fs excludes
      (some (find_ambiguous_events host evs fs))).0

region-ReachesSettled :
    (host : Host) (step : PlanStep) (evs : List SessionEvent)
    (region_fn : PlanStep → List SessionEvent → AffectedRegion) (fs : List Finding)
    (excludes : Bool)
    → passes_scope host step evs region_fn fs excludes ≡ true
    → ReachesSettled host evs (region_fn step evs)
region-ReachesSettled host step evs region_fn fs excludes h =
    let (region, answered, _, settled) =
      scope_check-ReachesSettled host step evs (λ s es. some (region_fn s es)) fs fs excludes h in
    let same : region ≡ region_fn step evs = cc in subst (ReachesSettled host evs) same settled

-- Inside the region an event is settled; outside, the frame holds.
kept_or_settled :
    {Kept : Type 0} (host : Host) (evs : List SessionEvent) (region : AffectedRegion) (j : ℕ)
    (ev : SessionEvent)
    → ReachesSettled host evs region
    → (in_region region j ≡ false → Kept)
    → get_elem? evs j ≡ some ev
    → (is_call ev || is_result ev) ≡ true
    → Kept ⊎ SettledAt host evs ev
kept_or_settled host evs region j ev settled frame at tool =
    elim (Bool-cases (in_region region j)) [
      | inl e ↦ inr (settled j ev at (placed e) tool)
      | inr e ↦ inl (frame e)
    ]

-- If a collapse succeeds and its step passes the scope check, then it removes the second of a pair of
-- duplicates and nothing else, and leaves the other events but for their parents; and every tool event of
-- the session stays as it is, one place earlier behind the removed event, or its correlation id is
-- settled.
pub collapse_safe :
    (host : Host) (evs : List SessionEvent) (step : PlanStep) (fs : List Finding) (excludes : Bool)
    (out : List SessionEvent)
    → apply_identical_duplicate_collapse host evs step ≡ ok out
    → passes_scope host step evs (affected_region_identical_duplicate_collapse host) fs excludes
      ≡ true
    → (keep : ℕ) × IsDeduplicated host evs out keep
      × ((j : ℕ) (ev : SessionEvent)
          → get_elem? evs j ≡ some ev
          → (is_call ev || is_result ev) ≡ true
          → (get_elem? out (shifted (suc keep) j) ≡ some ev) ⊎ SettledAt host evs ev)
collapse_safe host evs step fs excludes out h passed =
    let (keep, collapse, _, frame) = apply_identical_duplicate_collapse-frame host evs step out h in
    let settled = region-ReachesSettled host step evs _ fs excludes passed in
    (
      keep,
      collapse,
      λ j ev at tool. kept_or_settled host evs _ j ev settled (frame j ev at) at tool,
    )

-- If the removal of a duplicate result succeeds and its step passes the scope check, then it drops a later result with
-- the content of the first, and every tool event of the session stays as it is, one place earlier behind the
-- dropped result, or its correlation id is settled.
pub projection_safe :
    (host : Host) (evs : List SessionEvent) (step : PlanStep) (fs : List Finding) (excludes : Bool)
    (out : List SessionEvent)
    → apply_duplicate_projection_removal host evs step ≡ ok out
    → passes_scope host step evs (affected_region_duplicate_projection_removal host) fs excludes
      ≡ true
    → (first : ℕ) × (drop : ℕ) × IsDuplicateResult host evs step first drop
      × ((j : ℕ) (ev : SessionEvent)
          → get_elem? evs j ≡ some ev
          → (is_call ev || is_result ev) ≡ true
          → (get_elem? out (shifted drop j) ≡ some ev) ⊎ SettledAt host evs ev)
projection_safe host evs step fs excludes out h passed =
    let (first, drop, twice, _, frame) =
      apply_duplicate_projection_removal-frame host evs step out h in
    let settled = region-ReachesSettled host step evs _ fs excludes passed in
    (
      first,
      drop,
      twice,
      λ j ev at tool. kept_or_settled host evs _ j ev settled (frame j ev at) at tool,
    )

-- If a reunion succeeds and its step passes the scope check, then every tool event of the session keeps its place,
-- or its correlation id is settled.
pub reunion_safe :
    (host : Host) (evs : List SessionEvent) (step : PlanStep) (fs : List Finding) (excludes : Bool)
    (out : List SessionEvent) (j : ℕ) (ev : SessionEvent)
    → apply_compaction_projection_reunion host evs step ≡ ok out
    → passes_scope host step evs (affected_region_compaction_projection_reunion host) fs excludes
      ≡ true
    → get_elem? evs j ≡ some ev
    → (is_call ev || is_result ev) ≡ true
    → (get_elem? out j ≡ some ev) ⊎ SettledAt host evs ev
reunion_safe host evs step fs excludes out j ev h passed at tool =
    let moved = apply_compaction_projection_reunion-frame host evs step out h in
    let settled = region-ReachesSettled host step evs _ fs excludes passed in
    kept_or_settled host evs _ j ev settled (λ e. moved.outside j e ∙ at) at tool
