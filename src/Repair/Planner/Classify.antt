-- ===== src/Repair/Planner/Classify.antt =====
-- Part 3 of `plan`: each finding is blocked with a reason, or becomes a candidate step.
use sesslint.Prelude.{
  ℕ, String, ◌==◌, Bool, true, false, not, ◌&&◌, ◌||◌, Option, none, some, List, [], ◌∷◌, any, all,
  if◌then◌else◌, ℤ, in_range, length, ltb, mem_text,
}
use Prim.Native.String.{◌++◌ as text_append}
use sesslint.Session.{SessionEvent}
use sesslint.Finding.{Finding, repairability_value}
use sesslint.Policy.Ambiguity.Entries.{AmbiguousEvents}
use sesslint.Policy.Scope.{check_step_scope}
use sesslint.Policy.Gates.{Abstention}
use sesslint.Repair.Result.{Result, ok, err, ◌>>=◌}
use sesslint.Repair.Component.{find_component_indices}
use sesslint.Repair.Steps.{
  PlanStep, Recipe, PreconditionContext, Predicates, recipes_for, check_preconditions,
}
use sesslint.Repair.Planner.Data.{Candidate, Env, Request}
use sesslint.Repair.Planner.Targets.{resolve_target_index}
use sesslint.Repair.Planner.Params.{step_params, LossMap, step_loss}

-- What `plan` computes once for all findings.
pub record Shared : Type 0 where
  pub findings : List Finding
  pub events : List SessionEvent
  pub source_hash : String
  pub global_abstention : Abstention
  pub ambiguous : AmbiguousEvents

pub data Outcome : Type 0 where
  block : String → Outcome
  propose : Candidate → Outcome

abbrev pub known_repairabilities : List String
known_repairabilities = "safe-auto" ∷ "salvage" ∷ "deterministic" ∷ "lossy-explicit" ∷ "manual" ∷ []

-- The refusals that need no recipe to be tried, in the source's order.
unfoldable pub early_refusal : String → String → List Recipe → Option String
early_refusal policy rep [] =
    if rep == "unsupported"
    then some "repairability-unsupported"
    else if rep == "unknown"
    then some "repairability-unknown"
    else some "no-recipe"
early_refusal policy rep (r ∷ rs) =
    if rep == "unsupported"
    then some "repairability-unsupported"
    else if rep == "unknown"
    then some "repairability-unknown"
    else if policy == "conservative" && all (λ q. q.salvage_only) (r ∷ rs)
    then some "needs-salvage-policy"
    else if (rep == "lossy-explicit" || rep == "salvage") && not (policy == "salvage")
    then some "needs-salvage-policy"
    else if rep == "manual" && not (policy == "salvage" && any (λ q. q.salvage_only) (r ∷ rs))
    then some "repairability-manual"
    else if mem_text rep known_repairabilities
    then none
    else some "repairability-unsupported"

pub data Match : Type 0 where
  matched : Recipe → Match
  unmatched : Option String → Match

-- What a recipe's check decides, with the search among the later recipes.
abbrev pub take_match :
    Recipe → Result (Bool × Option String) → (Option String → Result Match) → Result Match
take_match r (err e) next = err e
take_match r (ok (true, failed)) next = ok (matched r)
take_match r (ok (false, failed)) next = next failed

-- The first recipe whose preconditions pass; otherwise the last failed precondition. An error in a
-- recipe that is tried ends the planning.
unfoldable pub match_recipe :
    Predicates → List Recipe → PreconditionContext → Option String → Result Match
match_recipe table [] ctx last = ok (unmatched last)
match_recipe table (r ∷ rs) ctx last =
    take_match r (check_preconditions table r.preconditions ctx) (λ l. match_recipe table rs ctx l)

unfoldable pub unmatched_reason : Option String → String
unmatched_reason none = "precondition-failed"
unmatched_reason (some p) =
    if p == "salvage_policy"
    then "needs-salvage-policy"
    else if p == "acknowledge_side_effects"
    then "needs-acknowledgement"
    else if p == ""
    then "precondition-failed"
    else text_append "precondition-failed:" p

abbrev pub too_large : Recipe → List SessionEvent → Option ℕ → Bool
too_large recipe evs target =
    recipe.name == "unresolvable-branch-amputate"
    && ltb 10_000 (length (find_component_indices evs (elim target [ none ↦ 0 | some i ↦ i ])))

abbrev pub candidate : Recipe → Finding → Option ℕ → LossMap → Candidate
candidate recipe f target loss = record {
  target_index = target;
  recipe = recipe.name;
  finding_fp = f.fingerprint;
  code = f.code;
  params = step_params recipe f;
  lossy = recipe.lossy;
  loss = loss;
  min_policy = recipe.min_policy;
  version = recipe.version;
}

-- The step that the scope check of a candidate sees.
unfoldable pub temp_step : Candidate → PlanStep
temp_step c = record {
  seq = 0;
  recipe = c.recipe;
  target_finding_fp = c.finding_fp;
  target_index = c.target_index;
  params = c.params;
  lossy = c.lossy;
  loss = c.loss;
  min_policy = c.min_policy;
  recipe_version = c.version;
}

abbrev pub or_scope : Option String → String
or_scope none = "side-effect-scope-unproven"
or_scope (some s) = if s == "" then "side-effect-scope-unproven" else s

-- The gate of a conservative plan: the scope check if the recipe has a region, or else the global
-- verdict.
unfoldable pub side_effect_gate : Env → Shared → Recipe → Candidate → Option String
unfolding temp_step
side_effect_gate env shared recipe c = elim recipe.affected_region [
  | some region_fn ↦
      let (disjoint, refusal) =
        check_step_scope env.host (temp_step c) shared.events (some region_fn) shared.findings
          recipe.excludes_execution_dependence (some shared.ambiguous) in
      if disjoint then none else some (or_scope refusal)
  | none ↦ if shared.global_abstention.abstain then some "side-effect-abstention" else none
]

abbrev pub gated : Candidate → Option String → Outcome
gated c none = propose c
gated c (some reason) = block reason

-- The gate is that of conservative plans alone.
unfoldable pub gate_candidate : Env → Request → Shared → Recipe → Candidate → Outcome
unfolding side_effect_gate
gate_candidate env request shared recipe c =
    if request.policy == "conservative"
    then gated c (side_effect_gate env shared recipe c)
    else propose c

-- What a matched recipe comes to.
unfoldable pub propose_step : Env → Request → Shared → Finding → Option ℕ → Recipe → Result Outcome
unfolding gate_candidate
propose_step env request shared f target recipe =
    if too_large recipe shared.events target then ok (block "component-too-large") else do
      loss ← step_loss recipe shared.events target (step_params recipe f)
      ok (gate_candidate env request shared recipe (candidate recipe f target loss))

abbrev pub on_match : Env → Request → Shared → Finding → Option ℕ → Match → Result Outcome
on_match env request shared f target (matched recipe) =
    propose_step env request shared f target recipe
on_match env request shared f target (unmatched last) = ok (block (unmatched_reason last))

abbrev pub context : Request → Shared → Finding → PreconditionContext
context request shared f = record {
  findings = shared.findings;
  events = shared.events;
  profile = request.profile;
  source_hash = shared.source_hash;
  finding = some f;
  policy = request.policy;
  acknowledge_side_effects = request.acknowledged;
}

abbrev pub refuse_or : Option String → Result Outcome → Result Outcome
refuse_or (some reason) next = ok (block reason)
refuse_or none next = next

-- The body of the loop, for a target that is in the session or unknown.
unfoldable pub classify_target : Env → Request → Shared → Finding → Option ℕ → Result Outcome
unfolding early_refusal match_recipe propose_step unmatched_reason
classify_target env request shared f target =
    let recipes = recipes_for env.registry f.code in
    refuse_or (early_refusal request.policy (repairability_value f.repairability) recipes) (do
      m ← match_recipe env.predicates recipes (context request shared f) none
      on_match env request shared f target m)

-- A target outside the session is refused.
abbrev pub in_session : Env → Request → Shared → Finding → Option ℕ → Result Outcome
in_session env request shared f none = ok (block "target-missing")
in_session env request shared f (some i) = classify_target env request shared f (some i)

abbrev pub classify_resolved : Env → Request → Shared → Finding → Option ℤ → Result Outcome
classify_resolved env request shared f none = classify_target env request shared f none
classify_resolved env request shared f (some z) =
    in_session env request shared f (in_range z (length shared.events))

-- The body of the loop over the findings.
unfoldable pub classify : Env → Request → Shared → Finding → Result Outcome
unfolding classify_target
classify env request shared f =
    classify_resolved env request shared f (resolve_target_index env.host f shared.events)
