-- ===== src/Samples/Plans.antt =====
-- A plan for a small session, under both policies.
use sesslint.Prelude.Sort.{Ordered}
use sesslint.Prelude.{◌++◌}
use sesslint.Repair.Planner.Order.{MayPrecede, IsTail}
use sesslint.Prelude.{
  ℕ, ◌≡◌, ◌≤◌, ◌↔◌, refl, String, ◌==◌, Bool, true, false, Option, none, some, List, [], ◌∷◌, ◌++◌,
  All, map, length,
}
use sesslint.Prelude.Sort.{IsSorted}
use mathlib.Core.List.{Perm, Mem, Nodup}
use sesslint.Finding.{Finding, has_sl203}
use sesslint.Repair.Result.{Result, ok, err}
use sesslint.Repair.Steps.{PlanStep}
use sesslint.Repair.Planner.Data.{Candidate, RepairPlan}
use sesslint.Repair.Planner.Classify.{Shared, propose, classify, candidate}
use sesslint.Repair.Planner.Plan.{
  plan, is_lossy, with_renumber, unique_findings, shared_of, le_fingerprint,
}
use sesslint.Repair.Planner.Accounting.{plan_accounts}
use sesslint.Repair.Planner.Guard.{plan_conservative_lossless}
use sesslint.Repair.Planner.Order.{plan-IsSorted}
use sesslint.Repair.Planner.Outcomes.{IsProposed, classify-IsProposed}
use sesslint.Repair.Planner.Scoped.{IsSafe, plan_conservative-IsSafe}
use sesslint.Repair.Planner.Steps.{IsNumbered, plan-IsNumbered}
use sesslint.Repair.Planner.Unique.{unique_findings-Nodup}
use sesslint.Samples.Data.{env, request, recipe, finding, findings, repeated}

abbrev empty_plan : RepairPlan
empty_plan = record {
  body = record {
    source_hash = "";
    profile = "";
    steps = [];
    blocked = [];
    loss_accounting = record { preview = []; total_lost = 0; total_kept = 0 };
    policy = "";
  };
  fingerprint = "";
}

abbrev plan_or_empty : Result RepairPlan → RepairPlan
plan_or_empty (ok p) = p
plan_or_empty (err e) = empty_plan

abbrev sample_plan : RepairPlan
sample_plan = plan_or_empty (plan env request findings repeated)

plan_runs : plan env request findings repeated ≡ ok sample_plan
unfolding plan sesslint.Policy.Gates.should_abstain_from_repair unique_findings
    sesslint.Prelude.Sort.sort sesslint.Prelude.Text.le_text classify
    sesslint.Repair.Planner.Targets.resolve_target_index sesslint.Values.get
    sesslint.Repair.Steps.recipes_for sesslint.Finding.repairability_value
    sesslint.Repair.Steps.check_preconditions sesslint.Repair.Planner.Params.step_loss
    sesslint.Policy.Scope.check_step_scope sesslint.Policy.Ambiguity.Find.find_ambiguous_events
    sesslint.Policy.SideEffects.extract_side_effects
plan_runs = refl

-- One step and the renumbering; one finding is blocked.
plan_has_steps :
    map (λ s. s.recipe) sample_plan.steps ≡ "identical-duplicate-collapse" ∷ "seq-renumber" ∷ []
unfolding plan sesslint.Policy.Gates.should_abstain_from_repair unique_findings
    sesslint.Prelude.Sort.sort sesslint.Prelude.Text.le_text classify
    sesslint.Repair.Planner.Targets.resolve_target_index sesslint.Values.get
    sesslint.Repair.Steps.recipes_for sesslint.Finding.repairability_value
    sesslint.Repair.Steps.check_preconditions sesslint.Repair.Planner.Params.step_loss
    sesslint.Policy.Scope.check_step_scope sesslint.Policy.Ambiguity.Find.find_ambiguous_events
    sesslint.Policy.SideEffects.extract_side_effects
plan_has_steps = refl

plan-IsSafe_example : All (IsSafe env findings repeated) sample_plan.steps
plan-IsSafe_example =
    plan_conservative-IsSafe env request findings repeated sample_plan refl plan_runs

plan_lossless_example :
    All (λ s. is_lossy s ≡ false) sample_plan.steps
    × (sample_plan.loss_accounting.total_lost ≡ 0)
    × (sample_plan.loss_accounting.total_kept ≡ length repeated)
plan_lossless_example =
    plan_conservative_lossless env request findings repeated sample_plan refl plan_runs

clean_findings : has_sl203 findings ≡ false
clean_findings = refl

plan_accounts_example :
    (steps : List PlanStep) × (sample_plan.steps ≡ with_renumber (some "canonical") steps)
    × Perm
        (map (λ s. s.target_finding_fp) steps ++ map (λ b. b.finding_fp) sample_plan.blocked)
        (map (λ f. f.fingerprint) (unique_findings findings))
plan_accounts_example =
    plan_accounts env request findings repeated sample_plan clean_findings plan_runs

plan-IsNumbered_example : IsNumbered 0 sample_plan.steps × (length sample_plan.steps ≤ 257)
plan-IsNumbered_example =
    plan-IsNumbered env request findings repeated sample_plan clean_findings plan_runs

plan-IsSorted_example :
    (steps : List PlanStep) × (tail : List PlanStep) × (sample_plan.steps ≡ steps ++ tail)
    × Ordered MayPrecede steps
    × (length steps ≤ 256)
    × IsTail tail
plan-IsSorted_example =
    plan-IsSorted env request findings repeated sample_plan clean_findings plan_runs

abbrev sample_shared : Shared
sample_shared = shared_of env findings repeated "hash"

abbrev sample_candidate : Candidate
sample_candidate = candidate recipe (finding "SL003" "f1") (some 0) []

classify_runs :
    classify env request sample_shared (finding "SL003" "f1") ≡ ok (propose sample_candidate)
unfolding classify sesslint.Repair.Planner.Targets.resolve_target_index sesslint.Values.get
    sesslint.Repair.Steps.recipes_for sesslint.Finding.repairability_value
    sesslint.Repair.Steps.check_preconditions sesslint.Repair.Planner.Params.step_loss
    sesslint.Policy.Scope.check_step_scope sesslint.Policy.Ambiguity.Find.find_ambiguous_events
    unique_findings sesslint.Prelude.Sort.sort sesslint.Prelude.Text.le_text
    sesslint.Policy.SideEffects.extract_side_effects
classify_runs = refl

classify_example : IsProposed env request sample_shared (finding "SL003" "f1") sample_candidate
classify_example =
    classify-IsProposed env request sample_shared (finding "SL003" "f1") sample_candidate
      classify_runs

unique_example :
    IsSorted le_fingerprint (unique_findings findings)
    × Nodup (map (λ f. f.fingerprint) (unique_findings findings))
    × ((s : String)
        → Mem s (map (λ f. f.fingerprint) (unique_findings findings))
          ↔ Mem s (map (λ f. f.fingerprint) findings))
unique_example = unique_findings-Nodup findings
