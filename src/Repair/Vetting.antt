-- ===== src/Repair/Vetting.antt =====
-- repair/vetting.py: `vet_plan`, which admits a supplied plan only where the planner derives its steps now.
-- `json.dumps` of a step's mapping is a parameter.
pub mod Subsequence
use sesslint.Prelude.{
  ℕ, suc, String, ◌==◌, Bool, true, false, ◌&&◌, ◌||◌, Option, none, some, List, [], ◌∷◌, ◌++◌,
  if◌then◌else◌, leb, ltb, map, keep, mem_text, pos,
}
use sesslint.Prelude.Sort.{sort}
use sesslint.Values.{Value, text, int, null, bool, object, Fields, field, end}
use sesslint.Session.{SessionEvent}
use sesslint.Finding.{Finding}
use sesslint.Repair.Result.{RepairError, Result, ok, err}
use sesslint.Repair.Steps.{PlanStep}
use sesslint.Repair.Planner.Data.{Env, Request, RepairPlan}
use sesslint.Repair.Planner.Plan.{plan}

unfoldable pub counts_of : List (String × ℕ) → Fields
counts_of [] = end
counts_of ((k, n) ∷ ls) = field k (int (pos n)) (counts_of ls)

abbrev index_value : Option ℕ → Value
index_value none = null
index_value (some i) = int (pos i)

abbrev loss_fields : Bool → List (String × ℕ) → Fields
loss_fields false ls = end
loss_fields true [] = end
loss_fields true (l ∷ ls) =
    field "lossy" (bool true) (field "loss" (object (counts_of (l ∷ ls))) end)

-- `PlanStep.to_dict`, less the key `seq`.
unfoldable pub step_body : PlanStep → Fields
unfolding counts_of
step_body s = field "min_policy" (text s.min_policy) (
    field "params" (object s.params) (
      field "recipe" (text s.recipe) (
        field "recipe_version" (text s.recipe_version) (
          field "target_finding_fp" (text s.target_finding_fp)
            (field "target_index" (index_value s.target_index) (loss_fields s.lossy s.loss))))))

-- Why a plan is not admitted: each constructor is one `raise`, or an error of the planner.
pub data VetError : Type 0 where
  source_mismatch : VetError
  not_derived : PlanStep → VetError
  planner_error : RepairError → VetError

-- `positions.get(identity, ())`: the positions of an identity among those of the planner's steps.
unfoldable pub positions_from : ℕ → String → List String → List ℕ
positions_from i s [] = []
positions_from i s (x ∷ xs) =
    let rest = positions_from (suc i) s xs in if x == s then i ∷ rest else rest

-- `i > previous`, which starts at -1.
abbrev pub is_after : Option ℕ → ℕ → Bool
is_after none i = true
is_after (some p) i = ltb p i

-- The loop over the supplied steps; the first step with no later position is refused.
unfoldable pub follow :
    List String → (PlanStep → String) → Option ℕ → List PlanStep → Option PlanStep
unfolding positions_from
follow expected identity previous [] = none
follow expected identity previous (s ∷ ss) =
    elim (keep (is_after previous) (positions_from 0 (identity s) expected)) [
      | [] ↦ some s
      | i ∷ later ↦ follow expected identity (some i) ss
    ]

abbrev pub le_seq : PlanStep → PlanStep → Bool
le_seq a b = leb a.seq b.seq

-- The planner's request for a supplied plan.
abbrev pub request_for : RepairPlan → Bool → String → Request
request_for supplied acknowledged format = record {
  policy = supplied.policy;
  acknowledged = acknowledged;
  profile = supplied.profile;
  source_hash = some supplied.source_hash;
  input_format = some format;
}

abbrev refusal : Option PlanStep → Option VetError
refusal none = none
refusal (some s) = some (not_derived s)

module _ (env : Env) (dumps : Fields → String) where
  -- `_plan_step_identity`.
  unfoldable pub step_identity : PlanStep → String
  unfolding step_body
  step_identity s = dumps (step_body s)

  -- `none` is a return.
  unfoldable pub vet_plan :
      RepairPlan → List Finding → List SessionEvent → String → Bool → String → Option VetError
  unfolding follow step_identity
  vet_plan supplied fs evs source_hash acknowledged format =
      if mem_text supplied.source_hash (source_hash ∷ env.events_digest evs ∷ [])
      then (elim (plan env (request_for supplied acknowledged format) fs evs) [
        | err e ↦ some (planner_error e)
        | ok expected ↦ refusal (
            follow (map step_identity expected.steps) step_identity none
              (sort le_seq supplied.steps))
      ])
      else some source_mismatch
