-- ===== src/Repair/Planner/Refusal.antt =====
-- The hard refusal on SL203, and how a successful plan without it is made.
use sesslint.Prelude.{
  ℕ, suc, ◌≡◌, refl, String, ◌==◌, Bool, true, false, not, ◌&&◌, ◌||◌, none, List, [], ◌∷◌, any,
  map, length, if◌then◌else◌, arith, Bool-cases, inl, inr,
}
use sesslint.Session.{SessionEvent, Host}
use sesslint.Finding.{Finding, has_sl203}
use sesslint.Policy.SideEffects.{is_tool, extract_side_effects}
use sesslint.Policy.Gates.{effect_reasons, should_abstain_from_repair}
use sesslint.Repair.Result.{Result, ok, err, invalid_policy, >>=-eq-ok}
use sesslint.Repair.Steps.{PlanStep}
use sesslint.Repair.Planner.Data.{Env, Request, RepairPlan}
use sesslint.Repair.Planner.Plan.{
  Partition, unique_findings, blocked_for, partition, refused_plan, assemble, is_sl203_reason,
  is_policy, hash_of, shared_of, plan_repairs, plan,
}

not-sl203-effect_reasons :
    (host : Host) (i : ℕ) (evs : List SessionEvent)
    → any is_sl203_reason (effect_reasons host i evs) ≡ false
unfolding effect_reasons
not-sl203-effect_reasons host i [] = refl
not-sl203-effect_reasons host i (ev ∷ evs) =
    elim (Bool-cases (is_tool ev && not (extract_side_effects host ev == "none"))) [
      | inl e ↦ rw e (not-sl203-effect_reasons host (suc i) evs)
      | inr e ↦ rw e (not-sl203-effect_reasons host (suc i) evs)
    ]

-- With no SL203 finding, the session-wide gate gives no SL203 reason either.
no_sl203_reason :
    (host : Host) (fs : List Finding) (evs : List SessionEvent) (policy : String)
    (acknowledged : Bool)
    → has_sl203 fs ≡ false
    → any is_sl203_reason
        (should_abstain_from_repair {Step = PlanStep} host fs evs policy acknowledged none).reasons
      ≡ false
unfolding should_abstain_from_repair
no_sl203_reason host fs evs policy acknowledged h =
    ground (arith, not-sl203-effect_reasons host 0 evs)

-- A plan for an unknown policy is refused as an error, whatever the findings.
pub plan_invalid_policy :
    (env : Env) (request : Request) (fs : List Finding) (evs : List SessionEvent)
    → is_policy request.policy ≡ false
    → plan env request fs evs ≡ err (invalid_policy request.policy)
unfolding plan
plan_invalid_policy env request fs evs h = rw h

-- If a finding is SL203 then the plan of either policy has no step, loses nothing, keeps every event,
-- and blocks each unique finding as "SL203-refusal".
pub plan_sl203 :
    (env : Env) (request : Request) (fs : List Finding) (evs : List SessionEvent)
    → is_policy request.policy ≡ true
    → has_sl203 fs ≡ true
    → (p : RepairPlan) × (plan env request fs evs ≡ ok p)
      × (p.steps ≡ [])
      × (p.blocked ≡ map (λ f. blocked_for f "SL203-refusal") (unique_findings fs))
      × (p.loss_accounting.total_lost ≡ 0)
      × (p.loss_accounting.total_kept ≡ length evs)
unfolding plan
plan_sl203 env request fs evs v h = (
  refused_plan env request (hash_of env request evs) (unique_findings fs) (length evs),
  rw (v, h),
  refl,
  refl,
  refl,
  refl,
)

-- The shape of `plan` on its decisions.
plan_cases :
    {A : Type 0} (valid clean : Bool) (refused : A) (repaired : Result A) (policy : String) (p : A)
    → (if valid then (if clean then ok refused else repaired) else err (invalid_policy policy))
      ≡ ok p
    → clean ≡ false
    → (valid ≡ true) × (repaired ≡ ok p)
plan_cases true true refused repaired policy p h e = cc
plan_cases true false refused repaired policy p h e = (refl, h)
plan_cases false clean refused repaired policy p h e = cc

or-false_of : (a b : Bool) → a ≡ false → b ≡ false → (a || b) ≡ false
or-false_of a b h k = ground arith

plan_repairs_parts :
    (env : Env) (request : Request) (fs : List Finding) (evs : List SessionEvent) (p : RepairPlan)
    → plan_repairs env request fs evs ≡ ok p
    → (part : Partition) × (partition env request
          (shared_of env fs evs (hash_of env request evs))
          (unique_findings fs)
        ≡ ok part)
      × (assemble env request (hash_of env request evs) (length evs) part ≡ ok p)
unfolding plan_repairs
plan_repairs_parts env request fs evs p h = >>=-eq-ok _ _ h

-- Without SL203, a plan is assembled from the partition of the unique findings.
pub plan_assembled :
    (env : Env) (request : Request) (fs : List Finding) (evs : List SessionEvent) (p : RepairPlan)
    → has_sl203 fs ≡ false
    → plan env request fs evs ≡ ok p
    → (is_policy request.policy ≡ true)
      × (part : Partition) × (partition env request
            (shared_of env fs evs (hash_of env request evs))
            (unique_findings fs)
          ≡ ok part)
      × (assemble env request (hash_of env request evs) (length evs) part ≡ ok p)
unfolding plan
plan_assembled env request fs evs p clean h =
    let (valid, made) = plan_cases (is_policy request.policy) _ _ _ _ p h (
      or-false_of _ _ clean
        (no_sl203_reason env.host fs evs request.policy request.acknowledged clean)) in
    let (part, parted, assembled) = plan_repairs_parts env request fs evs p made in
    (valid, part, parted, assembled)
