-- ===== src/Repair/Planner/Guard.antt =====
-- The guard of a conservative plan, and what it means for the accounting.
use sesslint.Prelude.{
  ℕ, ◌≡◌, refl, String, Bool, true, false, ◌||◌, List, [], ◌∷◌, any, length, arith, Bool-cases, inl,
  inr, ltb, or-false, All,
}
use mathlib.Core.Path.{subst}
use sesslint.Session.{SessionEvent}
use sesslint.Finding.{Finding, has_sl203}
use sesslint.Repair.Result.{ok, err, >>=-eq-ok}
use sesslint.Repair.Steps.{PlanStep}
use sesslint.Repair.Planner.Data.{Env, Request, RepairPlan}
use sesslint.Repair.Planner.Plan.{
  LossMap, sum_where, total_where, is_event_class, account, is_policy, hash_of, guard_conservative,
  is_lossy, plan,
}
use sesslint.Repair.Planner.Refusal.{plan_sl203, plan_assembled}
use sesslint.Repair.Planner.Steps.{assemble-IsAssembled}

guard_conservative-All :
    (ss checked : List PlanStep)
    → guard_conservative ss ≡ ok checked
    → All (λ s. is_lossy s ≡ false) ss
unfolding guard_conservative
guard_conservative-All [] checked h = tt
guard_conservative-All (s ∷ ss) checked h = elim (Bool-cases (is_lossy s)) [
  | inl e ↦ absurd (no_error (rw e at h))
  | inr e ↦
      let (rest, passed, _) = >>=-eq-ok (guard_conservative ss) _ (rw e at h) in
      (e, guard_conservative-All ss rest passed)
]
  where
    no_error : {e : _} → ¬ (err e ≡ ok checked)
    no_error e = cc

sum_where-zero :
    (counts : String → Bool) (m : LossMap)
    → any (λ (k, v). ltb 0 v) m ≡ false
    → sum_where counts m ≡ 0
unfolding sum_where
sum_where-zero counts [] h = refl
sum_where-zero counts ((k, v) ∷ m) h =
    let (low, rest) = or-false (ltb 0 v) _ h in ground (arith, sum_where-zero counts m rest)

no_loss : (s : PlanStep) → is_lossy s ≡ false → any (λ (k, v). ltb 0 v) s.loss ≡ false
no_loss s h = (or-false s.lossy _ (or-false (s.lossy || any (λ (k, v). ltb 0 v) s.loss) _ h).0).1

total_where-zero :
    (counts : String → Bool) (ss : List PlanStep)
    → All (λ s. is_lossy s ≡ false) ss
    → total_where counts ss ≡ 0
unfolding total_where
total_where-zero counts [] h = refl
total_where-zero counts (s ∷ ss) h =
    omega (arith, sum_where-zero counts s.loss (no_loss s h.0), total_where-zero counts ss h.1)

account-lossless :
    (ss : List PlanStep) (events : ℕ)
    → All (λ s. is_lossy s ≡ false) ss
    → ((account ss events).total_lost ≡ 0) × ((account ss events).total_kept ≡ events)
unfolding account
account-lossless ss events h =
    (total_where-zero (λ k. true) ss h, omega (arith, total_where-zero is_event_class ss h))

pub is_policy_conservative : (policy : String) → policy ≡ "conservative" → is_policy policy ≡ true
is_policy_conservative policy e = rw e refl

-- A conservative plan, when there is one, has no step that is lossy, has a positive loss or needs the salvage
-- policy. Its accounting records no loss: `total_lost` is 0, and `total_kept` is the number of the session's
-- events, also where a step that declares no loss drops a duplicate.
pub plan_conservative_lossless :
    (env : Env) (request : Request) (fs : List Finding) (evs : List SessionEvent) (p : RepairPlan)
    → request.policy ≡ "conservative"
    → plan env request fs evs ≡ ok p
    → All (λ s. is_lossy s ≡ false) p.steps
      × (p.loss_accounting.total_lost ≡ 0)
      × (p.loss_accounting.total_kept ≡ length evs)
plan_conservative_lossless env request fs evs p cons h = elim (Bool-cases (has_sl203 fs)) [
  | inl e ↦
      let (q, made, empty, _, lost, kept) =
        plan_sl203 env request fs evs (is_policy_conservative request.policy cons) e in
      let same : q ≡ p = cc in
      subst
        (λ r.
          All (λ s. is_lossy s ≡ false) r.steps
          × (r.loss_accounting.total_lost ≡ 0)
          × (r.loss_accounting.total_kept ≡ length evs))
        same (rw empty tt, lost, kept)
  | inr e ↦
      let (_, part, _, made) = plan_assembled env request fs evs p e h in
      let a = assemble-IsAssembled env request (hash_of env request evs) (length evs) part p made in
      let fine = guard_conservative-All p.steps p.steps (a.guarded cons) in
      rw (a.accounted) (
        fine,
        (account-lossless p.steps (length evs) fine).0,
        (account-lossless p.steps (length evs) fine).1,
      )
]
