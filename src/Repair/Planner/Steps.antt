-- ===== src/Repair/Planner/Steps.antt =====
-- The steps of a plan: what `assemble` makes of a partition, their numbers and their order.
use sesslint.Prelude.{
  ℕ, suc, ◌+◌, ◌≤◌, ◌≡◌, refl, sym, eq_iff, ap, String, ◌==◌, false, ◌&&◌, Option, none, some, ◌⊎◌,
  List, [], ◌∷◌, ◌++◌, ◌⊎◌, any, map, length, arith, take, drop, Bool-cases, inl, inr, mem_text,
  length-append, length-take-le,
}
use sesslint.Prelude.Sort.{sort}
use mathlib.Core.Path.{subst}
use sesslint.Session.{SessionEvent}
use sesslint.Finding.{Finding, has_sl203}
use sesslint.Repair.Result.{ok, err, >>=-eq-ok}
use sesslint.Repair.Steps.{PlanStep}
use sesslint.Repair.Planner.Data.{
  Candidate, Env, Request, RepairPlan, max_steps, event_drop_recipes,
}
use sesslint.Repair.Planner.Plan.{
  Partition, built_steps, check_steps, finished, ordered_candidates, assemble, number_from,
  with_renumber, renumber_step, guard_conservative, account, le_blocked, overflow, plan, hash_of,
  is_lossy,
}
use sesslint.Repair.Planner.Refusal.{plan_assembled}

-- The guard returns its steps or an error.
pub guard_conservative-same :
    (ss : List PlanStep) (checked : List PlanStep)
    → guard_conservative ss ≡ ok checked
    → ss ≡ checked
unfolding guard_conservative
guard_conservative-same [] checked h = cc
guard_conservative-same (s ∷ ss) checked h = elim (Bool-cases (is_lossy s)) [
  | inl e ↦ absurd (no_error (rw e at h))
  | inr e ↦
      let (rest, passed, made) = >>=-eq-ok (guard_conservative ss) _ (rw e at h) in
      let same = guard_conservative-same ss rest passed in cc
]
  where
    no_error : {e : _} → ¬ (err e ≡ ok checked)
    no_error e = cc

-- What `assemble` yields when it does.
pub record IsAssembled (env : Env) (request : Request) (hash : String) (events : ℕ)
    (part : Partition) (p : RepairPlan) : Type 0 where
  pub steps : p.steps ≡ built_steps request.input_format part
  pub blocked :
      p.blocked
      ≡ sort le_blocked (part.blocked ++ map overflow (drop max_steps (ordered_candidates part)))
  pub accounted : p.loss_accounting ≡ account p.steps events
  pub guarded : request.policy ≡ "conservative" → guard_conservative p.steps ≡ ok p.steps
  pub fingerprint : p.fingerprint ≡ env.plan_digest p.body

check_steps-ok :
    (policy : String) (ss checked : List PlanStep)
    → check_steps policy ss ≡ ok checked
    → (ss ≡ checked) × (policy ≡ "conservative" → guard_conservative checked ≡ ok checked)
unfolding check_steps
check_steps-ok policy ss checked h = elim (Bool-cases (policy == "conservative")) [
  | inl e ↦
      let guarded : guard_conservative ss ≡ ok checked = rw e at h in
      let same = guard_conservative-same ss checked guarded in (same, λ _. cc)
  | inr e ↦
      let same : ok ss ≡ ok checked = rw e at h in
      (cc, λ q. let t = (eq_iff policy "conservative").1 q in cc)
]

pub assemble-IsAssembled :
    (env : Env) (request : Request) (hash : String) (events : ℕ) (part : Partition) (p : RepairPlan)
    → assemble env request hash events part ≡ ok p
    → IsAssembled env request hash events part p
unfolding assemble finished
assemble-IsAssembled env request hash events part p h =
    let (checked, made, rest) =
      >>=-eq-ok (check_steps request.policy (built_steps request.input_format part)) _ h in
    let (same, guard) =
      check_steps-ok request.policy (built_steps request.input_format part) checked made in
    let is : finished env request hash events part checked ≡ p = cc in
    subst (λ q. IsAssembled env request hash events part q) is (from_finished checked same guard)
  where
    from_finished :
        (checked : List PlanStep)
        → built_steps request.input_format part ≡ checked
        → (request.policy ≡ "conservative" → guard_conservative checked ≡ ok checked)
        → IsAssembled env request hash events part (finished env request hash events part checked)
    from_finished checked same guard = record {
      steps = sym same;
      blocked = refl;
      accounted = refl;
      guarded = guard;
      fingerprint = refl;
    }

-- The steps carry the numbers n, n + 1, ….
abbrev pub IsNumbered : ℕ → List PlanStep → Type 0
IsNumbered n [] = Unit
IsNumbered n (s ∷ ss) = (s.seq ≡ n) × IsNumbered (suc n) ss

number_from-IsNumbered : (n : ℕ) (cs : List Candidate) → IsNumbered n (number_from n cs)
unfolding number_from
number_from-IsNumbered n [] = tt
number_from-IsNumbered n (c ∷ cs) = (refl, number_from-IsNumbered (suc n) cs)

IsNumbered-append :
    (n : ℕ) (ss : List PlanStep) (k : ℕ)
    → IsNumbered n ss
    → k ≡ n + length ss
    → IsNumbered n (ss ++ renumber_step k ∷ [])
unfolding renumber_step
IsNumbered-append n [] k h e = (omega arith, tt)
IsNumbered-append n (s ∷ ss) k h e = (h.0, IsNumbered-append (suc n) ss k h.1 (omega arith))

length-number_from : (n : ℕ) (cs : List Candidate) → length (number_from n cs) ≡ length cs
unfolding number_from
length-number_from n [] = refl
length-number_from n (c ∷ cs) = ap suc (length-number_from (suc n) cs)

-- The renumbering step is added at the end, or nothing is.
pub with_renumber_cases :
    (format : Option String) (ss : List PlanStep)
    → (with_renumber format ss ≡ ss)
      ⊎ (with_renumber format ss ≡ ss ++ renumber_step (length ss) ∷ [])
unfolding with_renumber
with_renumber_cases none ss = inl refl
with_renumber_cases (some f) ss =
    elim (Bool-cases (f == "canonical" && any (λ s. mem_text s.recipe event_drop_recipes) ss)) [
      | inl e ↦ inr (rw e refl)
      | inr e ↦ inl (rw e refl)
    ]

built_steps_numbers :
    (format : Option String) (part : Partition)
    → IsNumbered 0 (built_steps format part) × (length (built_steps format part) ≤ suc max_steps)
unfolding built_steps
built_steps_numbers format part = elim (with_renumber_cases format ss) [
  | inl e ↦ rw e (numbered, omega (arith, bound))
  | inr e ↦ rw e (
    IsNumbered-append 0 ss (length ss) numbered (omega arith),
    omega (arith, bound, length-append ss (renumber_step (length ss) ∷ [])),
  )
]
  where
    cs : List Candidate
    cs = take max_steps (ordered_candidates part)

    ss : List PlanStep
    ss = number_from 0 cs

    numbered : IsNumbered 0 ss
    numbered = number_from-IsNumbered 0 cs

    bound : length ss ≤ max_steps
    bound =
        omega (arith, length-number_from 0 cs, length-take-le max_steps (ordered_candidates part))

-- The steps of a plan without SL203 are numbered 0, 1, 2, … in order, and there are at most 257.
pub plan-IsNumbered :
    (env : Env) (request : Request) (fs : List Finding) (evs : List SessionEvent) (p : RepairPlan)
    → has_sl203 fs ≡ false
    → plan env request fs evs ≡ ok p
    → IsNumbered 0 p.steps × (length p.steps ≤ 257)
plan-IsNumbered env request fs evs p clean h =
    let (_, part, _, made) = plan_assembled env request fs evs p clean h in
    let a = assemble-IsAssembled env request (hash_of env request evs) (length evs) part p made in
    rw (a.steps) (built_steps_numbers request.input_format part)
