-- ===== src/Repair/Planner/Scoped.antt =====
-- Where the steps of a conservative plan come from, and which events they can reach.
use sesslint.Prelude.{
  ℕ, suc, ◌≡◌, refl, sym, String, Bool, true, false, ◌||◌, Option, none, some, List, [], ◌∷◌,
  length, take, Bool-cases, inl, inr, get_elem?, All, All-append, All-take, keep, if◌then◌else◌,
}
use sesslint.Prelude.Sort.{All-sort}
use mathlib.Core.Path.{subst}
use mathlib.Core.List.{Mem, Mem-prop, eq-or-mem_of_mem-cons, mem-cons_of_mem, mem-cons_self}
use mathlib.Core.Logic.Or
use sesslint.Session.{SessionEvent, Host}
use sesslint.Finding.{Finding, has_sl203}
use sesslint.Policy.SideEffects.{is_call, is_result}
use sesslint.Policy.Ambiguity.Find.{find_ambiguous_events}
use sesslint.Policy.Ambiguity.Settled.{IsSettled}
use sesslint.Policy.Ambiguity.Covers.{unambiguous-IsSettled, calls_of, results_of}
use sesslint.Policy.Scope.{AffectedRegion, check_step_scope}
use sesslint.Policy.Scope.Disjoint.{Reaches, check_region-IsDisjoint, check_step_scope_passed}
use sesslint.Policy.Gates.{must_abstain}
use sesslint.Repair.Result.{ok, >>=-eq-ok}
use sesslint.Repair.Steps.{PlanStep, Recipe, RegionFn, recipes_for}
use sesslint.Repair.Planner.Data.{Candidate, Env, Request, RepairPlan, max_steps}
use sesslint.Repair.Planner.Classify.{
  Shared, Outcome, block, propose, classify, side_effect_gate, temp_step,
}
use sesslint.Repair.Planner.Plan.{
  Partition, unique_findings, partition, add_outcome, ordered_candidates, built_steps, number_from,
  renumber_step, hash_of, shared_of, plan, le_candidate,
}
use sesslint.Repair.Planner.Outcomes.{IsProposed, classify-IsProposed}
use sesslint.Repair.Planner.Refusal.{plan_sl203, plan_assembled}
use sesslint.Repair.Planner.Guard.{is_policy_conservative}
use sesslint.Repair.Planner.Steps.{assemble-IsAssembled, with_renumber_cases}

-- The step as the scope check saw it, before it had a number.
abbrev pub unnumbered : PlanStep → PlanStep
unnumbered s = record s { seq = 0 }

-- A region reaches settled tool events alone: the call and the results of the event's correlation id
-- pair up, with known side effects and a known execution.
abbrev pub ReachesSettled : Host → List SessionEvent → AffectedRegion → Type 0
ReachesSettled host evs region =
    (j : ℕ) (ev : SessionEvent)
    → get_elem? evs j ≡ some ev
    → Reaches region evs j ev
    → (is_call ev || is_result ev) ≡ true
    → (corr : String) × (ev.correlation_id ≡ some corr)
      × IsSettled host (calls_of host corr evs) (results_of host corr evs)

-- A step that a conservative plan may take: the renumbering, a step within a region that is proven
-- to reach settled tool events alone, or a step of a recipe without a region in a session without
-- unknown side effects.
pub data IsSafe (env : Env) (fs : List Finding) (evs : List SessionEvent) (s : PlanStep)
    : Type 0 where
  renumbers : (n : ℕ) → s ≡ renumber_step n → IsSafe env fs evs s
  scoped :
      (f : RegionFn) (region : AffectedRegion) (r : Recipe)
      → Mem r env.registry
      → s.recipe ≡ r.name
      → r.affected_region ≡ some f
      → f (unnumbered s) evs ≡ some region
      → region.unproven ≡ false
      → ReachesSettled env.host evs region
      → IsSafe env fs evs s
  ungated :
      (r : Recipe)
      → Mem r env.registry
      → s.recipe ≡ r.name
      → r.affected_region ≡ none
      → (must_abstain env.host (unique_findings fs) evs false).abstain ≡ false
      → IsSafe env fs evs s

pub scope_check-ReachesSettled :
    (host : Host) (step : PlanStep) (evs : List SessionEvent) (f : RegionFn) (fs us : List Finding)
    (excludes : Bool)
    → (check_step_scope host step evs
        (some f)
        fs
        excludes
        (some (find_ambiguous_events host evs us))).0
      ≡ true
    → (region : AffectedRegion) × (f step evs ≡ some region)
      × (region.unproven ≡ false)
      × ReachesSettled host evs region
scope_check-ReachesSettled host step evs f fs us excludes h =
    let (g, region, same, answered, sure, _, passed) =
      check_step_scope_passed host step evs (some f) fs excludes
        (some (find_ambiguous_events host evs us)) h in
    let own : f ≡ g = cc in
    (
      region,
      rw own answered,
      sure,
      λ j ev at reached tool.
          unambiguous-IsSettled host evs us j ev at tool
            (check_region-IsDisjoint host evs region excludes (find_ambiguous_events host evs us) j
              ev passed at reached).0,
    )

-- What an open gate has checked.
gate_open : (b : Bool) (reason : String) → (if b then none else some reason) ≡ none → b ≡ true
gate_open true reason h = refl
gate_open false reason h = cc

gate_shut : (b : Bool) (reason : String) → (if b then some reason else none) ≡ none → b ≡ false
gate_shut true reason h = cc
gate_shut false reason h = refl

keep-subset {ℓ} : {A : Type ℓ} (p : A → Bool) (xs : List A) (y : A) → Mem y (keep p xs) → Mem y xs
keep-subset p [] y m = m
keep-subset p (x ∷ xs) y m = elim (Bool-cases (p x)) [
  | inl e ↦
      Or.elim Mem-prop (eq-or-mem_of_mem-cons (rw e at m))
        (λ same. subst (λ z. Mem z (x ∷ xs)) (sym same) mem-cons_self)
        (λ later. mem-cons_of_mem x (keep-subset p xs y later))
  | inr e ↦ mem-cons_of_mem x (keep-subset p xs y (rw e at m))
]

recipes_for-subset :
    (registry : List Recipe) (code : String) (r : Recipe)
    → Mem r (recipes_for registry code)
    → Mem r registry
unfolding recipes_for
recipes_for-subset registry code r m = keep-subset _ registry r m

module _ (env : Env) (request : Request) (fs : List Finding) (evs : List SessionEvent) where
  abbrev shared : Shared
  shared = shared_of env fs evs (hash_of env request evs)

  -- The step that a candidate becomes, whatever its number.
  abbrev numbered : ℕ → Candidate → PlanStep
  numbered n c = record {
    seq = n;
    recipe = c.recipe;
    target_finding_fp = c.finding_fp;
    target_index = c.target_index;
    params = c.params;
    lossy = c.lossy;
    loss = c.loss;
    min_policy = c.min_policy;
    recipe_version = c.version;
  }

  candidate-IsSafe :
      (n : ℕ) (c : Candidate) (r : Recipe)
      → Mem r env.registry
      → c.recipe ≡ r.name
      → side_effect_gate env shared r c ≡ none
      → IsSafe env fs evs (numbered n c)
  unfolding side_effect_gate temp_step
  candidate-IsSafe n c r listed named h = by_region r.affected_region refl h
    where
      by_region :
          (region_fn : Option RegionFn)
          → r.affected_region ≡ region_fn
          → side_effect_gate env shared (record r { affected_region = region_fn }) c ≡ none
          → IsSafe env fs evs (numbered n c)
      by_region none e h = ungated r listed named e (gate_shut _ _ h)
      by_region (some f) e h =
          let (region, answered, sure, settled) =
            scope_check-ReachesSettled env.host (temp_step c) evs f fs (unique_findings fs)
              r.excludes_execution_dependence (gate_open _ _ h) in
          scoped f region r listed named e answered sure settled

  abbrev IsSource : Candidate → Type 0
  IsSource c = (f : Finding) × IsProposed env request shared f c

  partition-All :
      (us : List Finding) (part : Partition)
      → partition env request shared us ≡ ok part
      → All IsSource part.candidates
  unfolding partition
  partition-All [] part h =
      let same : record { candidates = []; blocked = [] } ≡ part = cc in
      subst (λ q. All IsSource q.candidates) same tt
  partition-All (f ∷ us) part h =
      let (o, found, h1) = >>=-eq-ok (classify env request shared f) _ h in
      let (rest, parted, made) = >>=-eq-ok (partition env request shared us) _ h1 in
      let same : add_outcome f o rest ≡ part = cc in
      subst (λ q. All IsSource q.candidates) same (add o rest found (partition-All us rest parted))
    where
      add :
          (o : Outcome) (rest : Partition)
          → classify env request shared f ≡ ok o
          → All IsSource rest.candidates
          → All IsSource (add_outcome f o rest).candidates
      add (block reason) rest found hs = hs
      add (propose c) rest found hs = ((f, classify-IsProposed env request shared f c found), hs)

  module _ (cons : request.policy ≡ "conservative") where
    number_from-IsSafe :
        (n : ℕ) (cs : List Candidate) → All IsSource cs → All (IsSafe env fs evs) (number_from n cs)
    unfolding number_from
    number_from-IsSafe n [] h = tt
    number_from-IsSafe n (c ∷ cs) ((f, p), h) = (
      candidate-IsSafe n c p.recipe (recipes_for-subset env.registry f.code p.recipe p.registered)
          p.named (p.passed cons),
      number_from-IsSafe (suc n) cs h,
    )

    built_steps-IsSafe :
        (part : Partition)
        → All IsSource part.candidates
        → All (IsSafe env fs evs) (built_steps request.input_format part)
    unfolding built_steps ordered_candidates
    built_steps-IsSafe part h =
        let ss = number_from 0 (take max_steps (ordered_candidates part)) in
        let safe : All (IsSafe env fs evs) ss = number_from-IsSafe 0 _ (
          All-take IsSource max_steps (ordered_candidates part)
            (All-sort le_candidate IsSource part.candidates h)) in
        elim (with_renumber_cases request.input_format ss) [
          | inl e ↦ rw e safe
          | inr e ↦ rw e (
              All-append (IsSafe env fs evs) ss (renumber_step (length ss) ∷ []) safe
                (renumbers (length ss) refl, tt))
        ]

-- Each step of a conservative plan is the renumbering, or is a step of a registered recipe whose region, as its
-- function computes it for that step, reaches settled tool events alone, or is a step of a registered recipe
-- without a region function in a session where the unique findings and the events give no reason to abstain.
pub plan_conservative-IsSafe :
    (env : Env) (request : Request) (fs : List Finding) (evs : List SessionEvent) (p : RepairPlan)
    → request.policy ≡ "conservative"
    → plan env request fs evs ≡ ok p
    → All (IsSafe env fs evs) p.steps
plan_conservative-IsSafe env request fs evs p cons h = elim (Bool-cases (has_sl203 fs)) [
  | inl e ↦
      let (q, made, empty, _, _, _) =
        plan_sl203 env request fs evs (is_policy_conservative request.policy cons) e in
      let same : q ≡ p = cc in subst (λ r. All (IsSafe env fs evs) r.steps) same (rw empty tt)
  | inr e ↦
      let (_, part, parted, made) = plan_assembled env request fs evs p e h in
      let a = assemble-IsAssembled env request (hash_of env request evs) (length evs) part p made in
      rw (a.steps) (
        built_steps-IsSafe env request fs evs cons part
          (partition-All env request fs evs (unique_findings fs) part parted))
]
