-- ===== src/Repair/Planner/Order.antt =====
-- The order of the steps of a plan.
use sesslint.Prelude.{
  ℕ, zero, suc, ◌≡◌, String, ◌==◌, Bool, true, false, ◌⊎◌, ◌≢◌, ◌<◌, ◌&&◌, ◌∙◌, refl, sym, ap,
  Option, none, some, ◌++◌, any, if◌then◌else◌, mem_text, ltb, eqb, eqb_iff, List, [], ◌∷◌, length,
  arith, take, Bool-cases, inl, inr, eq_iff, eq_refl, ◌≤◌, length-take-le,
}
use sesslint.Prelude.Sort.{sort, Ordered, IsSorted, sort-IsSorted}
use sesslint.Prelude.Text.{le_text, le_text-total}
use sesslint.Session.{SessionEvent}
use sesslint.Finding.{Finding, has_sl203}
use sesslint.Repair.Result.{ok}
use sesslint.Repair.Planner.Data.{
  Candidate, Env, Request, RepairPlan, max_steps, event_drop_recipes,
}
use sesslint.Repair.Steps.{PlanStep}
use mathlib.Core.List.{append-nil}
use sesslint.Repair.Planner.Plan.{
  target_or_zero, is_canonical, renumber_step, le_candidate, number_from, with_renumber,
  ordered_candidates, built_steps, hash_of, plan, text_then,
}
use sesslint.Repair.Planner.Refusal.{plan_assembled}
use sesslint.Repair.Planner.Steps.{assemble-IsAssembled}

abbrev index_or_zero : Option ℕ → ℕ
index_or_zero none = 0
index_or_zero (some i) = i

text_then-total :
    (a b : String) (x y : Bool)
    → (x ≡ true) ⊎ (y ≡ true)
    → (text_then a b x ≡ true) ⊎ (text_then b a y ≡ true)
text_then-total a b x y h = elim (Bool-cases (a == b)) [
  | inl e ↦ let same = (eq_iff a b).0 e in rw (same, eq_refl b) h
  | inr e ↦ elim (Bool-cases (b == a)) [
    | inl d ↦ let same : b ≡ a = (eq_iff b a).0 d in let self = eq_refl a in cc
    | inr d ↦ rw (e, d) (le_text-total a b)
  ]
]

le_candidate-total : (a b : Candidate) → (le_candidate a b ≡ true) ⊎ (le_candidate b a ≡ true)
unfolding le_candidate
le_candidate-total a b =
    let texts = text_then-total a.recipe b.recipe _ _ (le_text-total a.finding_fp b.finding_fp) in
    ground (arith, texts)

take-IsSorted :
    {A : Type 0} (le : A → A → Bool) (n : ℕ) (xs : List A)
    → IsSorted le xs
    → IsSorted le (take n xs)
take-IsSorted le zero xs h = tt
take-IsSorted le (suc n) [] h = tt
take-IsSorted le (suc zero) (x ∷ xs) h = tt
take-IsSorted le (suc (suc n)) (x ∷ []) h = tt
take-IsSorted le (suc (suc n)) (x ∷ y ∷ xs) h = (h.0, take-IsSorted le (suc n) (y ∷ xs) h.1)

-- A step may stand before another: by the target (no target counts as 0), by the recipe's name, by the
-- fingerprint of the finding.
pub data MayPrecede (a b : PlanStep) : Type 0 where
  by_target : index_or_zero a.target_index < index_or_zero b.target_index → MayPrecede a b
  by_recipe :
      index_or_zero a.target_index ≡ index_or_zero b.target_index
      → a.recipe ≢ b.recipe
      → le_text a.recipe b.recipe ≡ true
      → MayPrecede a b
  by_finding :
      index_or_zero a.target_index ≡ index_or_zero b.target_index
      → a.recipe ≡ b.recipe
      → le_text a.target_finding_fp b.target_finding_fp ≡ true
      → MayPrecede a b

step_of : ℕ → Candidate → PlanStep
step_of n c = record {
  seq = n;
  recipe = c.recipe;
  target_finding_fp = c.finding_fp;
  target_index = c.target_index;
  params = c.params;
  lossy = c.lossy;
  loss = c.loss;
  min_policy = c.min_policy;
  recipe_version = c.version;
}

le_candidate-MayPrecede :
    (m n : ℕ) (a b : Candidate) → le_candidate a b ≡ true → MayPrecede (step_of m a) (step_of n b)
unfolding le_candidate step_of
le_candidate-MayPrecede m n a b h = elim (Bool-cases (eqb (target_or_zero a) (target_or_zero b))) [
  | inl e ↦
      let same = (eqb_iff (target_or_zero a) (target_or_zero b)).0 e in
      elim (Bool-cases (a.recipe == b.recipe)) [
        | inl f ↦ MayPrecede.by_finding same ((eq_iff a.recipe b.recipe).0 f) (rw (e, f) at h)
        | inr f ↦
            let named : le_text a.recipe b.recipe ≡ true = rw (e, f) at h in
            MayPrecede.by_recipe same (λ k. cc ((eq_iff a.recipe b.recipe).1 k)) named
      ]
  | inr e ↦
      let lower : ltb (target_or_zero a) (target_or_zero b) ≡ true = rw e at h in
      MayPrecede.by_target (ground arith)
]

number_from-Ordered :
    (n : ℕ) (cs : List Candidate) → IsSorted le_candidate cs → Ordered MayPrecede (number_from n cs)
unfolding number_from
number_from-Ordered n [] h = tt
number_from-Ordered n (c ∷ []) h = tt
number_from-Ordered n (c ∷ d ∷ cs) h = (
  unfold step_of in le_candidate-MayPrecede n (suc n) c d h.0,
  number_from-Ordered (suc n) (d ∷ cs) h.1,
)

length-number_from : (n : ℕ) (cs : List Candidate) → length (number_from n cs) ≡ length cs
unfolding number_from
length-number_from n [] = refl
length-number_from n (c ∷ cs) = ap suc (length-number_from (suc n) cs)

-- Behind the steps stands nothing, or one renumbering.
abbrev pub IsTail : List PlanStep → Type 0
IsTail tail = (tail ≡ []) ⊎ ((s : PlanStep) × (tail ≡ s ∷ []) × (s.recipe ≡ "seq-renumber"))

with_renumber-IsTail :
    (format : Option String) (steps : List PlanStep)
    → (tail : List PlanStep) × (with_renumber format steps ≡ steps ++ tail) × IsTail tail
unfolding with_renumber renumber_step
with_renumber-IsTail format steps =
    by_test (is_canonical format && any (λ s. mem_text s.recipe event_drop_recipes) steps)
  where
    by_test :
        (b : Bool)
        → (tail : List PlanStep) × ((if b
              then steps ++ renumber_step (length steps) ∷ []
              else steps)
            ≡ steps ++ tail)
          × IsTail tail
    by_test true =
        (renumber_step (length steps) ∷ [], refl, inr (renumber_step (length steps), refl, refl))
    by_test false = ([], sym (append-nil steps), inl refl)

-- The steps of a plan without SL203 are at most 256, in the order of their targets (where none counts as
-- 0), then of their recipes' names, then of their findings' fingerprints, and behind them at most one
-- step more, which renumbers.
pub plan-IsSorted :
    (env : Env) (request : Request) (fs : List Finding) (evs : List SessionEvent) (p : RepairPlan)
    → has_sl203 fs ≡ false
    → plan env request fs evs ≡ ok p
    → (steps : List PlanStep) × (tail : List PlanStep) × (p.steps ≡ steps ++ tail)
      × Ordered MayPrecede steps
      × (length steps ≤ 256)
      × IsTail tail
unfolding built_steps ordered_candidates
plan-IsSorted env request fs evs p clean h =
    let (_, part, _, made) = plan_assembled env request fs evs p clean h in
    let a = assemble-IsAssembled env request (hash_of env request evs) (length evs) part p made in
    let cs = sort le_candidate part.candidates in
    let steps = number_from 0 (take max_steps cs) in
    let (tail, joined, last) = with_renumber-IsTail request.input_format steps in
    (
      steps,
      tail,
      a.steps ∙ joined,
      number_from-Ordered 0 (take max_steps cs) (
          take-IsSorted le_candidate max_steps cs
            (sort-IsSorted le_candidate le_candidate-total part.candidates)),
      omega (arith, length-number_from 0 (take max_steps cs), length-take-le max_steps cs),
      last,
    )
