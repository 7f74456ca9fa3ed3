-- ===== src/Repair/Planner/Outcomes.antt =====
-- The anatomy of a plan: what is known when `plan` succeeds, and what `classify` proposes.
use sesslint.Prelude.{
  ℕ, ◌≡◌, refl, String, ◌==◌, Bool, true, false, Option, none, some, List, [], ◌∷◌, length,
  if◌then◌else◌, arith, Bool-cases, ℤ, pos, negsuc, in_range, eq_iff, ◌⊎◌, inl, inr, ltb, ◌<◌, ap,
  ◌∙◌,
}
use mathlib.Core.Path.{subst}
use mathlib.Core.List.{Mem, mem-cons_self, mem-cons_of_mem}
use sesslint.Finding.{Finding, repairability_value}
use sesslint.Repair.Result.{Result, ok, err, ◌>>=◌, >>=-eq-ok}
use sesslint.Repair.Steps.{
  Predicates, PreconditionContext, Recipe, recipes_for, check_preconditions,
}
use sesslint.Repair.Planner.Data.{Candidate, Env, Request}
use sesslint.Repair.Planner.Classify.{
  too_large, gated, gate_candidate, on_match, context, classify_resolved, refuse_or, in_session,
  Shared, Outcome, block, propose, Match, take_match, matched, unmatched, candidate,
  side_effect_gate, propose_step, match_recipe, early_refusal, classify_target, classify,
}
use sesslint.Repair.Planner.Targets.{resolve_target_index}
use sesslint.Repair.Planner.Params.{step_loss, step_params}

-- A candidate stems from a registered recipe for the finding's code whose preconditions pass: its
-- fields are that recipe's, and under the conservative policy the side-effect gate lets it through.
pub record IsProposed (env : Env) (request : Request) (shared : Shared) (f : Finding)
    (c : Candidate) : Type 0 where
  pub recipe : Recipe
  pub registered : Mem recipe (recipes_for env.registry f.code)
  pub checked :
      (check_preconditions env.predicates recipe.preconditions (context request shared f))
      ≡ ok (true, none)
  pub named : c.recipe ≡ recipe.name
  pub about : c.finding_fp ≡ f.fingerprint
  pub code : c.code ≡ f.code
  pub lossy : c.lossy ≡ recipe.lossy
  pub min_policy : c.min_policy ≡ recipe.min_policy
  pub version : c.version ≡ recipe.version
  pub params : c.params ≡ step_params recipe f
  pub loss : step_loss recipe shared.events c.target_index c.params ≡ ok c.loss
  pub target :
      ((resolve_target_index env.host f shared.events ≡ none) × (c.target_index ≡ none))
      ⊎ ((i : ℕ) × (resolve_target_index env.host f shared.events ≡ some (pos i))
          × (c.target_index ≡ some i)
          × (i < length shared.events))
  pub passed : request.policy ≡ "conservative" → side_effect_gate env shared recipe c ≡ none

check_preconditions-none :
    (table : Predicates) (names : List String) (ctx : PreconditionContext) (failed : Option String)
    → check_preconditions table names ctx ≡ ok (true, failed)
    → check_preconditions table names ctx ≡ ok (true, none)
unfolding check_preconditions
check_preconditions-none table [] ctx failed h = refl
check_preconditions-none table (n ∷ ns) ctx failed h =
    ground (arith, check_preconditions-none table ns ctx failed)

match_recipe-matched :
    (table : Predicates) (rs : List Recipe) (ctx : PreconditionContext) (last : Option String)
    (r : Recipe)
    → match_recipe table rs ctx last ≡ ok (matched r)
    → Mem r rs × (check_preconditions table r.preconditions ctx ≡ ok (true, none))
unfolding match_recipe
match_recipe-matched table [] ctx last r h = cc
match_recipe-matched table (x ∷ rs) ctx last r h =
    after_check (λ l. match_recipe-matched table rs ctx l r)
      (check_preconditions table x.preconditions ctx) refl h
  where
    Found : List Recipe → Type 0
    Found l = Mem r l × (check_preconditions table r.preconditions ctx ≡ ok (true, none))

    after_check :
        ((l : Option String) → match_recipe table rs ctx l ≡ ok (matched r) → Found rs)
        → (m : Result (Bool × Option String)) → check_preconditions table x.preconditions ctx ≡ m
        → take_match x m (λ l. match_recipe table rs ctx l) ≡ ok (matched r)
        → Found (x ∷ rs)
    after_check rec (err e) c h = cc
    after_check rec (ok (true, failed)) c h =
        let same : x ≡ r = cc in
        subst
          (λ q. Mem q (x ∷ rs) × (check_preconditions table q.preconditions ctx ≡ ok (true, none)))
          same (mem-cons_self, check_preconditions-none table x.preconditions ctx failed c)
    after_check rec (ok (false, failed)) c h =
        let (m, passed) = rec failed h in (mem-cons_of_mem x m, passed)

gated_cases :
    (b : Bool) (c d : Candidate) (o : Option String)
    → (if b then gated c o else propose c) ≡ propose d
    → (c ≡ d) × (b ≡ true → o ≡ none)
gated_cases true c d none h = (cc, λ _. refl)
gated_cases true c d (some s) h = cc
gated_cases false c d o h = (cc, λ e. cc)

gate_candidate-propose :
    (env : Env) (request : Request) (shared : Shared) (recipe : Recipe) (c d : Candidate)
    → gate_candidate env request shared recipe c ≡ propose d
    → (c ≡ d) × (request.policy ≡ "conservative" → side_effect_gate env shared recipe c ≡ none)
unfolding gate_candidate
gate_candidate-propose env request shared recipe c d h =
    let (same, passed) = gated_cases (request.policy == "conservative") c d _ h in
    (same, λ e. passed ((eq_iff request.policy "conservative").1 e))

module _ (env : Env) (request : Request) (shared : Shared) (f : Finding) where
  -- The target that the finding resolves to.
  abbrev IsTarget : Option ℕ → Type 0
  IsTarget target =
      ((resolve_target_index env.host f shared.events ≡ none) × (target ≡ none))
      ⊎ ((i : ℕ) × (resolve_target_index env.host f shared.events ≡ some (pos i))
          × (target ≡ some i)
          × (i < length shared.events))

  propose_step-IsProposed :
      (target : Option ℕ) (recipe : Recipe) (c : Candidate)
      → IsTarget target
      → Mem recipe (recipes_for env.registry f.code)
      → (check_preconditions env.predicates recipe.preconditions (context request shared f))
        ≡ ok (true, none)
      → propose_step env request shared f target recipe ≡ ok (propose c)
      → IsProposed env request shared f c
  unfolding propose_step
  propose_step-IsProposed target recipe c aim m p h =
      elim (Bool-cases (too_large recipe shared.events target)) [
        | inl e ↦ absurd (not_blocked (rw e at h))
        | inr e ↦
            let (loss, lost, made) =
              >>=-eq-ok (step_loss recipe shared.events target (step_params recipe f)) _
                (rw e at h) in
            let new = candidate recipe f target loss in
            let (same, passed) =
              gate_candidate-propose env request shared recipe new c (ok_inj made) in
            subst (IsProposed env request shared f) same (record {
              recipe = recipe;
              registered = m;
              checked = p;
              named = refl;
              about = refl;
              code = refl;
              lossy = refl;
              min_policy = refl;
              version = refl;
              params = refl;
              loss = lost;
              target = aim;
              passed = passed;
            })
      ]
    where
      ok_inj : {a b : Outcome} → ok a ≡ ok b → a ≡ b
      ok_inj e = cc

      not_blocked : {s : String} → ¬ (ok (block s) ≡ ok (propose c))
      not_blocked e = cc

  classify_target-IsProposed :
      (target : Option ℕ) (c : Candidate)
      → IsTarget target
      → classify_target env request shared f target ≡ ok (propose c)
      → IsProposed env request shared f c
  unfolding classify_target
  classify_target-IsProposed target c aim h =
      on_refusal
        (early_refusal request.policy (repairability_value f.repairability)
          (recipes_for env.registry f.code))
        h
    where
      rs : List Recipe
      rs = recipes_for env.registry f.code

      ctx : PreconditionContext
      ctx = context request shared f

      on_found :
          (m : Match)
          → match_recipe env.predicates rs ctx none ≡ ok m
          → on_match env request shared f target m ≡ ok (propose c)
          → IsProposed env request shared f c
      on_found (matched r) e h =
          let (listed, passed) = match_recipe-matched env.predicates rs ctx none r e in
          propose_step-IsProposed target r c aim listed passed h
      on_found (unmatched last) e h = cc

      on_refusal :
          (o : Option String)
          → refuse_or o (do
            m ← match_recipe env.predicates rs ctx none
            on_match env request shared f target m)
            ≡ ok (propose c)
          → IsProposed env request shared f c
      on_refusal (some reason) h = cc
      on_refusal none h =
          let (m, found, made) = >>=-eq-ok (match_recipe env.predicates rs ctx none) _ h in
          on_found m found made

  in_range-some : (z : ℤ) (n i : ℕ) → in_range z n ≡ some i → (z ≡ pos i) × (i < n)
  in_range-some (pos k) n i h = elim (Bool-cases (ltb k n)) [
    | inl e ↦ let same : k ≡ i = cc (rw e at h) in (ap pos same, ground arith)
    | inr e ↦ cc (rw e at h)
  ]
  in_range-some (negsuc k) n i h = cc

  -- If `classify` proposes a candidate for a finding, then the candidate stems from a registered recipe for
  -- the finding's code whose preconditions all pass; it carries the recipe's name, flags, policy and
  -- version, the recipe's parameters for the finding and the loss for these, the finding's code and
  -- fingerprint, and the position in the session that the finding resolves to, or none if it resolves
  -- to none; and under the conservative policy it has passed the side-effect gate.
  pub classify-IsProposed :
      (c : Candidate)
      → classify env request shared f ≡ ok (propose c)
      → IsProposed env request shared f c
  unfolding classify
  classify-IsProposed c h = on_target (resolve_target_index env.host f shared.events) refl h
    where
      on_target :
          (o : Option ℤ)
          → resolve_target_index env.host f shared.events ≡ o
          → classify_resolved env request shared f o ≡ ok (propose c)
          → IsProposed env request shared f c
      on_target none e h = classify_target-IsProposed none c (inl (e, refl)) h
      on_target (some z) e h = on_range (in_range z (length shared.events)) refl h
        where
          on_range :
              (o : Option ℕ)
              → in_range z (length shared.events) ≡ o
              → in_session env request shared f o ≡ ok (propose c)
              → IsProposed env request shared f c
          on_range none r h = cc
          on_range (some i) r h =
              let (same, low) = in_range-some z (length shared.events) i r in
              classify_target-IsProposed (some i) c (inr (i, e ∙ ap some same, refl, low)) h
