-- ===== src/Repair/Planner/Plan.antt =====
-- `plan` of repair/planner.py, from the findings to the fingerprinted plan.
use sesslint.Prelude.{
  ℕ, suc, ◌+◌, ◌-◌, String, ◌==◌, Bool, true, false, not, ◌&&◌, ◌||◌, Option, none, some, List, [],
  ◌∷◌, ◌++◌, any, map, if◌then◌else◌, length, ltb, eqb, mem_text, take, drop,
}
use sesslint.Prelude.Sort.{sort}
use sesslint.Prelude.Text.{le_text}
use sesslint.Values.{end}
use sesslint.Session.{SessionEvent}
use sesslint.Finding.{Finding, has_sl203}
use sesslint.Policy.Ambiguity.Find.{find_ambiguous_events}
use sesslint.Policy.Gates.{
  Abstention, AbstentionReason, sl203_present, should_abstain_from_repair, must_abstain,
}
use sesslint.Repair.Result.{Result, ok, err, invalid_policy, lossy_conservative_step, ◌>>=◌}
use sesslint.Repair.Steps.{PlanStep}
use sesslint.Repair.Planner.Data.{
  Blocked, Loss, PlanBody, RepairPlan, Candidate, Env, Request, max_steps, event_drop_recipes,
  non_event_loss_classes,
}
use sesslint.Repair.Planner.Classify.{Shared, Outcome, block, propose, classify}

-- 1. One finding for each fingerprint, the first, in the order of the fingerprints.

unfoldable pub first_by_fingerprint : List String → List Finding → List Finding
first_by_fingerprint seen [] = []
first_by_fingerprint seen (f ∷ fs) =
    let rest =
      first_by_fingerprint (if mem_text f.fingerprint seen then seen else f.fingerprint ∷ seen)
        fs in
    if mem_text f.fingerprint seen then rest else f ∷ rest

abbrev pub le_fingerprint : Finding → Finding → Bool
le_fingerprint f g = le_text f.fingerprint g.fingerprint

unfoldable pub unique_findings : List Finding → List Finding
unfolding first_by_fingerprint
unique_findings fs = sort le_fingerprint (first_by_fingerprint [] fs)

-- 3. Candidates and blocked findings, in the order of the findings.

pub record Partition : Type 0 where
  pub candidates : List Candidate
  pub blocked : List Blocked

abbrev pub blocked_for : Finding → String → Blocked
blocked_for f reason = record { finding_fp = f.fingerprint; code = f.code; reason = reason }

abbrev pub add_outcome : Finding → Outcome → Partition → Partition
add_outcome f (block reason) p = record p { blocked = blocked_for f reason ∷ p.blocked }
add_outcome f (propose c) p = record p { candidates = c ∷ p.candidates }

unfoldable pub partition : Env → Request → Shared → List Finding → Result Partition
partition env request shared [] = ok (record { candidates = []; blocked = [] })
partition env request shared (f ∷ fs) =
    let rest = partition env request shared fs in
    do outcome ← classify env request shared f; p ← rest; ok (add_outcome f outcome p)

-- 4. The order of the steps.

abbrev pub target_or_zero : Candidate → ℕ
target_or_zero c = elim c.target_index [ none ↦ 0 | some i ↦ i ]

-- `a < b` on texts, or `a == b` and the rest.
abbrev pub text_then : String → String → Bool → Bool
text_then a b rest = if a == b then rest else le_text a b

unfoldable pub le_candidate : Candidate → Candidate → Bool
le_candidate a b =
    if eqb (target_or_zero a) (target_or_zero b)
    then text_then a.recipe b.recipe (le_text a.finding_fp b.finding_fp)
    else ltb (target_or_zero a) (target_or_zero b)

-- 5. The cap. Steps are numbered in order, and the findings of those past the cap are blocked.

unfoldable pub number_from : ℕ → List Candidate → List PlanStep
number_from n [] = []
number_from n (c ∷ cs) =
    record {
      seq = n;
      recipe = c.recipe;
      target_finding_fp = c.finding_fp;
      target_index = c.target_index;
      params = c.params;
      lossy = c.lossy;
      loss = c.loss;
      min_policy = c.min_policy;
      recipe_version = c.version;
    }
    ∷ number_from (suc n) cs

abbrev pub overflow : Candidate → Blocked
overflow c = record { finding_fp = c.finding_fp; code = c.code; reason = "cap-overflow" }

-- 6. The normalizing step behind a step that drops events, on canonical input.

unfoldable pub renumber_step : ℕ → PlanStep
renumber_step n = record {
  seq = n;
  recipe = "seq-renumber";
  target_finding_fp = "-";
  target_index = none;
  params = end;
  lossy = false;
  loss = [];
  min_policy = "conservative";
  recipe_version = "1.0.0";
}

abbrev pub is_canonical : Option String → Bool
is_canonical none = false
is_canonical (some s) = s == "canonical"

unfoldable pub with_renumber : Option String → List PlanStep → List PlanStep
unfolding renumber_step
with_renumber format steps =
    if is_canonical format && any (λ s. mem_text s.recipe event_drop_recipes) steps
    then steps ++ renumber_step (length steps) ∷ []
    else steps

-- The accounting of losses.

abbrev pub LossMap : Type 0
LossMap = List (String × ℕ)

unfoldable pub add_loss : String → ℕ → LossMap → LossMap
add_loss k v [] = (k, v) ∷ []
add_loss k v ((j, w) ∷ m) = if j == k then (j, w + v) ∷ m else (j, w) ∷ add_loss k v m

unfoldable pub add_losses : LossMap → LossMap → LossMap
unfolding add_loss
add_losses [] preview = preview
add_losses ((k, v) ∷ m) preview = add_losses m (add_loss k v preview)

unfoldable pub preview_of : List PlanStep → LossMap → LossMap
unfolding add_losses
preview_of [] preview = preview
preview_of (s ∷ ss) preview = preview_of ss (add_losses s.loss preview)

abbrev pub empty_preview : LossMap
empty_preview = ("discarded-suffix", 0) ∷ ("none", 0) ∷ ("truncated-projection", 0) ∷ []

-- The sum of the counts whose class passes a test.
unfoldable pub sum_where : (String → Bool) → LossMap → ℕ
sum_where counts [] = 0
sum_where counts ((k, v) ∷ m) = (if counts k then v else 0) + sum_where counts m

unfoldable pub total_where : (String → Bool) → List PlanStep → ℕ
unfolding sum_where
total_where counts [] = 0
total_where counts (s ∷ ss) = sum_where counts s.loss + total_where counts ss

abbrev pub is_event_class : String → Bool
is_event_class k = not (mem_text k non_event_loss_classes)

unfoldable pub account : List PlanStep → ℕ → Loss
unfolding preview_of total_where
account steps events = record {
  preview = preview_of steps empty_preview;
  total_lost = total_where (λ k. true) steps;
  total_kept = events - total_where is_event_class steps;
}

-- The last guard of a conservative plan.

abbrev pub is_lossy : PlanStep → Bool
is_lossy s = s.lossy || any (λ (k, v). ltb 0 v) s.loss || s.min_policy == "salvage"

unfoldable pub guard_conservative : List PlanStep → Result (List PlanStep)
guard_conservative [] = ok []
guard_conservative (s ∷ ss) =
    let rest = guard_conservative ss in
    if is_lossy s
    then err (lossy_conservative_step s.recipe)
    else (do checked ← rest; ok (s ∷ checked))

unfoldable pub le_blocked : Blocked → Blocked → Bool
le_blocked a b =
    if a.finding_fp == b.finding_fp
    then (if a.code == b.code then le_text a.reason b.reason else le_text a.code b.code)
    else le_text a.finding_fp b.finding_fp

-- The whole function.

abbrev pub sealed : Env → PlanBody → RepairPlan
sealed env body = record { body = body; fingerprint = env.plan_digest body }

abbrev pub is_sl203_reason : AbstentionReason → Bool
is_sl203_reason sl203_present = true
is_sl203_reason _ = false

-- The refusal that SL203 forces.
unfoldable pub refused_plan : Env → Request → String → List Finding → ℕ → RepairPlan
refused_plan env request source_hash unique events = sealed env (record {
  source_hash = source_hash;
  profile = request.profile;
  steps = [];
  blocked = map (λ f. blocked_for f "SL203-refusal") unique;
  loss_accounting = record { preview = empty_preview; total_lost = 0; total_kept = events };
  policy = request.policy;
})

-- Part 4: the candidates in the order of the steps.
unfoldable pub ordered_candidates : Partition → List Candidate
ordered_candidates p = sort le_candidate p.candidates

-- Parts 5 and 6: the steps under the cap, and the renumbering.
unfoldable pub built_steps : Option String → Partition → List PlanStep
unfolding ordered_candidates number_from with_renumber
built_steps format p = with_renumber format (number_from 0 (take max_steps (ordered_candidates p)))

unfoldable pub check_steps : String → List PlanStep → Result (List PlanStep)
unfolding guard_conservative
check_steps policy steps = if policy == "conservative" then guard_conservative steps else ok steps

unfoldable pub finished : Env → Request → String → ℕ → Partition → List PlanStep → RepairPlan
unfolding ordered_candidates account
finished env request source_hash events p steps = sealed env (record {
  source_hash = source_hash;
  profile = request.profile;
  steps = steps;
  blocked = sort le_blocked (p.blocked ++ map overflow (drop max_steps (ordered_candidates p)));
  loss_accounting = account steps events;
  policy = request.policy;
})

-- Parts 4 to 6 and the accounting.
unfoldable pub assemble : Env → Request → String → ℕ → Partition → Result RepairPlan
unfolding built_steps check_steps finished
assemble env request source_hash events p = do
  checked ← check_steps request.policy (built_steps request.input_format p)
  ok (finished env request source_hash events p checked)

abbrev pub or_digest : Option String → String → String
or_digest none d = d
or_digest (some s) d = s

abbrev pub shared_of : Env → List Finding → List SessionEvent → String → Shared
shared_of env fs evs source_hash =
    let unique = unique_findings fs in
    record {
      findings = fs;
      events = evs;
      source_hash = source_hash;
      global_abstention = must_abstain env.host unique evs false;
      ambiguous = find_ambiguous_events env.host evs unique;
    }

-- `policy not in ("conservative", "salvage")`, negated.
abbrev pub is_policy : String → Bool
is_policy policy = policy == "conservative" || policy == "salvage"

abbrev pub hash_of : Env → Request → List SessionEvent → String
hash_of env request evs = or_digest request.source_hash (env.events_digest evs)

abbrev pub gate_of : Env → Request → List Finding → List SessionEvent → Abstention
gate_of env request fs evs =
    should_abstain_from_repair {Step = PlanStep} env.host fs evs request.policy request.acknowledged
      none

-- Parts 3 to 6, for a session without SL203.
unfoldable pub plan_repairs : Env → Request → List Finding → List SessionEvent → Result RepairPlan
unfolding partition assemble
plan_repairs env request fs evs = do
  p ← partition env request (shared_of env fs evs (hash_of env request evs)) (unique_findings fs)
  assemble env request (hash_of env request evs) (length evs) p

unfoldable pub plan : Env → Request → List Finding → List SessionEvent → Result RepairPlan
unfolding refused_plan plan_repairs
plan env request fs evs =
    if is_policy request.policy
    then (if has_sl203 fs || any is_sl203_reason (gate_of env request fs evs).reasons
        then ok
            (refused_plan env request (hash_of env request evs) (unique_findings fs) (length evs))
        else plan_repairs env request fs evs)
    else err (invalid_policy request.policy)
