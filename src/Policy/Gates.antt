-- ===== src/Policy/Gates.antt =====
-- `Abstention`, `should_abstain_from_repair` and `must_abstain` of policy/abstention.py.
pub mod Verdicts
use sesslint.Prelude.{
  ℕ, suc, String, ◌==◌, Bool, true, false, not, ◌&&◌, Option, none, some, List, [], ◌∷◌,
  if◌then◌else◌,
}
use sesslint.Session.{SessionEvent, Host}
use sesslint.Finding.{Finding, has_sl203}
use sesslint.Policy.SideEffects.{is_tool, extract_side_effects}
use sesslint.Policy.Scope.{AffectedRegion, check_step_scope}

-- One constructor for each text template: "SL203 present", "side-effect-... at index ...", and the
-- refusal of the scope check.
pub data AbstentionReason : Type 0 where
  sl203_present : AbstentionReason
  side_effect : String → ℕ → AbstentionReason
  scope : String → AbstentionReason

pub record Abstention : Type 0 where
  pub abstain : Bool
  pub reasons : List AbstentionReason

-- The loop of `should_abstain_from_repair` over the events: the tool events whose side effects are not
-- "none".
unfoldable pub effect_reasons : Host → ℕ → List SessionEvent → List AbstentionReason
effect_reasons host i [] = []
effect_reasons host i (ev ∷ evs) =
    let rest = effect_reasons host (suc i) evs in
    let se = extract_side_effects host ev in
    if is_tool ev && not (se == "none") then side_effect se i ∷ rest else rest

abbrev pub not_empty {ℓ} : {A : Type ℓ} → List A → Bool
not_empty [] = false
not_empty (x ∷ xs) = true

abbrev pub verdict : List AbstentionReason → Abstention
verdict reasons = record { abstain = not_empty reasons; reasons = reasons }

abbrev or_unproven : Option String → String
or_unproven none = "side-effect-scope-unproven"
or_unproven (some s) = if s == "" then "side-effect-scope-unproven" else s

abbrev pub scope_reasons : Bool × Option String → List AbstentionReason
scope_reasons (disjoint, refusal) = if disjoint then [] else scope (or_unproven refusal) ∷ []

-- A candidate step, with what its recipe declares about it.
pub record Candidate (Step : Type 0) : Type 0 where
  pub step : Step
  pub region_fn : Option (Step → List SessionEvent → Option AffectedRegion)
  pub excludes : Bool

abbrev pub step_reasons :
    {Step : Type 0}
    → Host
    → List Finding
    → List SessionEvent
    → Option (Candidate Step)
    → List AbstentionReason
step_reasons host fs evs none = []
step_reasons host fs evs (some c) =
    scope_reasons (check_step_scope host c.step evs c.region_fn fs c.excludes none)

unfoldable pub should_abstain_from_repair :
    {Step : Type 0}
    → Host
    → List Finding
    → List SessionEvent
    → String
    → Bool
    → Option (Candidate Step)
    → Abstention
unfolding effect_reasons
should_abstain_from_repair host fs evs policy acknowledged candidate =
    if has_sl203 fs
    then verdict (sl203_present ∷ [])
    else if policy == "salvage"
    then verdict (if acknowledged then [] else effect_reasons host 0 evs)
    else if policy == "conservative"
    then verdict (step_reasons host fs evs candidate)
    else verdict []

-- The loop of `must_abstain`.
unfoldable pub abstain_reasons : Host → ℕ → List SessionEvent → List AbstentionReason
abstain_reasons host i [] = []
abstain_reasons host i (ev ∷ evs) =
    let rest = abstain_reasons host (suc i) evs in
    let se = extract_side_effects host ev in
    if is_tool ev && not (se == "none") then side_effect se i ∷ rest else rest

unfoldable pub must_abstain : Host → List Finding → List SessionEvent → Bool → Abstention
unfolding abstain_reasons
must_abstain host fs evs allow_unknown =
    if has_sl203 fs
    then verdict (sl203_present ∷ [])
    else verdict (if allow_unknown then [] else abstain_reasons host 0 evs)
