-- ===== src/Policy/Gates/Verdicts.antt =====
-- When the session-wide gates abstain.
use mathlib.Core.Path.{subst}
use sesslint.Prelude.{
  ℕ, suc, String, ◌↔◌, ◌⊎◌, inl, inr, true, false, Option, eq_iff, Bool-cases, ◌≡◌, refl, sym, ◌∙◌,
  ◌==◌, Bool, not, ◌&&◌, ◌||◌, none, some, List, [], ◌∷◌, arith, all,
}
use sesslint.Session.{SessionEvent, Host}
use sesslint.Finding.{Finding, has_sl203}
use sesslint.Policy.SideEffects.{is_tool, extract_side_effects}
use sesslint.Policy.Scope.{check_step_scope}
use sesslint.Policy.Gates.{
  Candidate, step_reasons, abstain_reasons, effect_reasons, not_empty, should_abstain_from_repair,
  must_abstain,
}

-- Every tool event has side effects "none".
abbrev pub is_harmless : Host → SessionEvent → Bool
is_harmless host ev = not (is_tool ev) || extract_side_effects host ev == "none"

not_empty-effect_reasons :
    (host : Host) (i : ℕ) (evs : List SessionEvent)
    → not_empty (effect_reasons host i evs) ≡ not (all (is_harmless host) evs)
unfolding effect_reasons
not_empty-effect_reasons host i [] = refl
not_empty-effect_reasons host i (ev ∷ evs) =
    ground (arith, not_empty-effect_reasons host (suc i) evs)

-- The scope check of a candidate step fails.
abbrev step_refused :
    {Step : Type 0} → Host → List Finding → List SessionEvent → Option (Candidate Step) → Bool
step_refused host fs evs none = false
step_refused host fs evs (some c) =
    not (check_step_scope host c.step evs c.region_fn fs c.excludes none).0

abbrev refused :
    {Step : Type 0}
    → Host
    → List Finding
    → List SessionEvent
    → String
    → Bool
    → Option (Candidate Step)
    → Bool
refused host fs evs policy acknowledged o =
    has_sl203 fs
    || (policy == "salvage" && (not acknowledged && not (all (is_harmless host) evs))
        || policy == "conservative" && step_refused host fs evs o)

not_empty-step_reasons :
    {Step : Type 0} (host : Host) (fs : List Finding) (evs : List SessionEvent)
    (o : Option (Candidate Step))
    → not_empty (step_reasons host fs evs o) ≡ step_refused host fs evs o
not_empty-step_reasons host fs evs none = refl
not_empty-step_reasons host fs evs (some c) = ground arith

abstains :
    {Step : Type 0} (host : Host) (fs : List Finding) (evs : List SessionEvent) (policy : String)
    (acknowledged : Bool) (o : Option (Candidate Step))
    → (should_abstain_from_repair host fs evs policy acknowledged o).abstain
      ≡ refused host fs evs policy acknowledged o
unfolding should_abstain_from_repair
abstains host fs evs policy acknowledged o = elim (Bool-cases (policy == "salvage")) [
  | inl e ↦
      let named = (eq_iff policy "salvage").0 e in
      rw named (ground (arith, not_empty-effect_reasons host 0 evs))
  | inr e ↦ rw e (ground (arith, not_empty-step_reasons host fs evs o))
]

-- A repair goes through exactly when no finding is SL203; under "salvage", the side effects are
-- acknowledged or every tool event has side effects "none"; and under "conservative", the scope check
-- passes for the candidate step, if there is one. No other policy asks for more than that no finding is
-- SL203.
pub should_abstain_iff :
    {Step : Type 0} (host : Host) (fs : List Finding) (evs : List SessionEvent) (policy : String)
    (acknowledged : Bool) (o : Option (Candidate Step))
    → ((should_abstain_from_repair host fs evs policy acknowledged o).abstain ≡ false) ↔ (
        (has_sl203 fs ≡ false)
        × (policy ≡ "salvage" → (acknowledged ≡ true) ⊎ (all (is_harmless host) evs ≡ true))
        × (policy ≡ "conservative"
            → (c : Candidate Step) → o ≡ some c
            → (check_step_scope host c.step evs c.region_fn fs c.excludes none).0 ≡ true))
should_abstain_iff {Step = Step} host fs evs policy acknowledged o =
    let whole = abstains host fs evs policy acknowledged o in
    (
      λ h.
          let free : refused host fs evs policy acknowledged o ≡ false = sym whole ∙ h in
          (
            ground arith,
            λ e. salvage_open (rw e at free),
            λ e c there. step_open c (rw (e, there) at free),
          ),
      λ (clean, salvage, conservative). whole ∙ closed clean salvage conservative,
    )
  where
    salvage_open :
        refused host fs evs "salvage" acknowledged o ≡ false
        → (acknowledged ≡ true) ⊎ (all (is_harmless host) evs ≡ true)
    salvage_open h = ground arith

    step_open :
        (c : Candidate Step)
        → refused {Step = Step} host fs evs "conservative" acknowledged (some c) ≡ false
        → (check_step_scope host c.step evs c.region_fn fs c.excludes none).0 ≡ true
    step_open c h = ground arith

    salvage_closed :
        has_sl203 fs ≡ false
        → (acknowledged ≡ true) ⊎ (all (is_harmless host) evs ≡ true)
        → refused host fs evs "salvage" acknowledged o ≡ false
    salvage_closed clean given = ground arith

    step_closed :
        (p : Option (Candidate Step))
        → ((c : Candidate Step)
            → p ≡ some c
            → (check_step_scope host c.step evs c.region_fn fs c.excludes none).0 ≡ true)
        → step_refused host fs evs p ≡ false
    step_closed none f = refl
    step_closed (some c) f = rw (f c refl) refl

    closed :
        has_sl203 fs ≡ false
        → (policy ≡ "salvage" → (acknowledged ≡ true) ⊎ (all (is_harmless host) evs ≡ true))
        → (policy ≡ "conservative"
            → (c : Candidate Step) → o ≡ some c
            → (check_step_scope host c.step evs c.region_fn fs c.excludes none).0 ≡ true)
        → refused host fs evs policy acknowledged o ≡ false
    closed clean salvage conservative = elim (Bool-cases (policy == "salvage")) [
      | inl e ↦
          let named = (eq_iff policy "salvage").0 e in
          subst (λ q. refused host fs evs q acknowledged o ≡ false) (sym named)
            (salvage_closed clean (salvage named))
      | inr e ↦ elim (Bool-cases (policy == "conservative")) [
        | inl k ↦
            let passed = step_closed o (conservative ((eq_iff policy "conservative").0 k)) in
            ground arith
        | inr k ↦ ground arith
      ]
    ]

-- The two loops collect the same reasons.
abstain_reasons-eq-effect_reasons :
    (host : Host) (i : ℕ) (evs : List SessionEvent)
    → abstain_reasons host i evs ≡ effect_reasons host i evs
unfolding abstain_reasons effect_reasons
abstain_reasons-eq-effect_reasons host i [] = refl
abstain_reasons-eq-effect_reasons host i (ev ∷ evs) =
    rw (abstain_reasons-eq-effect_reasons host (suc i) evs) refl

-- `must_abstain` refuses exactly when a finding is SL203, or side effects are not allowed and some
-- tool event may have them; and what it lets through the salvage gate lets through too.
pub must_abstain_iff :
    (Step : Type 0) (host : Host) (fs : List Finding) (evs : List SessionEvent) (allowed : Bool)
    → ((must_abstain host fs evs allowed).abstain
        ≡ (has_sl203 fs || not allowed && not (all (is_harmless host) evs)))
      × (must_abstain host fs evs allowed
          ≡ should_abstain_from_repair {Step = Step} host fs evs "salvage" allowed none)
unfolding should_abstain_from_repair must_abstain
must_abstain_iff Step host fs evs allowed =
    let same = abstain_reasons-eq-effect_reasons host 0 evs in
    rw same (ground (arith, not_empty-effect_reasons host 0 evs), refl)
