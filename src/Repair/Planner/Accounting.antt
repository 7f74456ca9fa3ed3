-- ===== src/Repair/Planner/Accounting.antt =====
-- The accounting of findings: where the fingerprint of each unique finding ends up in a plan.
use sesslint.Prelude.{
  ℕ, zero, suc, ◌≡◌, refl, sym, ap, ◌∙◌, String, false, List, [], ◌∷◌, ◌++◌, map, length, take,
  drop,
}
use sesslint.Prelude.Sort.{sort, sort-perm}
use mathlib.Core.Path.{subst}
use mathlib.Core.List.{Perm, perm_middle, perm_append_comm}
use mathlib.Core.List.Perm
use sesslint.Session.{SessionEvent}
use sesslint.Finding.{Finding, has_sl203}
use sesslint.Repair.Result.{ok, >>=-eq-ok}
use sesslint.Repair.Steps.{PlanStep}
use sesslint.Repair.Planner.Data.{Candidate, Env, Request, RepairPlan, max_steps}
use sesslint.Repair.Planner.Classify.{Shared, Outcome, block, propose, classify}
use sesslint.Repair.Planner.Plan.{
  Partition, unique_findings, partition, add_outcome, ordered_candidates, built_steps, number_from,
  with_renumber, hash_of, overflow, le_blocked, le_candidate, plan,
}
use sesslint.Repair.Planner.Outcomes.{classify-IsProposed}
use sesslint.Repair.Planner.Refusal.{plan_assembled}
use sesslint.Repair.Planner.Steps.{assemble-IsAssembled}

-- The fingerprints that a partition holds: those of its candidates, then those it blocks.
abbrev held : Partition → List String
held part = map (λ c. c.finding_fp) part.candidates ++ map (λ b. b.finding_fp) part.blocked

held-add_outcome :
    (env : Env) (request : Request) (shared : Shared) (f : Finding) (o : Outcome) (part : Partition)
    → classify env request shared f ≡ ok o
    → Perm (held (add_outcome f o part)) (f.fingerprint ∷ held part)
held-add_outcome env request shared f (block reason) part h =
    perm_middle (map (λ c. c.finding_fp) part.candidates) (map (λ b. b.finding_fp) part.blocked)
held-add_outcome env request shared f (propose c) part h =
    let p = classify-IsProposed env request shared f c h in rw (p.about) (Perm.refl _)

partition_held :
    (env : Env) (request : Request) (shared : Shared) (fs : List Finding) (part : Partition)
    → partition env request shared fs ≡ ok part
    → Perm (held part) (map (λ f. f.fingerprint) fs)
unfolding partition
partition_held env request shared [] part h =
    let same : record { candidates = []; blocked = [] } ≡ part = cc in
    subst (λ q. Perm (held q) []) same (Perm.refl _)
partition_held env request shared (f ∷ fs) part h =
    let (o, found, h1) = >>=-eq-ok (classify env request shared f) _ h in
    let (rest, parted, made) = >>=-eq-ok (partition env request shared fs) _ h1 in
    let same : add_outcome f o rest ≡ part = cc in
    subst (λ q. Perm (held q) (f.fingerprint ∷ map (λ g. g.fingerprint) fs)) same
      (Perm.trans (held-add_outcome env request shared f o rest found)
        (Perm.cons f.fingerprint (partition_held env request shared fs rest parted)))

map-append {ℓ κ} :
    {A : Type ℓ} {B : Type κ} (f : A → B) (xs ys : List A) → map f (xs ++ ys) ≡ map f xs ++ map f ys
map-append f [] ys = refl
map-append f (x ∷ xs) ys = ap (λ zs. f x ∷ zs) (map-append f xs ys)

map-map {ℓ} :
    {A B C : Type ℓ} (g : B → C) (f : A → B) (xs : List A)
    → map g (map f xs) ≡ map (λ x. g (f x)) xs
map-map g f [] = refl
map-map g f (x ∷ xs) = ap (λ zs. g (f x) ∷ zs) (map-map g f xs)

take-append-drop {ℓ} : {A : Type ℓ} (n : ℕ) (xs : List A) → take n xs ++ drop n xs ≡ xs
take-append-drop zero xs = refl
take-append-drop (suc n) [] = refl
take-append-drop (suc n) (x ∷ xs) = ap (λ zs. x ∷ zs) (take-append-drop n xs)

append_assoc {ℓ} : {A : Type ℓ} (xs ys zs : List A) → (xs ++ ys) ++ zs ≡ xs ++ (ys ++ zs)
append_assoc [] ys zs = refl
append_assoc (x ∷ xs) ys zs = ap (λ ws. x ∷ ws) (append_assoc xs ys zs)

targets-number_from :
    (n : ℕ) (cs : List Candidate)
    → map (λ s. s.target_finding_fp) (number_from n cs) ≡ map (λ c. c.finding_fp) cs
unfolding number_from
targets-number_from n [] = refl
targets-number_from n (c ∷ cs) = ap (λ zs. c.finding_fp ∷ zs) (targets-number_from (suc n) cs)

-- The cap moves fingerprints from the steps to the blocked findings, and loses none.
cap_perm :
    (part : Partition)
    → Perm
        (map (λ c. c.finding_fp) (take max_steps (ordered_candidates part))
          ++ map
              (λ b. b.finding_fp)
              (sort le_blocked
                (part.blocked ++ map overflow (drop max_steps (ordered_candidates part)))))
        (held part)
unfolding ordered_candidates
cap_perm part =
    let cs = sort le_candidate part.candidates in
    let xs : List String = map (λ c. c.finding_fp) (take max_steps cs) in
    let ys : List String = map (λ c. c.finding_fp) (drop max_steps cs) in
    let bs : List String = map (λ b. b.finding_fp) part.blocked in
    let sorted : Perm
        (xs
          ++ map (λ b. b.finding_fp)
              (sort le_blocked (part.blocked ++ map overflow (drop max_steps cs))))
        (xs ++ (bs ++ ys)) =
      Perm.append_left xs (
        subst
          (λ zs.
            Perm
              (map (λ b. b.finding_fp)
                (sort le_blocked (part.blocked ++ map overflow (drop max_steps cs))))
              zs)
          (map-append (λ b. b.finding_fp) part.blocked (map overflow (drop max_steps cs))
            ∙ ap (λ zs. bs ++ zs) (map-map (λ b. b.finding_fp) overflow (drop max_steps cs)))
          (Perm.map (λ b. b.finding_fp)
            (sort-perm le_blocked (part.blocked ++ map overflow (drop max_steps cs))))) in
    let swapped : Perm (xs ++ (bs ++ ys)) (xs ++ (ys ++ bs)) =
      Perm.append_left xs (perm_append_comm bs ys) in
    let whole : xs ++ (ys ++ bs) ≡ map (λ c. c.finding_fp) cs ++ bs =
      sym (append_assoc xs ys bs)
      ∙ ap (λ zs. zs ++ bs)
          (sym (map-append (λ c. c.finding_fp) (take max_steps cs) (drop max_steps cs))
            ∙ ap (map (λ c. c.finding_fp)) (take-append-drop max_steps cs)) in
    Perm.trans sorted (
      Perm.trans swapped (
        subst (λ zs. Perm zs (held part)) (sym whole)
          (Perm.append_right bs
            (Perm.map (λ c. c.finding_fp) (sort-perm le_candidate part.candidates)))))

-- Without SL203, the steps of a plan are steps for findings, with the renumbering step if there is one, and the
-- findings that those steps target, with the blocked ones, are the unique findings, each once.
pub plan_accounts :
    (env : Env) (request : Request) (fs : List Finding) (evs : List SessionEvent) (p : RepairPlan)
    → has_sl203 fs ≡ false
    → plan env request fs evs ≡ ok p
    → (steps : List PlanStep) × (p.steps ≡ with_renumber request.input_format steps)
      × Perm
          (map (λ s. s.target_finding_fp) steps ++ map (λ b. b.finding_fp) p.blocked)
          (map (λ f. f.fingerprint) (unique_findings fs))
unfolding built_steps
plan_accounts env request fs evs p clean h =
    let (_, part, parted, made) = plan_assembled env request fs evs p clean h in
    let a = assemble-IsAssembled env request (hash_of env request evs) (length evs) part p made in
    let steps = number_from 0 (take max_steps (ordered_candidates part)) in
    (
      steps,
      a.steps,
      rw (a.blocked, targets-number_from 0 (take max_steps (ordered_candidates part)))
          (Perm.trans (cap_perm part)
            (partition_held env request _ (unique_findings fs) part parted)),
    )
