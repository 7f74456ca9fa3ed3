-- ===== src/Repair/Vetting/Subsequence.antt =====
-- `vet_plan` (repair/vetting.py) against its contract, which speaks of subsequences of steps.
use native.Mathlib.Decide.{dec_lt}
use mathlib.Core.Path.{subst}
use sesslint.Prelude.{
  ℕ, zero, suc, ◌-◌, ◌≤◌, ◌<◌, String, ◌==◌, ◌≡◌, ◌↔◌, refl, sym, ap, ◌∙◌, ◌⊎◌, inl, inr, Bool,
  true, false, Option, none, some, List, [], ◌∷◌, map, keep, drop, mem_text, arith, Bool-cases,
  eq_iff, eq_refl,
}
use sesslint.Prelude.Sort.{sort}
use sesslint.Values.{Fields}
use sesslint.Session.{SessionEvent}
use sesslint.Finding.{Finding}
use sesslint.Repair.Result.{RepairError, Result, ok, err}
use sesslint.Repair.Planner.Data.{Env, RepairPlan}
use sesslint.Repair.Planner.Plan.{plan}
use sesslint.Repair.Vetting.{
  positions_from, is_after, follow, vet_plan, step_identity, VetError, source_mismatch,
  planner_error, refusal, request_for, le_seq,
}
use sesslint.Repair.Steps.{PlanStep}

-- One list is the other with some items left out.
pub data Within : List String → List String → Type 0 where
  none_left : {ys : List String} → Within [] ys
  kept : {x y : String} {xs ys : List String} → x ≡ y → Within xs ys → Within (x ∷ xs) (y ∷ ys)
  left_out : {y : String} {xs ys : List String} → Within xs ys → Within xs (y ∷ ys)

Within-tail : {x : String} {xs ys : List String} → Within (x ∷ xs) ys → Within xs ys
Within-tail (Within.kept e w) = Within.left_out w
Within-tail (Within.left_out w) = Within.left_out (Within-tail w)

-- Where the next item is found, nothing is lost by taking it.
Within-same : (x : String) {xs ys : List String} → Within (x ∷ xs) (x ∷ ys) → Within xs ys
Within-same x (Within.kept e w) = w
Within-same x (Within.left_out w) = Within-tail w

Within-other :
    {x y : String} {xs ys : List String}
    → (x ≡ y → ⊥)
    → Within (x ∷ xs) (y ∷ ys)
    → Within (x ∷ xs) ys
Within-other n (Within.kept e w) = absurd (n e)
Within-other n (Within.left_out w) = w

-- The positions of an item, and what is left after the first of them.
record Found (n : ℕ) (s : String) (ys : List String) (i : ℕ) (is : List ℕ) : Type 0 where
  from : n ≤ i
  step : (rest : List String) → Within (s ∷ rest) ys ↔ Within rest (drop (suc i - n) ys)

positions_from-same :
    (n : ℕ) (s : String) (y : String) (ys : List String)
    → y == s ≡ true
    → positions_from n s (y ∷ ys) ≡ n ∷ positions_from (suc n) s ys
unfolding positions_from
positions_from-same n s y ys e = rw e refl

positions_from-other :
    (n : ℕ) (s : String) (y : String) (ys : List String)
    → y == s ≡ false
    → positions_from n s (y ∷ ys) ≡ positions_from (suc n) s ys
unfolding positions_from
positions_from-other n s y ys e = rw e refl

Found-here :
    (n : ℕ) (s y : String) (ys : List String) (is : List ℕ) → y ≡ s → Found n s (y ∷ ys) n is
Found-here n s y ys is e =
    let one : suc n - n ≡ 1 = omega arith in
    record {
      from = omega arith;
      step = λ rest.
          subst (λ k. Within (s ∷ rest) (y ∷ ys) ↔ Within rest (drop k (y ∷ ys))) (sym one)
            (
              λ w. Within-same s (subst (λ z. Within (s ∷ rest) (z ∷ ys)) e w),
              λ w. Within.kept (sym e) w,
            );
    }

Found-later :
    (n : ℕ) (s y : String) (ys : List String) (i : ℕ) (is : List ℕ)
    → (s ≡ y → ⊥)
    → Found (suc n) s ys i is
    → Found n s (y ∷ ys) i is
Found-later n s y ys i is e f =
    let past : suc n ≤ i = f.from in
    let more : suc i - n ≡ suc (suc i - suc n) = omega arith in
    record {
      from = omega arith;
      step = λ rest.
          subst (λ k. Within (s ∷ rest) (y ∷ ys) ↔ Within rest (drop k (y ∷ ys))) (sym more)
            (λ w. (f.step rest).0 (Within-other e w), λ w. Within.left_out ((f.step rest).1 w));
    }

drop-nil : (n : ℕ) → drop {A = String} n [] ≡ []
drop-nil zero = refl
drop-nil (suc n) = refl

drop-drop : (n m : ℕ) (xs : List String) → n ≤ m → drop (m - n) (drop n xs) ≡ drop m xs
drop-drop zero m xs h = ap (λ k. drop k xs) (omega arith)
drop-drop (suc n) zero xs h = absurd (omega arith)
drop-drop (suc n) (suc m) [] h = drop-nil (suc m - suc n)
drop-drop (suc n) (suc m) (x ∷ xs) h =
    let same : suc m - suc n ≡ m - n = omega arith in
    ap (λ k. drop k (drop n xs)) same ∙ drop-drop n m xs (omega arith)

some_ne_none : (s : PlanStep) → some s ≡ none → ⊥
some_ne_none s e = cc

ne_of_test : (y s : String) → y == s ≡ false → s ≡ y → ⊥
ne_of_test y s e p = cc (subst (λ z. z == s ≡ false) (sym p) e, eq_refl s)

find_next :
    (n : ℕ) (s : String) (ys : List String)
    → ((positions_from n s ys ≡ []) × ((rest : List String) → Within (s ∷ rest) ys → ⊥))
      ⊎ ((i : ℕ) × (is : List ℕ) × (positions_from n s ys ≡ i ∷ is) × Found n s ys i is)
find_next n s [] = inl (unfold positions_from in refl, λ rest w. elim w [ ])
find_next n s (y ∷ ys) = elim (Bool-cases (y == s)) [
  | inl e ↦
      let p = (eq_iff y s).0 e in
      inr (n, positions_from (suc n) s ys, positions_from-same n s y ys e, Found-here n s y ys _ p)
  | inr e ↦ elim (find_next (suc n) s ys) [
    | inl (p, q) ↦
        inl (
          positions_from-other n s y ys e ∙ p,
          λ rest w. q rest (Within-other (ne_of_test y s e) w),
        )
    | inr (i, is, p, f) ↦
        inr (
          i,
          is,
          positions_from-other n s y ys e ∙ p,
          Found-later n s y ys i is (ne_of_test y s e) f,
        )
  ]
]

-- The positions after the previous one are those in the rest of the list.
abbrev start : Option ℕ → ℕ
start none = 0
start (some i) = suc i

is_after-start : (previous : Option ℕ) (k : ℕ) → start previous ≤ k → is_after previous k ≡ true
is_after-start none k h = refl
is_after-start (some i) k h = ground arith

is_after-early : (previous : Option ℕ) (k : ℕ) → k < start previous → is_after previous k ≡ false
is_after-early none k h = absurd (omega arith)
is_after-early (some i) k h = ground arith

all_after :
    (k : ℕ) (previous : Option ℕ) (s : String) (ys : List String)
    → start previous ≤ k
    → keep (is_after previous) (positions_from k s ys) ≡ positions_from k s ys
all_after k previous s [] h = unfold positions_from in refl
all_after k previous s (y ∷ ys) h =
    let rest = all_after (suc k) previous s ys (omega arith) in
    elim (Bool-cases (y == s)) [
      | inl e ↦
          rw (positions_from-same k s y ys e)
            (rw (is_after-start previous k h) (ap (λ is. k ∷ is) rest))
      | inr e ↦ rw (positions_from-other k s y ys e) rest
    ]

none_early :
    (k : ℕ) (previous : Option ℕ) (s y : String) (ys : List String)
    → k < start previous
    → keep (is_after previous) (positions_from k s (y ∷ ys))
      ≡ keep (is_after previous) (positions_from (suc k) s ys)
none_early k previous s y ys h = elim (Bool-cases (y == s)) [
  | inl e ↦ rw (positions_from-same k s y ys e) (rw (is_after-early previous k h) refl)
  | inr e ↦ rw (positions_from-other k s y ys e) refl
]

keep-positions_from :
    (k : ℕ) (previous : Option ℕ) (s : String) (ys : List String)
    → k ≤ start previous
    → keep (is_after previous) (positions_from k s ys)
      ≡ positions_from (start previous) s (drop (start previous - k) ys)
keep-positions_from k previous s [] h =
    unfold positions_from in rw (drop-nil (start previous - k)) refl
keep-positions_from k previous s (y ∷ ys) h = elim (dec_lt k (start previous)) [
  | yes l ↦
      let more : start previous - k ≡ suc (start previous - suc k) = omega arith in
      none_early k previous s y ys l
      ∙ (keep-positions_from (suc k) previous s ys (omega arith)
          ∙ ap (λ n. positions_from (start previous) s (drop n (y ∷ ys))) (sym more))
  | no n ↦
      let level : k ≡ start previous = omega arith in
      let nothing : start previous - k ≡ 0 = omega arith in
      all_after k previous s (y ∷ ys) (omega arith)
      ∙ (ap (λ j. positions_from j s (y ∷ ys)) level
          ∙ ap (λ n. positions_from (start previous) s (drop n (y ∷ ys))) (sym nothing))
]

module _ (expected : List String) (identity : PlanStep → String) where
  follow-nil :
      (previous : Option ℕ) (s : PlanStep) (ss : List PlanStep)
      → keep (is_after previous) (positions_from 0 (identity s) expected) ≡ []
      → follow expected identity previous (s ∷ ss) ≡ some s
  unfolding follow
  follow-nil previous s ss e = rw (e, follow) refl

  follow-cons :
      (previous : Option ℕ) (s : PlanStep) (ss : List PlanStep) (i : ℕ) (is : List ℕ)
      → keep (is_after previous) (positions_from 0 (identity s) expected) ≡ i ∷ is
      → follow expected identity previous (s ∷ ss) ≡ follow expected identity (some i) ss
  unfolding follow
  follow-cons previous s ss i is e = rw (e, follow) refl

  -- The loop admits the steps exactly when they are a subsequence of what is left.
  pub follow-Within :
      (ss : List PlanStep) (previous : Option ℕ)
      → (follow expected identity previous ss ≡ none)
        ↔ Within (map identity ss) (drop (start previous) expected)
  follow-Within [] previous = (λ e. Within.none_left, λ w. unfold follow in refl)
  follow-Within (s ∷ ss) previous =
      let left = drop (start previous) expected in
      let here : keep (is_after previous) (positions_from 0 (identity s) expected)
          ≡ positions_from (start previous) (identity s) left =
        subst
          (λ n.
            keep (is_after previous) (positions_from 0 (identity s) expected)
            ≡ positions_from (start previous) (identity s) (drop n expected))
          (omega arith) (keep-positions_from 0 previous (identity s) expected (omega arith)) in
      elim (find_next (start previous) (identity s) left) [
        | inl (p, q) ↦ (
          λ e. absurd (some_ne_none s (sym (follow-nil previous s ss (here ∙ p)) ∙ e)),
          λ w. absurd (q (map identity ss) w),
        )
        | inr (i, is, p, f) ↦
            let step = follow-cons previous s ss i is (here ∙ p) in
            let ih = follow-Within ss (some i) in
            let rest : drop (suc i - start previous) left ≡ drop (suc i) expected =
              drop-drop (start previous) (suc i) expected (omega (arith, f.from)) in
            (
              λ e.
                  (f.step (map identity ss)).1
                    (subst (Within (map identity ss)) (sym rest) (ih.0 (sym step ∙ e))),
              λ w.
                  step
                  ∙ ih.1 (subst (Within (map identity ss)) rest ((f.step (map identity ss)).0 w)),
            )
      ]

Result-cases :
    {A : Type 0} (r : Result A) → ((e : RepairError) × (r ≡ err e)) ⊎ ((a : A) × (r ≡ ok a))
Result-cases (err e) = inl (e, refl)
Result-cases (ok a) = inr (a, refl)

mismatch : (u : Unit {0}) → ◌≡◌ {A = Option VetError} (some source_mismatch) none → ⊥
mismatch u e = cc

planner : (r : RepairError) → some (planner_error r) ≡ none → ⊥
planner r e = cc

hash_known : (s a b : String) → mem_text s (a ∷ b ∷ []) ≡ true → (s ≡ a) ⊎ (s ≡ b)
hash_known s a b h = elim (Bool-cases (s == a)) [
  | inl e ↦ inl ((eq_iff s a).0 e)
  | inr e ↦ inr (ground (arith, eq_iff s b))
]

known_hash : (s a b : String) → (s ≡ a) ⊎ (s ≡ b) → mem_text s (a ∷ b ∷ []) ≡ true
known_hash s a b (inl e) = ground (arith, eq_iff s a)
known_hash s a b (inr e) = ground (arith, eq_iff s b)

module _ (env : Env) (dumps : Fields → String) where
  module _ (supplied : RepairPlan) (fs : List Finding) (evs : List SessionEvent)
      (source_hash : String) (acknowledged : Bool) (format : String) where
    vet-mismatch :
        mem_text supplied.source_hash (source_hash ∷ env.events_digest evs ∷ []) ≡ false
        → vet_plan env dumps supplied fs evs source_hash acknowledged format ≡ some source_mismatch
    unfolding vet_plan
    vet-mismatch b = rw b refl

    vet-error :
        (r : RepairError)
        → mem_text supplied.source_hash (source_hash ∷ env.events_digest evs ∷ []) ≡ true
        → plan env (request_for supplied acknowledged format) fs evs ≡ err r
        → vet_plan env dumps supplied fs evs source_hash acknowledged format
          ≡ some (planner_error r)
    unfolding vet_plan
    vet-error r b x = rw b (rw (x, vet_plan) refl)

    vet-ok :
        (expected : RepairPlan)
        → mem_text supplied.source_hash (source_hash ∷ env.events_digest evs ∷ []) ≡ true
        → plan env (request_for supplied acknowledged format) fs evs ≡ ok expected
        → vet_plan env dumps supplied fs evs source_hash acknowledged format
          ≡ refusal (
              follow
                (map (step_identity env dumps) expected.steps)
                (step_identity env dumps)
                none
                (sort le_seq supplied.steps))
    unfolding vet_plan
    vet-ok expected b x = rw b (rw (x, vet_plan) refl)

  refusal-none : (o : Option PlanStep) → refusal o ≡ none → o ≡ none
  refusal-none none e = refl
  refusal-none (some s) e = cc

  -- A supplied plan is admitted exactly when its source hash is that of the file or of the events,
  -- the planner makes a plan now, and the supplied steps, in the order of their numbers, are by
  -- identity a subsequence of the planner's.
  pub vet_plan_iff :
      (supplied : RepairPlan) (fs : List Finding) (evs : List SessionEvent) (source_hash : String)
      (acknowledged : Bool) (format : String)
      → (vet_plan env dumps supplied fs evs source_hash acknowledged format ≡ none) ↔ (
          ((supplied.source_hash ≡ source_hash) ⊎ (supplied.source_hash ≡ env.events_digest evs))
          × ((expected : RepairPlan) × (plan env (request_for supplied acknowledged format) fs evs
                ≡ ok expected)
              × Within
                  (map (step_identity env dumps) (sort le_seq supplied.steps))
                  (map (step_identity env dumps) expected.steps)))
  vet_plan_iff supplied fs evs source_hash acknowledged format =
      let steps = sort le_seq supplied.steps in
      let identity = step_identity env dumps in
      let result = plan env (request_for supplied acknowledged format) fs evs in
      (
        λ e.
            elim (Bool-cases
              (mem_text supplied.source_hash (source_hash ∷ env.events_digest evs ∷ []))) [
                | inr b ↦ absurd (
                    mismatch tt
                      (sym (vet-mismatch supplied fs evs source_hash acknowledged format b) ∙ e))
                | inl b ↦ elim (Result-cases result) [
                  | inl (r, x) ↦ absurd (
                      planner r
                        (sym (vet-error supplied fs evs source_hash acknowledged format r b x) ∙ e))
                  | inr (expected, x) ↦
                      let admitted = refusal-none _ (
                        sym (vet-ok supplied fs evs source_hash acknowledged format expected b x)
                        ∙ e) in
                      (
                        hash_known _ _ _ b,
                        (
                          expected,
                          x,
                          (follow-Within (map identity expected.steps) identity steps none).0
                              admitted,
                        ),
                      )
                ]
              ],
        λ h.
            let b = known_hash _ _ _ h.0 in
            let (expected, x, w) = h.1 in
            vet-ok supplied fs evs source_hash acknowledged format expected b x
            ∙ ap refusal ((follow-Within (map identity expected.steps) identity steps none).1 w),
      )
