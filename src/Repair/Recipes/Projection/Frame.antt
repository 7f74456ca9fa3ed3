-- ===== src/Repair/Recipes/Projection/Frame.antt =====
-- What the removal of a duplicate result does to the events, and what it leaves alone.
use sesslint.Prelude.{
  ℕ, ◌≡◌, refl, sym, ap, ◌∙◌, String, ◌==◌, true, false, not, ◌||◌, Option, none, some, List, [],
  ◌∷◌, ◌++◌, if◌then◌else◌, arith, get_elem?, eqb, mem_ℕ, mem_ℕ-append, or-false, Bool-cases, inl,
  inr, At-get_elem?,
}
use mathlib.Core.Path.{subst}
use sesslint.Session.{SessionEvent, Host}
use sesslint.Policy.Scope.Regions.{in_region}
use sesslint.Repair.Result.{Result, ok, err}
use sesslint.Repair.Steps.{PlanStep}
use sesslint.Repair.Recipes.Edits.{
  remove_at, has_parent, shifted, get_elem?-remove_at, get_elem?-relink, positions-mem,
  mem_ℤ-map_pos,
}
use sesslint.Repair.Recipes.Collapse.{id_at, collapse_pair, children_of}
use sesslint.Repair.Recipes.Reunion.{correlation_of, results_with}
use sesslint.Repair.Recipes.Projection.{
  same_content_at, first_same, targeted, drop_of, pair_or_error, pair_of_results,
  pair_of_correlation, projection_pair, projected, apply_duplicate_projection_removal,
  calls_of_correlation, projection_region, region_of_pair,
  affected_region_duplicate_projection_removal,
}

-- Two results of the step's correlation id, with one content.
pub record IsDuplicateResult (host : Host) (evs : List SessionEvent) (step : PlanStep)
    (first drop : ℕ) : Type 0 where
  pub corr : String
  pub named : correlation_of host evs step ≡ some corr
  pub later : List ℕ
  pub results : results_with corr evs ≡ first ∷ later
  pub listed : mem_ℕ drop later ≡ true
  pub same : same_content_at host evs first drop ≡ true

first_same-ok :
    (host : Host) (evs : List SessionEvent) (i : ℕ) (js : List ℕ) (j : ℕ)
    → first_same host evs i js ≡ some j
    → (mem_ℕ j js ≡ true) × (same_content_at host evs i j ≡ true)
unfolding first_same
first_same-ok host evs i [] j h = cc
first_same-ok host evs i (k ∷ js) j h = elim (Bool-cases (same_content_at host evs i k)) [
  | inl e ↦ found e (rw e at h)
  | inr e ↦ let (listed, same) = first_same-ok host evs i js j (rw e at h) in (ground arith, same)
]
  where
    found :
        same_content_at host evs i k ≡ true
        → some k ≡ some j
        → (mem_ℕ j (k ∷ js) ≡ true) × (same_content_at host evs i j ≡ true)
    found e q =
        let same : k ≡ j = cc in
        (ground arith, subst (λ l. same_content_at host evs i l ≡ true) same e)

drop_of-ok :
    (host : Host) (evs : List SessionEvent) (i : ℕ) (js : List ℕ) (target : Option ℕ) (j : ℕ)
    → drop_of host evs i js (targeted target js) ≡ some j
    → (mem_ℕ j js ≡ true) × (same_content_at host evs i j ≡ true)
drop_of-ok host evs i js none j h = first_same-ok host evs i js j h
drop_of-ok host evs i js (some t) j h = elim (Bool-cases (mem_ℕ t js)) [
  | inl e ↦ on_target e (rw e at h)
  | inr e ↦ first_same-ok host evs i js j (rw e at h)
]
  where
    no_drop : {A : Type 0} {k : A} → ¬ (none ≡ some k)
    no_drop e = cc

    on_target :
        mem_ℕ t js ≡ true
        → (if same_content_at host evs i t then some t else none) ≡ some j
        → (mem_ℕ j js ≡ true) × (same_content_at host evs i j ≡ true)
    on_target e q = elim (Bool-cases (same_content_at host evs i t)) [
      | inl d ↦
          let made : some t ≡ some j = rw d at q in
          let same : t ≡ j = cc in
          subst (λ l. (mem_ℕ l js ≡ true) × (same_content_at host evs i l ≡ true)) same (e, d)
      | inr d ↦ absurd (no_drop (rw d at q))
    ]

projection_pair-IsDuplicateResult :
    (host : Host) (evs : List SessionEvent) (step : PlanStep) (p : ℕ × ℕ)
    → projection_pair host evs step ≡ ok p
    → IsDuplicateResult host evs step p.0 p.1
unfolding projection_pair
projection_pair-IsDuplicateResult host evs step p h =
    on_correlation (correlation_of host evs step) refl h
  where
    on_results :
        (corr : String) (is : List ℕ)
        → correlation_of host evs step ≡ some corr
        → results_with corr evs ≡ is
        → pair_of_results host evs step.target_index is ≡ ok p
        → IsDuplicateResult host evs step p.0 p.1
    on_results corr [] named e h = cc
    on_results corr (i ∷ []) named e h = cc
    on_results corr (i ∷ j ∷ js) named e h =
        on_drop (drop_of host evs i (j ∷ js) (targeted step.target_index (j ∷ js))) refl h
      where
        on_drop :
            (o : Option ℕ)
            → drop_of host evs i (j ∷ js) (targeted step.target_index (j ∷ js)) ≡ o
            → pair_or_error i o ≡ ok p
            → IsDuplicateResult host evs step p.0 p.1
        on_drop none d h = cc
        on_drop (some k) d h =
            let (listed, same) = drop_of-ok host evs i (j ∷ js) step.target_index k d in
            let made : ◌≡◌ {A = ℕ × ℕ} (i, k) p = cc in
            subst (λ q. IsDuplicateResult host evs step q.0 q.1) made
              (record {
                corr = corr;
                named = named;
                later = j ∷ js;
                results = e;
                listed = listed;
                same = same;
              })

    on_correlation :
        (o : Option String)
        → correlation_of host evs step ≡ o
        → pair_of_correlation host evs step.target_index o ≡ ok p
        → IsDuplicateResult host evs step p.0 p.1
    on_correlation none named h = cc
    on_correlation (some corr) named h = on_results corr (results_with corr evs) named refl h

-- What lies outside the region is neither dropped nor a child of the dropped result.
outside_projection :
    (evs : List SessionEvent) (calls : List ℕ) (p : ℕ × ℕ) (j : ℕ) (ev : SessionEvent)
    → get_elem? evs j ≡ some ev
    → in_region (projection_region evs calls p) j ≡ false
    → (eqb j p.1 ≡ false) × ((id_at evs p.1 == "" || not (has_parent (id_at evs p.1) ev)) ≡ true)
unfolding projection_region children_of
outside_projection evs calls p j ev at h =
    let dropped = id_at evs p.1 in
    let none_of : mem_ℕ j (p.0 ∷ p.1 ∷ (children_of dropped evs ++ calls)) ≡ false =
      sym (mem_ℤ-map_pos j (p.0 ∷ p.1 ∷ (children_of dropped evs ++ calls)))
      ∙ (or-false _ false h).0 in
    let split = mem_ℕ-append j (children_of dropped evs) calls in
    (
      ground arith,
      elim (Bool-cases (dropped == "")) [
        | inl e ↦ rw e refl
        | inr e ↦
            let held = positions-mem (has_parent dropped) 0 j evs ev (At-get_elem? evs j ev at) in
            ground (arith, held, split)
      ],
    )

projection-frame :
    (evs : List SessionEvent) (calls : List ℕ) (p : ℕ × ℕ) (j : ℕ) (ev : SessionEvent)
    → get_elem? evs j ≡ some ev
    → in_region (projection_region evs calls p) j ≡ false
    → get_elem? (collapse_pair evs p) (shifted p.1 j) ≡ some ev
unfolding collapse_pair
projection-frame evs calls p j ev at h =
    let (kept, childless) = outside_projection evs calls p j ev at h in
    get_elem?-relink _ _ (shifted p.1 j) (remove_at p.1 evs) ev
      (get_elem?-remove_at p.1 j evs kept ∙ at) childless

projected-ok :
    (evs out : List SessionEvent) (r : Result (ℕ × ℕ))
    → projected evs r ≡ ok out
    → (p : ℕ × ℕ) × (r ≡ ok p) × (collapse_pair evs p ≡ out)
projected-ok evs out (ok p) h = (p, refl, cc)
projected-ok evs out (err e) h = cc

projection_region-proven :
    (evs : List SessionEvent) (calls : List ℕ) (p : ℕ × ℕ)
    → (projection_region evs calls p).unproven ≡ false
unfolding projection_region
projection_region-proven evs calls p = refl

-- A removal that succeeds drops one of the later results of the step's correlation id, which has the content of the
-- first result. Its declared region is proven, and every event outside the region stays as it is, one place
-- earlier if it stood behind the dropped one.
pub apply_duplicate_projection_removal-frame :
    (host : Host) (evs : List SessionEvent) (step : PlanStep) (out : List SessionEvent)
    → apply_duplicate_projection_removal host evs step ≡ ok out
    → (first : ℕ) × (drop : ℕ) × IsDuplicateResult host evs step first drop
      × ((affected_region_duplicate_projection_removal host step evs).unproven ≡ false)
      × ((j : ℕ) (ev : SessionEvent)
          → get_elem? evs j ≡ some ev
          → in_region (affected_region_duplicate_projection_removal host step evs) j ≡ false
          → get_elem? out (shifted drop j) ≡ some ev)
unfolding apply_duplicate_projection_removal affected_region_duplicate_projection_removal
apply_duplicate_projection_removal-frame host evs step out h =
    let (p, chosen, made) = projected-ok evs out (projection_pair host evs step) h in
    let region = ap (region_of_pair evs (calls_of_correlation host evs step)) chosen in
    (
      p.0,
      p.1,
      projection_pair-IsDuplicateResult host evs step p chosen,
      ap (λ r. r.unproven) region
          ∙ projection_region-proven evs (calls_of_correlation host evs step) p,
      λ j ev at outside.
          subst (λ o. get_elem? o (shifted p.1 j) ≡ some ev) made
            (projection-frame evs (calls_of_correlation host evs step) p j ev at
              (subst (λ r. in_region r j ≡ false) region outside)),
    )
