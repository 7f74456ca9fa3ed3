-- ===== src/Repair/Recipes/Collapse/Frame.antt =====
-- What the collapse of a duplicate does to the events, and what it leaves alone.
use sesslint.Prelude.{
  ℕ, suc, ◌-◌, ◌≢◌, ◌≡◌, refl, sym, ◌==◌, Bool, true, false, not, ◌||◌, Option, none, some, List,
  [], ◌∷◌, length, if◌then◌else◌, arith, get_elem?, ltb, eqb, Bool-cases, inl, inr, ℤ, in_range,
  eq_iff, or-false, mem_ℕ, At-get_elem?, At-lt_length, All, All-append, and-true, ap, ◌∙◌,
}
use sesslint.Session.{SessionEvent, Host, content_fingerprint}
use sesslint.Policy.Scope.Regions.{in_region, in_ranges}
use sesslint.Repair.Result.{Refused, Result, ok, err}
use sesslint.Repair.Steps.{PlanStep}
use sesslint.Repair.Recipes.Edits.{
  remove_at, has_parent, is_boundary_kind, shifted, get_elem?-remove_at, length-remove_at,
  get_elem?-relink, IsRelinked, relink-IsRelinked, length-relink, positions-mem, mem_ℤ-map_pos,
}
use mathlib.Core.Path.{subst}
use sesslint.Repair.Recipes.Collapse.{
  is_duplicate, duplicate_at, first_duplicate, adjacent_from, pairs_around, target_of, chosen,
  chosen_around, chosen_for, duplicate_pair, id_at, collapse_pair, collapsed,
  apply_identical_duplicate_collapse, children_of, pair_region,
  affected_region_identical_duplicate_collapse,
}

-- What the pair's test has established.
pub record IsPair (host : Host) (evs : List SessionEvent) (keep drop : ℕ) : Type 0 where
  pub kept : SessionEvent
  pub dropped : SessionEvent
  pub kept_at : get_elem? evs keep ≡ some kept
  pub dropped_at : get_elem? evs drop ≡ some dropped
  pub same_kind : kept.kind ≡ dropped.kind
  pub not_boundary : is_boundary_kind kept.kind ≡ false
  pub same_content : content_fingerprint host kept ≡ content_fingerprint host dropped

duplicate_at-IsPair :
    (host : Host) (evs : List SessionEvent) (i j : ℕ)
    → duplicate_at host evs (i, j) ≡ true
    → IsPair host evs i j
unfolding is_duplicate
duplicate_at-IsPair host evs i j h = by_events (get_elem? evs i) (get_elem? evs j) refl refl h
  where
    both : Option SessionEvent → Option SessionEvent → Bool
    both o p = elim o [
      | none ↦ false
      | some e1 ↦ elim p [ none ↦ false | some e2 ↦ is_duplicate host e1 e2 ]
    ]

    by_events :
        (o p : Option SessionEvent)
        → get_elem? evs i ≡ o
        → get_elem? evs j ≡ p
        → both o p ≡ true
        → IsPair host evs i j
    by_events none p e1 e2 h = cc
    by_events (some e) none e1 e2 h = cc
    by_events (some e) (some d) e1 e2 h =
        let (kinds, content) = and-true _ _ h in
        let (same, plain) = and-true _ _ kinds in
        record {
          kept = e;
          dropped = d;
          kept_at = e1;
          dropped_at = e2;
          same_kind = (eq_iff e.kind d.kind).0 same;
          not_boundary = ground arith;
          same_content = (eq_iff _ _).0 content;
        }

-- Two neighbours.
abbrev IsNext : ℕ × ℕ → Type 0
IsNext (i, j) = j ≡ suc i

first_duplicate-IsPair :
    (host : Host) (evs : List SessionEvent) (ps : List (ℕ × ℕ)) (p : ℕ × ℕ)
    → All IsNext ps
    → first_duplicate host evs ps ≡ some p
    → (p.1 ≡ suc p.0) × IsPair host evs p.0 p.1
unfolding first_duplicate
first_duplicate-IsPair host evs [] p h e = cc
first_duplicate-IsPair host evs (q ∷ ps) p h e = elim (Bool-cases (duplicate_at host evs q)) [
  | inl d ↦ found d (rw d at e)
  | inr d ↦ first_duplicate-IsPair host evs ps p h.1 (rw d at e)
]
  where
    found :
        duplicate_at host evs q ≡ true → some q ≡ some p → (p.1 ≡ suc p.0) × IsPair host evs p.0 p.1
    found d same =
        let eq : q ≡ p = cc in
        subst (λ r. (r.1 ≡ suc r.0) × IsPair host evs r.0 r.1) eq
          (h.0, duplicate_at-IsPair host evs q.0 q.1 d)

adjacent_from-IsNext : (n : ℕ) (evs : List SessionEvent) → All IsNext (adjacent_from n evs)
unfolding adjacent_from
adjacent_from-IsNext n [] = tt
adjacent_from-IsNext n (e ∷ []) = tt
adjacent_from-IsNext n (e1 ∷ e2 ∷ es) = (refl, adjacent_from-IsNext (suc n) (e2 ∷ es))

pairs_around-IsNext : (i n : ℕ) → All IsNext (pairs_around i n)
unfolding pairs_around
pairs_around-IsNext i n = All-append IsNext _ _ (above (ltb (suc i) n)) (below (ltb 0 i) refl)
  where
    above : (b : Bool) → All IsNext (if b then (i, suc i) ∷ [] else [])
    above true = (refl, tt)
    above false = tt

    below : (b : Bool) → ltb 0 i ≡ b → All IsNext (if b then (i - 1, i) ∷ [] else [])
    below true e = (ground arith, tt)
    below false e = tt

chosen-ok :
    (o : Option (ℕ × ℕ)) (reason : Refused) (p : ℕ × ℕ) → chosen o reason ≡ ok p → o ≡ some p
chosen-ok none reason p h = cc
chosen-ok (some q) reason p h = cc

duplicate_pair-IsPair :
    (host : Host) (evs : List SessionEvent) (step : PlanStep) (p : ℕ × ℕ)
    → duplicate_pair host evs step ≡ ok p
    → (p.1 ≡ suc p.0) × IsPair host evs p.0 p.1
unfolding duplicate_pair
duplicate_pair-IsPair host evs step p h = elim (Bool-cases (ltb (length evs) 2)) [
  | inl e ↦ absurd (no_error (rw e at h))
  | inr e ↦ on_target (target_of step) (rw e at h)
]
  where
    no_error : {e : _} → ¬ (err e ≡ ok p)
    no_error e = cc

    on_position :
        (o : Option ℕ) → chosen_around host evs o ≡ ok p → (p.1 ≡ suc p.0) × IsPair host evs p.0 p.1
    on_position none h = cc
    on_position (some k) h =
        first_duplicate-IsPair host evs (pairs_around k (length evs)) p
          (pairs_around-IsNext k (length evs)) (chosen-ok _ _ p h)

    on_target :
        (o : Option ℤ) → chosen_for host evs o ≡ ok p → (p.1 ≡ suc p.0) × IsPair host evs p.0 p.1
    on_target none h =
        first_duplicate-IsPair host evs (adjacent_from 0 evs) p (adjacent_from-IsNext 0 evs)
          (chosen-ok _ _ p h)
    on_target (some z) h = on_position (in_range z (length evs)) h

-- What lies outside the region is neither dropped nor a child of the dropped event.
outside_pair :
    (evs : List SessionEvent) (p : ℕ × ℕ) (j : ℕ) (ev : SessionEvent)
    → get_elem? evs j ≡ some ev
    → in_region (pair_region evs p) j ≡ false
    → (eqb j p.1 ≡ false) × ((id_at evs p.1 == "" || not (has_parent (id_at evs p.1) ev)) ≡ true)
unfolding pair_region children_of
outside_pair evs p j ev at h =
    let dropped = id_at evs p.1 in
    let none_of : mem_ℕ j (p.0 ∷ p.1 ∷ children_of dropped evs) ≡ false =
      sym (mem_ℤ-map_pos j (p.0 ∷ p.1 ∷ children_of dropped evs))
      ∙ (or-false _ (in_ranges j (pair_region evs p).ranges) h).0 in
    (
      ground arith,
      elim (Bool-cases (dropped == "")) [
        | inl e ↦ rw e refl
        | inr e ↦
            let held = positions-mem (has_parent dropped) 0 j evs ev (At-get_elem? evs j ev at) in
            ground (arith, held)
      ],
    )

collapse_pair-frame :
    (evs : List SessionEvent) (p : ℕ × ℕ) (j : ℕ) (ev : SessionEvent)
    → get_elem? evs j ≡ some ev
    → in_region (pair_region evs p) j ≡ false
    → get_elem? (collapse_pair evs p) (shifted p.1 j) ≡ some ev
unfolding collapse_pair
collapse_pair-frame evs p j ev at h =
    let (kept, childless) = outside_pair evs p j ev at h in
    get_elem?-relink _ _ (shifted p.1 j) (remove_at p.1 evs) ev
      (get_elem?-remove_at p.1 j evs kept ∙ at) childless

collapsed-ok :
    (evs out : List SessionEvent) (r : Result (ℕ × ℕ))
    → collapsed evs r ≡ ok out
    → (p : ℕ × ℕ) × (r ≡ ok p) × (collapse_pair evs p ≡ out)
collapsed-ok evs out (ok p) h = (p, refl, cc)
collapsed-ok evs out (err e) h = cc

length-collapse_pair :
    (host : Host) (evs : List SessionEvent) (p : ℕ × ℕ)
    → IsPair host evs p.0 p.1
    → suc (length (collapse_pair evs p)) ≡ length evs
unfolding collapse_pair
length-collapse_pair host evs p is =
    let inside =
      At-lt_length 0 evs p.1 is.dropped (At-get_elem? evs p.1 is.dropped is.dropped_at) in
    ap suc (length-relink (id_at evs p.1) (id_at evs p.0) (remove_at p.1 evs))
    ∙ length-remove_at p.1 evs (omega arith)

-- Every event but the dropped one keeps its place, and all but its parent; a child of the dropped event
-- becomes one of the kept event.
collapse_pair-survivors :
    (host : Host) (evs : List SessionEvent) (p : ℕ × ℕ) (is : IsPair host evs p.0 p.1) (j : ℕ)
    (ev : SessionEvent)
    → get_elem? evs j ≡ some ev
    → j ≢ p.1
    → (ev' : SessionEvent) × (get_elem? (collapse_pair evs p) (shifted p.1 j) ≡ some ev')
      × IsRelinked is.dropped.id is.kept.id ev ev'
unfolding collapse_pair
collapse_pair-survivors host evs p is j ev at apart =
    let kept : eqb j p.1 ≡ false = ground arith in
    let old : id_at evs p.1 ≡ is.dropped.id = rw (id_at, is.dropped_at) refl in
    let new : id_at evs p.0 ≡ is.kept.id = rw (id_at, is.kept_at) refl in
    let (ev', there, same) =
      relink-IsRelinked (id_at evs p.1) (id_at evs p.0) (shifted p.1 j) (remove_at p.1 evs) ev
        (get_elem?-remove_at p.1 j evs kept ∙ at) in
    (
      ev',
      there,
      subst (λ o. IsRelinked o is.kept.id ev ev') old
          (subst (λ n. IsRelinked (id_at evs p.1) n ev ev') new same),
    )

-- The outcome of a collapse: one event goes, the later of two neighbours with one kind, which delimits no
-- segment, and one content. Every other event stands in the outcome, one place earlier if it stood behind
-- the removed one, and differs at most in its parent: a child of the removed event may become a child of
-- the kept one.
pub record IsDeduplicated (host : Host) (evs out : List SessionEvent) (keep : ℕ) : Type 0 where
  pub pair : IsPair host evs keep (suc keep)
  pub shorter : suc (length out) ≡ length evs
  pub survivors :
      (j : ℕ) (ev : SessionEvent)
      → get_elem? evs j ≡ some ev
      → j ≢ suc keep
      → (ev' : SessionEvent) × (get_elem? out (shifted (suc keep) j) ≡ some ev')
        × IsRelinked pair.dropped.id pair.kept.id ev ev'

collapse_pair-IsDeduplicated :
    (host : Host) (evs out : List SessionEvent) (keep : ℕ)
    → IsPair host evs keep (suc keep)
    → collapse_pair evs (keep, suc keep) ≡ out
    → IsDeduplicated host evs out keep
collapse_pair-IsDeduplicated host evs out keep is made =
    subst (λ o. IsDeduplicated host evs o keep) made
      (record {
        pair = is;
        shorter = length-collapse_pair host evs (keep, suc keep) is;
        survivors = collapse_pair-survivors host evs (keep, suc keep) is;
      })

-- A collapse removes one event, the later of two neighbours with one kind, which delimits no segment, and
-- one content; every other event keeps its place in the order and all but its parent, which may turn
-- from the removed event into the kept one. The declared region is proven, and every event outside the
-- region stays as it is.
pub apply_identical_duplicate_collapse-frame :
    (host : Host) (evs : List SessionEvent) (step : PlanStep) (out : List SessionEvent)
    → apply_identical_duplicate_collapse host evs step ≡ ok out
    → (keep : ℕ) × IsDeduplicated host evs out keep
      × ((affected_region_identical_duplicate_collapse host step evs).unproven ≡ false)
      × ((j : ℕ) (ev : SessionEvent)
          → get_elem? evs j ≡ some ev
          → in_region (affected_region_identical_duplicate_collapse host step evs) j ≡ false
          → get_elem? out (shifted (suc keep) j) ≡ some ev)
unfolding apply_identical_duplicate_collapse affected_region_identical_duplicate_collapse
apply_identical_duplicate_collapse-frame host evs step out h =
    let (p, chosen, made) = collapsed-ok evs out (duplicate_pair host evs step) h in
    let (next, is) = duplicate_pair-IsPair host evs step p chosen in
    (
      p.0,
      collapse_pair-IsDeduplicated host evs out p.0 (subst (λ k. IsPair host evs p.0 k) next is)
          (subst (λ k. collapse_pair evs (p.0, k) ≡ out) next made),
      rw chosen refl,
      λ j ev at outside.
          let same : get_elem? out (shifted p.1 j) ≡ some ev =
            subst (λ o. get_elem? o (shifted p.1 j) ≡ some ev) made
              (collapse_pair-frame evs p j ev at (rw chosen at outside)) in
          subst (λ k. get_elem? out (shifted k j) ≡ some ev) next same,
    )
