-- ===== src/Repair/Recipes/Reunion/Order.antt =====
-- What a reunion does to the order of the events.
use sesslint.Prelude.{
  ℕ, ◌+◌, ◌-◌, ◌<◌, ◌≡◌, refl, sym, ap, ◌∙◌, String, false, ◌||◌, some, List, length, arith,
  get_elem?, pos, or-false,
}
use mathlib.Core.Path.{subst}
use mathlib.Core.List.{Perm}
use mathlib.Core.List.Perm
use sesslint.Session.{SessionEvent, Host}
use sesslint.Policy.Scope.{mem_ℤ, span}
use sesslint.Policy.Scope.Regions.{in_region}
use sesslint.Repair.Result.{Result, ok, err, >>=-eq-ok}
use sesslint.Repair.Steps.{PlanStep}
use sesslint.Repair.Recipes.Edits.{remove_at, insert_at, insert_at-perm, remove_at-perm}
use sesslint.Repair.Recipes.Moves.{moved, get_elem?-moved}
use sesslint.Repair.Recipes.Reunion.{
  correlation_of, calls_with, results_with, is_boundary, boundary_at, ends_of, boundaries_between,
  hints_at, only_boundary, ends_or_error, correlation_or_error, no_endpoint, move_boundary,
  reunion_of, apply_compaction_projection_reunion, unproven_span, region_of_ends,
  region_of_correlation, span_region, affected_region_compaction_projection_reunion,
}
use sesslint.Repair.Recipes.Reunion.Pair.{
  Holds, IsSplitPair, split_pair, ends_or_error-ok, correlation_or_error-ok, no_endpoint-ok,
}

-- What `reunion_of` has checked.
reunion_of-ok :
    (host : Host) (evs : List SessionEvent) (step : PlanStep) (found : ℕ × ℕ)
    → reunion_of host evs step ≡ ok found
    → (corr : String) × (ends : ℕ × ℕ) × (correlation_of host evs step ≡ some corr)
      × (ends_of (calls_with corr evs) (results_with corr evs) ≡ some ends)
      × (only_boundary (boundaries_between ends evs) ≡ ok found.0)
      × (found.1 ≡ ends.1)
unfolding reunion_of
reunion_of-ok host evs step found h =
    let (corr, named, h1) = >>=-eq-ok (correlation_or_error (correlation_of host evs step)) _ h in
    let (ends, paired, h2) =
      >>=-eq-ok (ends_or_error (ends_of (calls_with corr evs) (results_with corr evs))) _ h1 in
    let (hinted, e1, h3) =
      >>=-eq-ok (no_endpoint (hints_at host evs step ends.0 || hints_at host evs step ends.1) ends)
        _ h2 in
    let (inner, e2, h4) =
      >>=-eq-ok (no_endpoint (boundary_at evs hinted.0 || boundary_at evs hinted.1) hinted) _ h3 in
    let (b, bounded, h5) = >>=-eq-ok (only_boundary (boundaries_between inner evs)) _ h4 in
    let same : inner ≡ ends = no_endpoint-ok _ hinted inner e2 ∙ no_endpoint-ok _ ends hinted e1 in
    let made : ◌≡◌ {A = ℕ × ℕ} (b, inner.1) found = cc in
    (
      corr,
      ends,
      correlation_or_error-ok _ corr named,
      ends_or_error-ok _ ends paired,
      subst (λ e. only_boundary (boundaries_between e evs) ≡ ok found.0) same
          (subst (λ q. only_boundary (boundaries_between inner evs) ≡ ok q.0) made bounded),
      sym (ap (λ q. q.1) made) ∙ ap (λ e. e.1) same,
    )

move_boundary_at :
    (evs : List SessionEvent) (b hi : ℕ) (ev : SessionEvent)
    → get_elem? evs b ≡ some ev
    → move_boundary evs b hi ≡ insert_at hi ev (remove_at b evs)
unfolding move_boundary
move_boundary_at evs b hi ev at = rw (at, move_boundary) refl

move_boundary_lem :
    (evs : List SessionEvent) (b hi : ℕ)
    → Holds is_boundary evs b
    → b < hi
    → hi < length evs
    → ((j : ℕ) → get_elem? (move_boundary evs b hi) (moved b hi j) ≡ get_elem? evs j)
      × Perm (move_boundary evs b hi) evs
move_boundary_lem evs b hi (ev, at, is) low high = rw (move_boundary_at evs b hi ev at) (
  λ j. get_elem?-moved b hi j ev evs at low high,
  Perm.trans (insert_at-perm hi ev (remove_at b evs)) (remove_at-perm b ev evs at),
)

-- What lies outside the pair keeps its place.
moved-outside :
    (evs : List SessionEvent) (lo b hi j : ℕ)
    → lo < b
    → b < hi
    → in_region (span_region evs (lo, hi)) j ≡ false
    → moved b hi j ≡ j
unfolding span_region
moved-outside evs lo b hi j low high h =
    let outside =
      (or-false _ false (or-false (mem_ℤ (pos j) (span (pos lo) (hi + 1 - lo))) _ h).1).0 in
    ground arith

region_of_pair :
    (host : Host) (evs : List SessionEvent) (step : PlanStep) (corr : String) (ends : ℕ × ℕ) (b : ℕ)
    → correlation_of host evs step ≡ some corr
    → ends_of (calls_with corr evs) (results_with corr evs) ≡ some ends
    → only_boundary (boundaries_between ends evs) ≡ ok b
    → affected_region_compaction_projection_reunion host step evs ≡ span_region evs ends
unfolding affected_region_compaction_projection_reunion
region_of_pair host evs step corr ends b named paired bounded =
    ap (region_of_correlation evs) named
    ∙ ap (region_of_ends evs) paired
    ∙ ap (λ (r : Result ℕ). elim r [ err e ↦ unproven_span | ok c ↦ span_region evs ends ]) bounded

span_region-proven :
    (evs : List SessionEvent) (ends : ℕ × ℕ) → (span_region evs ends).unproven ≡ false
unfolding span_region
span_region-proven evs ends = refl

-- A reunion of a split pair: the boundary moves to behind the pair, which keeps all events and the order of
-- the others, and the region that the recipe declares is proven and holds all that changes its place.
pub record IsReunited (host : Host) (evs : List SessionEvent) (step : PlanStep)
    (out : List SessionEvent) : Type 0 where
  pub corr : String
  pub lo : ℕ
  pub b : ℕ
  pub hi : ℕ
  pub named : correlation_of host evs step ≡ some corr
  pub pair : IsSplitPair evs corr lo b hi
  pub same_events : Perm out evs
  pub placed : (j : ℕ) → get_elem? out (moved b hi j) ≡ get_elem? evs j
  pub proven : (affected_region_compaction_projection_reunion host step evs).unproven ≡ false
  pub outside :
      (j : ℕ)
      → in_region (affected_region_compaction_projection_reunion host step evs) j ≡ false
      → get_elem? out j ≡ get_elem? evs j

-- A reunion that succeeds moves one boundary event from between the only call and the only result of a
-- correlation id to the place behind both, keeps all events and the order of the others, and moves nothing
-- outside its declared region, which is proven.
pub apply_compaction_projection_reunion-frame :
    (host : Host) (evs : List SessionEvent) (step : PlanStep) (out : List SessionEvent)
    → apply_compaction_projection_reunion host evs step ≡ ok out
    → IsReunited host evs step out
unfolding apply_compaction_projection_reunion
apply_compaction_projection_reunion-frame host evs step out h =
    let (found, checked, made) = >>=-eq-ok (reunion_of host evs step) _ h in
    let (corr, ends, named, paired, bounded, high) = reunion_of-ok host evs step found checked in
    from_pair corr ends found.0 named paired bounded
      (ap (move_boundary evs found.0) (sym high) ∙ ok_inj made)
  where
    ok_inj : {a b : List SessionEvent} → ok a ≡ ok b → a ≡ b
    ok_inj e = cc

    from_pair :
        (corr : String) (ends : ℕ × ℕ) (b : ℕ)
        → correlation_of host evs step ≡ some corr
        → ends_of (calls_with corr evs) (results_with corr evs) ≡ some ends
        → only_boundary (boundaries_between ends evs) ≡ ok b
        → move_boundary evs b ends.1 ≡ out
        → IsReunited host evs step out
    from_pair corr ends b named paired bounded made =
        let split = split_pair evs corr ends b paired bounded in
        let (low, high, room) = split.between in
        let (placed, same) = move_boundary_lem evs b ends.1 split.boundary high room in
        let region = region_of_pair host evs step corr ends b named paired bounded in
        record {
          corr = corr;
          lo = ends.0;
          b = b;
          hi = ends.1;
          named = named;
          pair = split;
          same_events = subst (λ o. Perm o evs) made same;
          placed =
              λ j. subst (λ o. get_elem? o (moved b ends.1 j) ≡ get_elem? evs j) made (placed j);
          proven = ap (λ r. r.unproven) region ∙ span_region-proven evs ends;
          outside = λ j out_of_it.
              let still = moved-outside evs ends.0 b ends.1 j low high (rw region at out_of_it) in
              subst (λ k. get_elem? out k ≡ get_elem? evs j) still
                (subst (λ o. get_elem? o (moved b ends.1 j) ≡ get_elem? evs j) made (placed j));
        }
