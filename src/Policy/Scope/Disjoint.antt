-- ===== src/Policy/Scope/Disjoint.antt =====
-- What a passed scope check proves about the events that a step reaches.
use sesslint.Prelude.{
  ℕ, suc, ◌≡◌, refl, ap, String, ◌==◌, Bool, true, false, not, ◌&&◌, ◌||◌, Option, none, some, List,
  [], ◌∷◌, arith, any, length, if◌then◌else◌, ℤ, pos, mem_ℕ, mem_text, mem_text-append, get_elem?,
  At, At-get_elem?, At-lt_length, Bool-cases, inl, inr, eq_iff, eq_refl, eqb_iff, eqb,
}
use sesslint.Session.{SessionEvent, Host}
use sesslint.Finding.{Finding, has_sl203}
use sesslint.Policy.SideEffects.{is_tool, is_call, is_result, extract_side_effects}
use sesslint.Policy.Ambiguity.Entries.{AmbiguousEvents}
use sesslint.Policy.Ambiguity.Find.{find_ambiguous_events}
use sesslint.Policy.Ambiguity.Settled.{IsSettled}
use sesslint.Policy.Ambiguity.Covers.{unambiguous-IsSettled, calls_of, results_of}
use sesslint.Policy.Scope.{
  AffectedRegion, Affected, mem_ℤ, all_indices, touched_ids, touched_indices, affected_of,
  is_affected, has_effects, check_region, check_answer, check_step_scope, scope_unproven, proven,
  or_found,
}
use sesslint.Policy.Scope.Regions.{in_region, mem_ℤ-all_indices}

-- The event `ev` at position `j` is reached: its position is covered, its id is named, or it shares
-- its id with an event at a covered position.
pub data Reaches (region : AffectedRegion) (evs : List SessionEvent) (j : ℕ) (ev : SessionEvent)
    : Type 0 where
  placed : in_region region j ≡ true → Reaches region evs j ev
  named : (ev.id == "") ≡ false → mem_text ev.id region.ids ≡ true → Reaches region evs j ev
  shared :
      (k : ℕ) (other : SessionEvent)
      → (ev.id == "") ≡ false
      → get_elem? evs k ≡ some other
      → in_region region k ≡ true
      → other.id ≡ ev.id
      → Reaches region evs j ev

or_right : (a b : Bool) → b ≡ true → (a || b) ≡ true
or_right true b h = refl
or_right false b h = h

touched_ids-mem :
    (affected : List ℤ) (i j : ℕ) (evs : List SessionEvent) (ev : SessionEvent)
    → At i evs j ev
    → (ev.id == "") ≡ false
    → mem_ℤ (pos j) affected ≡ true
    → mem_text ev.id (touched_ids affected i evs) ≡ true
unfolding touched_ids
touched_ids-mem affected i j [] ev at e h = elim at [ ]
touched_ids-mem affected i j (x ∷ evs) ev (inl (p, q)) e h = ground (arith, eq_refl ev.id)
touched_ids-mem affected i j (x ∷ evs) ev (inr at) e h =
    ground (arith, touched_ids-mem affected (suc i) j evs ev at e h)

touched_indices-mem :
    (ids : List String) (i j : ℕ) (evs : List SessionEvent) (ev : SessionEvent)
    → At i evs j ev
    → (ev.id == "") ≡ false
    → mem_text ev.id ids ≡ true
    → mem_ℕ j (touched_indices ids i evs) ≡ true
unfolding touched_indices
touched_indices-mem ids i j [] ev at e h = elim at [ ]
touched_indices-mem ids i j (x ∷ evs) ev (inl (p, q)) e h = ground arith
touched_indices-mem ids i j (x ∷ evs) ev (inr at) e h =
    ground (arith, touched_indices-mem ids (suc i) j evs ev at e h)

module _ (region : AffectedRegion) (evs : List SessionEvent) where
  covered :
      (j : ℕ) (ev : SessionEvent)
      → get_elem? evs j ≡ some ev
      → in_region region j ≡ true
      → mem_ℤ (pos j) (all_indices region (some (length evs))) ≡ true
  covered j ev at h =
      let inside = At-lt_length 0 evs j ev (At-get_elem? evs j ev at) in
      ground (arith, mem_ℤ-all_indices region (length evs) j)

  -- Every reached event is affected, by its position and by its id.
  reached-id :
      (j : ℕ) (ev : SessionEvent)
      → get_elem? evs j ≡ some ev
      → (ev.id == "") ≡ false
      → Reaches region evs j ev
      → mem_text ev.id (affected_of region evs).ids ≡ true
  unfolding affected_of
  reached-id j ev at e r = rw mem_text-append (among r)
    where
      given : List ℤ
      given = all_indices region (some (length evs))

      among :
          Reaches region evs j ev
          → (mem_text ev.id region.ids || mem_text ev.id (touched_ids given 0 evs)) ≡ true
      among (placed h) =
          ground (
            arith,
            touched_ids-mem given 0 j evs ev (At-get_elem? evs j ev at) e (covered j ev at h),
          )
      among (named _ h) = ground arith
      among (shared k other _ there h same) = ground (
        arith,
        touched_ids-mem given 0 k evs other (At-get_elem? evs k other there) (rw same e)
            (covered k other there h),
      )

  reached-index :
      (j : ℕ) (ev : SessionEvent)
      → get_elem? evs j ≡ some ev
      → Reaches region evs j ev
      → is_affected (affected_of region evs) j ≡ true
  unfolding affected_of
  reached-index j ev at (placed h) = ground (arith, covered j ev at h)
  reached-index j ev at (named e h) = or_right _ _ (
      touched_indices-mem _ 0 j evs ev (At-get_elem? evs j ev at) e
        (reached-id j ev at e (named e h)))
  reached-index j ev at (shared k other e there h same) = or_right _ _ (
      touched_indices-mem _ 0 j evs ev (At-get_elem? evs j ev at) e
        (reached-id j ev at e (shared k other e there h same)))

any_not-mem_ℕ :
    (p : ℕ → Bool) (j : ℕ) (xs : List ℕ) → any p xs ≡ false → p j ≡ true → mem_ℕ j xs ≡ false
any_not-mem_ℕ p j [] h k = refl
any_not-mem_ℕ p j (x ∷ xs) h k = elim (Bool-cases (eqb j x)) [
  | inl e ↦ absurd (ground (arith, ap p ((eqb_iff j x).0 e)))
  | inr e ↦ ground (arith, any_not-mem_ℕ p j xs)
]

any_not-mem_text :
    (p : String → Bool) (s : String) (xs : List String)
    → any p xs ≡ false
    → mem_text s xs ≡ true
    → p s ≡ false
any_not-mem_text p s [] h k = cc
any_not-mem_text p s (x ∷ xs) h k = elim (Bool-cases (s == x)) [
  | inl e ↦ ground (arith, ap p ((eq_iff s x).0 e))
  | inr e ↦ ground (arith, any_not-mem_text p s xs)
]

has_effects-At :
    (host : Host) (a : Affected) (i j : ℕ) (evs : List SessionEvent) (ev : SessionEvent)
    → At i evs j ev
    → has_effects host a i evs ≡ false
    → is_affected a j ≡ true
    → (not (is_tool ev) || extract_side_effects host ev == "none") ≡ true
unfolding has_effects
has_effects-At host a i j [] ev at h k = elim at [ ]
has_effects-At host a i j (x ∷ evs) ev (inl (p, q)) h k = rw (← q) (no_effects (rw (← p) at k))
  where
    no_effects :
        is_affected a i ≡ true → (not (is_tool x) || extract_side_effects host x == "none") ≡ true
    no_effects k = ground arith
has_effects-At host a i j (x ∷ evs) ev (inr at) h k =
    has_effects-At host a (suc i) j evs ev at (ground arith) k

no_refusal :
    (a b c : Bool)
    → (if a
        then scope_unproven
        else if b
        then scope_unproven
        else if c
        then scope_unproven
        else proven).0
      ≡ true
    → (a ≡ false) × (b ≡ false) × (c ≡ false)
no_refusal a b c h = ground arith

-- What a check that passed has established.
check_region_passed :
    (host : Host) (evs : List SessionEvent) (region : AffectedRegion) (excludes : Bool)
    (amb : AmbiguousEvents)
    → (check_region host evs region excludes amb).0 ≡ true
    → (any (is_affected (affected_of region evs)) amb.indices ≡ false)
      × (any (λ s. mem_text s amb.ids) (affected_of region evs).ids ≡ false)
      × ((has_effects host (affected_of region evs) 0 evs && not excludes) ≡ false)
unfolding check_region
check_region_passed host evs region excludes amb h =
    no_refusal (any (is_affected (affected_of region evs)) amb.indices)
      (any (λ s. mem_text s amb.ids) (affected_of region evs).ids)
      (has_effects host (affected_of region evs) 0 evs && not excludes) h

-- An event that the region reaches is not ambiguous, and has no side effects if it is a tool event,
-- unless the recipe excludes dependence on execution.
pub check_region-IsDisjoint :
    (host : Host) (evs : List SessionEvent) (region : AffectedRegion) (excludes : Bool)
    (amb : AmbiguousEvents) (j : ℕ) (ev : SessionEvent)
    → (check_region host evs region excludes amb).0 ≡ true
    → get_elem? evs j ≡ some ev
    → Reaches region evs j ev
    → (mem_ℕ j amb.indices ≡ false)
      × ((ev.id == "" || not (mem_text ev.id amb.ids)) ≡ true)
      × ((not (is_tool ev) || extract_side_effects host ev == "none" || excludes) ≡ true)
check_region-IsDisjoint host evs region excludes amb j ev h at r =
    let a = affected_of region evs in
    let (free, unnamed, harmless) = check_region_passed host evs region excludes amb h in
    let inside = reached-index region evs j ev at r in
    (
      any_not-mem_ℕ (is_affected a) j amb.indices free inside,
      elim (Bool-cases (ev.id == "")) [
        | inl e ↦ rw e
        | inr e ↦ ground (
          arith,
          any_not-mem_text (λ s. mem_text s amb.ids) ev.id a.ids unnamed
              (reached-id region evs j ev at e r),
        )
      ],
      elim (Bool-cases excludes) [
        | inl x ↦ ground arith
        | inr x ↦ ground (
          arith,
          has_effects-At host a 0 j evs ev (At-get_elem? evs j ev at) (ground arith) inside,
        )
      ],
    )

passed_both :
    (u s : Bool) (r : Bool × Option String)
    → (if u then scope_unproven else if s then scope_unproven else r).0 ≡ true
    → (u ≡ false) × (s ≡ false) × (r.0 ≡ true)
passed_both true s r h = cc
passed_both false true r h = cc
passed_both false false r h = (refl, refl, h)

check_answer_passed :
    (host : Host) (evs : List SessionEvent) (answer : Option AffectedRegion) (fs : List Finding)
    (excludes : Bool) (ambiguous : Option AmbiguousEvents)
    → (check_answer host evs answer fs excludes ambiguous).0 ≡ true
    → (region : AffectedRegion) × (answer ≡ some region)
      × (region.unproven ≡ false)
      × (has_sl203 fs ≡ false)
      × ((check_region host evs region excludes (or_found host evs fs ambiguous)).0 ≡ true)
unfolding check_answer
check_answer_passed host evs none fs excludes ambiguous h = cc
check_answer_passed host evs (some region) fs excludes ambiguous h =
    let (sure, clean, passed) =
      passed_both region.unproven (has_sl203 fs)
        (check_region host evs region excludes (or_found host evs fs ambiguous)) h in
    (region, refl, sure, clean, passed)

-- The check of a step passes only if its recipe has a region function, which answers with a proven
-- region, no finding is SL203, and the region passes against the ambiguous events.
pub check_step_scope_passed :
    {Step : Type 0} (host : Host) (step : Step) (evs : List SessionEvent)
    (region_fn : Option (Step → List SessionEvent → Option AffectedRegion)) (fs : List Finding)
    (excludes : Bool) (ambiguous : Option AmbiguousEvents)
    → (check_step_scope host step evs region_fn fs excludes ambiguous).0 ≡ true
    → (f : Step → List SessionEvent → Option AffectedRegion) × (region : AffectedRegion)
      × (region_fn ≡ some f)
      × (f step evs ≡ some region)
      × (region.unproven ≡ false)
      × (has_sl203 fs ≡ false)
      × ((check_region host evs region excludes (or_found host evs fs ambiguous)).0 ≡ true)
unfolding check_step_scope
check_step_scope_passed host step evs none fs excludes ambiguous h = cc
check_step_scope_passed host step evs (some f) fs excludes ambiguous h =
    let (region, answered, sure, clean, passed) =
      check_answer_passed host evs (f step evs) fs excludes ambiguous h in
    (f, region, refl, answered, sure, clean, passed)

-- A step that passes the check against the session's own ambiguous events reaches settled tool
-- events alone: the calls and results of such an event's correlation id are settled.
pub check_step_scope-IsSettled :
    {Step : Type 0} (host : Host) (step : Step) (evs : List SessionEvent)
    (f : Step → List SessionEvent → Option AffectedRegion) (fs : List Finding) (excludes : Bool)
    (region : AffectedRegion) (j : ℕ) (ev : SessionEvent)
    → (check_step_scope host step evs (some f) fs excludes none).0 ≡ true
    → f step evs ≡ some region
    → get_elem? evs j ≡ some ev
    → Reaches region evs j ev
    → (is_call ev || is_result ev) ≡ true
    → (corr : String) × (ev.correlation_id ≡ some corr)
      × IsSettled host (calls_of host corr evs) (results_of host corr evs)
unfolding check_step_scope
check_step_scope-IsSettled host step evs f fs excludes region j ev h e at r k =
    let (found, answered, sure, clean, passed) =
      check_answer_passed host evs (f step evs) fs excludes none h in
    let same : found ≡ region = ground arith in
    let own = find_ambiguous_events host evs fs in
    let (free, _, _) =
      check_region-IsDisjoint host evs region excludes own j ev (rw same at passed) at r in
    unambiguous-IsSettled host evs fs j ev at k free
