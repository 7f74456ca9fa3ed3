-- ===== src/Repair/Recipes/Restore/Unique.antt =====
-- The result of `apply_proven_unique_parent_restore` (repair/recipes_conservative.py).
use sesslint.Prelude.{
  ℕ, zero, suc, ◌+◌, ◌<◌, ◌≡◌, ◌≢◌, refl, sym, ap, ◌∙◌, inl, inr, String, ◌==◌, Bool, true, false,
  ◌&&◌, not, Option, none, some, List, [], ◌∷◌, ℤ, pos, negsuc, ◌+ℤ◌, ltb_ℤ, get_elem?, take, any,
  arith, eq_iff, Bool-cases, Option-cases, eqb_iff, eqb, mem_ℕ, or-false,
}
use sesslint.Session.{SessionEvent, Host}
use sesslint.Checks.Graph.Candidates.{
  find_qualifying_parent_candidates, qualifying_from, is_qualifying_parent_candidate,
  same_compaction_segment, is_qualified, same_branch, strictly_between, is_boundary, min_ℤ, max_ℤ,
}
use sesslint.Repair.Result.{Result, ok, err}
use sesslint.Repair.Steps.{PlanStep}
use sesslint.Repair.Recipes.Restore.{
  apply_proven_unique_parent_restore, wanted_parent, set_parent, winner, restore_target, target_in,
  restore_at, restore_event, restore_from, restore_to,
}

-- The integers strictly between two that differ by at most one: none.
narrow :
    (low high z : ℤ) → ltb_ℤ (low +ℤ pos 1) high ≡ false → (ltb_ℤ low z && ltb_ℤ z high) ≡ false
narrow (pos a) (pos b) (pos c) h = ground arith
narrow (pos a) (pos b) (negsuc c) h = ground arith
narrow (pos a) (negsuc b) (pos c) h = ground arith
narrow (pos a) (negsuc b) (negsuc c) h = ground arith
narrow (negsuc a) (pos b) (pos c) h = ground arith
narrow (negsuc a) (pos b) (negsuc c) h = ground arith
narrow (negsuc a) (negsuc b) (pos c) h = ground arith
narrow (negsuc a) (negsuc b) (negsuc c) h = ground arith

any-false :
    (p : SessionEvent → Bool) (evs : List SessionEvent) (m : ℕ) (ev : SessionEvent)
    → any p evs ≡ false
    → get_elem? evs m ≡ some ev
    → p ev ≡ false
any-false p [] m ev h g = cc
any-false p (e ∷ es) zero ev h g = (ap p (sym (some_inj e ev g))) ∙ (or-false (p e) _ h).0
  where
    some_inj : (a b : SessionEvent) → some a ≡ some b → a ≡ b
    some_inj a b q = cc
any-false p (e ∷ es) (suc m) ev h g = any-false p es m ev (or-false (p e) _ h).1 g

-- Two events in one segment have no compaction boundary strictly between them.
segment-confined :
    (evs : List SessionEvent) (a b : SessionEvent) (m : ℕ) (ev : SessionEvent)
    → same_compaction_segment evs a b ≡ true
    → get_elem? evs m ≡ some ev
    → is_boundary ev ≡ true
    → strictly_between a.seq b.seq ev.seq ≡ false
unfolding same_compaction_segment
segment-confined evs a b m ev h g k =
    elim (Bool-cases (ltb_ℤ (min_ℤ a.seq b.seq +ℤ pos 1) (max_ℤ a.seq b.seq))) [
      | inr e ↦ narrow (min_ℤ a.seq b.seq) (max_ℤ a.seq b.seq) ev.seq e
      | inl e ↦
          let quiet : any
                (λ (x : SessionEvent). strictly_between a.seq b.seq x.seq && is_boundary x) evs
              ≡ false =
            not_true _ (rw e at h) in
          and-false _ _ (any-false _ evs m ev quiet g) k
    ]
  where
    not_true : (b : Bool) → not b ≡ true → b ≡ false
    not_true b h = ground arith

    and-false : (a b : Bool) → (a && b) ≡ false → b ≡ true → a ≡ false
    and-false a b h k = ground arith

-- What a qualifying candidate is.
pub record IsParentFor (evs : List SessionEvent) (child : SessionEvent) (wanted : String)
    (c : SessionEvent) : Type 0 where
  pub named : c.id ≡ wanted
  pub other : c.id ≢ child.id
  pub branch : same_branch c.branch_id child.branch_id ≡ true
  pub confined :
      (m : ℕ) (ev : SessionEvent)
      → get_elem? evs m ≡ some ev
      → is_boundary ev ≡ true
      → strictly_between c.seq child.seq ev.seq ≡ false

abbrev qualified : List SessionEvent → SessionEvent → String → SessionEvent → Bool
qualified evs child wanted c = is_qualified (is_qualifying_parent_candidate c child evs wanted)

qualified-tests :
    (evs : List SessionEvent) (child : SessionEvent) (wanted : String) (c : SessionEvent)
    → qualified evs child wanted c ≡ true
    → (c.id == child.id ≡ false)
      × (c.id == wanted ≡ true)
      × (same_branch c.branch_id child.branch_id ≡ true)
      × (same_compaction_segment evs c child ≡ true)
unfolding is_qualifying_parent_candidate
qualified-tests evs child wanted c h = ground arith

qualified-IsParentFor :
    (evs : List SessionEvent) (child : SessionEvent) (wanted : String) (c : SessionEvent)
    → qualified evs child wanted c ≡ true
    → IsParentFor evs child wanted c
qualified-IsParentFor evs child wanted c h =
    let t = qualified-tests evs child wanted c h in
    record {
      named = (eq_iff c.id wanted).0 t.1;
      other = λ e. cc ((eq_iff c.id child.id).1 e, t.0);
      branch = t.2;
      confined = λ m ev g b. segment-confined evs c child m ev t.3 g b;
    }

module _ (evs : List SessionEvent) (child : SessionEvent) (wanted : String) where
  qualifying_sound :
      (i : ℕ) (cs : List SessionEvent) (j : ℕ)
      → mem_ℕ j (qualifying_from i cs child evs wanted) ≡ true
      → (k : ℕ) × (c : SessionEvent) × (i + k ≡ j)
        × (get_elem? cs k ≡ some c)
        × (qualified evs child wanted c ≡ true)
  unfolding qualifying_from
  qualifying_sound i [] j h = cc
  qualifying_sound i (c ∷ cs) j h = elim (Bool-cases (qualified evs child wanted c)) [
    | inl e ↦ elim (Bool-cases (eqb j i)) [
      | inl here ↦ (0, c, ground arith, refl, e)
      | inr off ↦
          let rest : mem_ℕ j (qualifying_from (suc i) cs child evs wanted) ≡ true =
            not_here j i _ off (rw e at h) in
          let (k, d, p, g, q) = qualifying_sound (suc i) cs j rest in (suc k, d, omega arith, g, q)
    ]
    | inr e ↦
        let (k, d, p, g, q) = qualifying_sound (suc i) cs j (rw e at h) in
        (suc k, d, omega arith, g, q)
  ]
    where
      not_here :
          (j i : ℕ) (xs : List ℕ) → eqb j i ≡ false → mem_ℕ j (i ∷ xs) ≡ true → mem_ℕ j xs ≡ true
      not_here j i xs off m = ground arith

  qualifying_complete :
      (i : ℕ) (cs : List SessionEvent) (k : ℕ) (c : SessionEvent)
      → get_elem? cs k ≡ some c
      → qualified evs child wanted c ≡ true
      → mem_ℕ (i + k) (qualifying_from i cs child evs wanted) ≡ true
  unfolding qualifying_from
  qualifying_complete i [] k c g q = cc
  qualifying_complete i (d ∷ cs) zero c g q =
      let same : d ≡ c = head_eq d c g in
      let good : qualified evs child wanted d ≡ true = ap (qualified evs child wanted) same ∙ q in
      rw good (ground arith)
    where
      head_eq : (a b : SessionEvent) → some a ≡ some b → a ≡ b
      head_eq a b e = cc
  qualifying_complete i (d ∷ cs) (suc k) c g q =
      let later : mem_ℕ (suc i + k) (qualifying_from (suc i) cs child evs wanted) ≡ true =
        qualifying_complete (suc i) cs k c g q in
      let same : suc i + k ≡ i + suc k = omega arith in
      elim (Bool-cases (qualified evs child wanted d)) [
        | inl e ↦
            rw e
              (ground (arith, ap (λ n. mem_ℕ n (qualifying_from (suc i) cs child evs wanted)) same))
        | inr e ↦
            rw e
              (ap (λ n. mem_ℕ n (qualifying_from (suc i) cs child evs wanted)) (sym same) ∙ later)
      ]

get_elem?-take :
    (n k : ℕ) (evs : List SessionEvent) (c : SessionEvent)
    → get_elem? (take n evs) k ≡ some c
    → (k < n) × (get_elem? evs k ≡ some c)
get_elem?-take zero k evs c h = cc
get_elem?-take (suc n) k [] c h = cc
get_elem?-take (suc n) zero (e ∷ evs) c h = (omega arith, h)
get_elem?-take (suc n) (suc k) (e ∷ evs) c h =
    let r = get_elem?-take n k evs c h in (omega arith, r.1)

take-get_elem? :
    (n k : ℕ) (evs : List SessionEvent) (c : SessionEvent)
    → k < n
    → get_elem? evs k ≡ some c
    → get_elem? (take n evs) k ≡ some c
take-get_elem? zero k evs c l h = absurd (omega arith)
take-get_elem? (suc n) k [] c l h = h
take-get_elem? (suc n) zero (e ∷ evs) c l h = h
take-get_elem? (suc n) (suc k) (e ∷ evs) c l h = take-get_elem? n k evs c (omega arith) h

any-none :
    (p : SessionEvent → Bool) (evs : List SessionEvent)
    → ((m : ℕ) (ev : SessionEvent) → get_elem? evs m ≡ some ev → p ev ≡ false)
    → any p evs ≡ false
any-none p [] h = refl
any-none p (e ∷ es) h = rw (h 0 e refl) (any-none p es (λ m ev g. h (suc m) ev g))

quiet-segment :
    (evs : List SessionEvent) (a b : SessionEvent)
    → any (λ (x : SessionEvent). strictly_between a.seq b.seq x.seq && is_boundary x) evs ≡ false
    → same_compaction_segment evs a b ≡ true
unfolding same_compaction_segment
quiet-segment evs a b h =
    elim (Bool-cases (ltb_ℤ (min_ℤ a.seq b.seq +ℤ pos 1) (max_ℤ a.seq b.seq))) [
      | inr e ↦ rw e refl
      | inl e ↦ rw e (rw h refl)
    ]

tests-qualified :
    (evs : List SessionEvent) (child : SessionEvent) (wanted : String) (c : SessionEvent)
    → c.id == "" ≡ false
    → c.id == child.id ≡ false
    → c.id == wanted ≡ true
    → same_branch c.branch_id child.branch_id ≡ true
    → same_compaction_segment evs c child ≡ true
    → qualified evs child wanted c ≡ true
unfolding is_qualifying_parent_candidate
tests-qualified evs child wanted c a b d e f = rw a (rw b (rw d (rw e (rw f refl))))

calm : (a b : Bool) → (b ≡ true → a ≡ false) → (a && b) ≡ false
calm true true f = f refl
calm true false f = refl
calm false b f = refl

not_same : (s t : String) → s ≢ t → s == t ≡ false
not_same s t n = elim (Bool-cases (s == t)) [ inl e ↦ absurd (n ((eq_iff s t).0 e)) | inr e ↦ e ]

IsParentFor-qualified :
    (evs : List SessionEvent) (child : SessionEvent) (wanted : String) (c : SessionEvent)
    → wanted == "" ≡ false
    → IsParentFor evs child wanted c
    → qualified evs child wanted c ≡ true
IsParentFor-qualified evs child wanted c full h =
    tests-qualified evs child wanted c (ap (λ s. s == "") h.named ∙ full)
      (not_same c.id child.id h.other) ((eq_iff c.id wanted).1 h.named) h.branch
      (quiet-segment evs c child (any-none _ evs (λ m ev g. calm _ _ (h.confined m ev g))))

-- What a restored parent is: the only earlier event that qualifies.
pub record IsRestored (host : Host) (evs : List SessionEvent) (step : PlanStep)
    (out : List SessionEvent) : Type 0 where
  pub target : ℕ
  pub child : SessionEvent
  pub wanted : String
  pub place : ℕ
  pub parent : SessionEvent
  pub at_target : target_in evs (restore_target step) ≡ some target
  pub child_at : get_elem? evs target ≡ some child
  pub asked : wanted_parent host step child ≡ some wanted
  pub earlier : place < target
  pub parent_at : get_elem? evs place ≡ some parent
  pub fits : IsParentFor evs child wanted parent
  pub only :
      (k : ℕ) (c : SessionEvent)
      → k < target
      → get_elem? evs k ≡ some c
      → IsParentFor evs child wanted c
      → k ≡ place
  pub result : out ≡ set_parent target wanted evs

winner-single :
    (evs : List SessionEvent) (js : List ℕ) (parent : String)
    → winner evs js ≡ ok parent
    → (j : ℕ) × (c : SessionEvent) × (js ≡ j ∷ [])
      × (get_elem? evs j ≡ some c)
      × (c.id ≡ parent)
      × (c.id == "" ≡ false)
unfolding winner
winner-single evs [] parent h = cc
winner-single evs (j ∷ k ∷ ks) parent h = cc
winner-single evs (j ∷ []) parent h = elim (Option-cases (get_elem? evs j)) [
  | inl n ↦ cc (rw (n, winner) at h)
  | inr (c, n) ↦ elim (Bool-cases (c.id == "")) [
    | inl e ↦ cc (rw e at (rw (n, winner) at h))
    | inr e ↦ (j, c, refl, n, ok_inj _ _ (rw e at (rw (n, winner) at h)), e)
  ]
]
  where
    ok_inj : (s t : String) → ok s ≡ ok t → s ≡ t
    ok_inj s t e = cc

module _ (host : Host) (evs : List SessionEvent) (step : PlanStep) (out : List SessionEvent) where
  from_winner :
      (t : ℕ) (child : SessionEvent) (wanted : String)
      → target_in evs (restore_target step) ≡ some t
      → get_elem? evs t ≡ some child
      → wanted_parent host step child ≡ some wanted
      → (r : Result String) → winner evs (find_qualifying_parent_candidates evs child t wanted) ≡ r
      → restore_to evs t r ≡ ok out
      → IsRestored host evs step out
  unfolding find_qualifying_parent_candidates
  from_winner t child wanted a b c (err e) w h = cc
  from_winner t child wanted a b c (ok parent) w h =
      let js = find_qualifying_parent_candidates evs child t wanted in
      let (j, p, single, found, name, full) = winner-single evs js parent w in
      let (k, q, place, taken, good) =
        qualifying_sound evs child wanted 0 (take t evs) j
          (ap (mem_ℕ j) single ∙ ground (arith, eqb_iff j j)) in
      let spot : k ≡ j = omega arith in
      let near = get_elem?-take t j evs q (ap (get_elem? (take t evs)) (sym spot) ∙ taken) in
      let fits = qualified-IsParentFor evs child wanted q good in
      let same : q ≡ p = some_eq q p (sym near.1 ∙ found) in
      record {
        target = t;
        child = child;
        wanted = wanted;
        place = j;
        parent = q;
        at_target = a;
        child_at = b;
        asked = c;
        earlier = near.0;
        parent_at = near.1;
        fits = fits;
        only = λ m d l g i.
            let full_wanted : wanted == "" ≡ false =
              ap (λ s. s == "") (sym fits.named ∙ ap (λ (e : SessionEvent). e.id) same) ∙ full in
            let listed =
              qualifying_complete evs child wanted 0 (take t evs) m d (take-get_elem? t m evs d l g)
                (IsParentFor-qualified evs child wanted d full_wanted i) in
            let zero_m : 0 + m ≡ m = omega arith in
            let here : mem_ℕ m (j ∷ []) ≡ true =
              ap (mem_ℕ m) (sym single) ∙ (ap (λ n. mem_ℕ n js) (sym zero_m) ∙ listed) in
            ground (arith, here, eqb_iff m j);
        result =
            sym (ok_eq _ _ h)
            ∙ ap (λ s. set_parent t s evs)
                (sym name ∙ (sym (ap (λ (e : SessionEvent). e.id) same) ∙ fits.named));
      }
    where
      some_eq : (a b : SessionEvent) → some a ≡ some b → a ≡ b
      some_eq a b e = cc

      ok_eq : (a b : List SessionEvent) → ok a ≡ ok b → a ≡ b
      ok_eq a b e = cc

  from_wanted :
      (t : ℕ) (child : SessionEvent)
      → target_in evs (restore_target step) ≡ some t
      → get_elem? evs t ≡ some child
      → (o : Option String) → wanted_parent host step child ≡ o
      → restore_from evs t child o ≡ ok out
      → IsRestored host evs step out
  from_wanted t child a b none c h = cc
  from_wanted t child a b (some wanted) c h = from_winner t child wanted a b c _ refl h

  from_child :
      (t : ℕ)
      → target_in evs (restore_target step) ≡ some t
      → (o : Option SessionEvent) → get_elem? evs t ≡ o
      → restore_event host evs step t o ≡ ok out
      → IsRestored host evs step out
  from_child t a none b h = cc
  from_child t a (some child) b h = from_wanted t child a b _ refl h

  from_target :
      (o : Option ℕ)
      → target_in evs (restore_target step) ≡ o
      → restore_at host evs step o ≡ ok out
      → IsRestored host evs step out
  from_target none a h = cc
  from_target (some t) a h = from_child t a _ refl h

-- A restored session gives the target the parent that was asked for, and nothing else changes: that
-- parent is the id of an earlier event of the same branch with no compaction boundary strictly
-- between the two by their sequence numbers, and no other earlier event is such a one.
pub apply_proven_unique_parent_restore-IsRestored :
    (host : Host) (evs : List SessionEvent) (step : PlanStep) (out : List SessionEvent)
    → apply_proven_unique_parent_restore host evs step ≡ ok out
    → IsRestored host evs step out
apply_proven_unique_parent_restore-IsRestored host evs step out h =
    from_target host evs step out (target_in evs (restore_target step)) refl
      (unfold apply_proven_unique_parent_restore in h)
