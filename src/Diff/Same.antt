-- ===== src/Diff/Same.antt =====
-- What two sessions without a difference by `diff_events` (diff.py) have in common.
use mathlib.Core.List.{Perm, append-nil}
use mathlib.Core.List.Perm
use mathlib.Core.Path.{subst}
use sesslint.Prelude.{
  ℕ, zero, suc, ◌+◌, String, ◌==◌, ◌≡◌, ◌≤◌, ◌<◌, refl, sym, ap, ◌∙◌, ◌⊎◌, inl, inr, true, Option,
  none, some, List, [], ◌∷◌, ◌++◌, mem_ℕ, All, All-map_of, arith, Bool-cases, map, length,
  get_elem?, eqb, ltb, eq_iff, enumerate_from,
}
use sesslint.Prelude.Sort.{sort, sort-perm, IsSorted, sort-IsSorted, All-sort}
use sesslint.Session.{SessionEvent}
use sesslint.Diff.Data.{Delta, Codec, le_delta}
use sesslint.Diff.Pairing.{Indexed, Pairs, align}
use sesslint.Diff.Emit.{
  diff_events, emitted, compare_pair, compare_pairs, reordered, le_pair, same_parent, removed_delta,
}
use sesslint.Diff.Matching.{side_a, side_b, indices, Among}
use sesslint.Diff.Ranges.{
  NonDecreasing, range_from, sorted-range, range_from-mem, length-range_from,
}
use sesslint.Diff.Aligned.{align-partition, align-Among}

nil_of_append : {A : Type 0} (xs ys : List A) → (xs ++ ys) ≡ [] → (xs ≡ []) × (ys ≡ [])
nil_of_append [] ys h = (refl, h)
nil_of_append (x ∷ xs) ys h = cc

nil_of_sort : (ds : List Delta) → sort le_delta ds ≡ [] → ds ≡ []
nil_of_sort ds h = sym (Perm.nil-eq (subst (λ xs. Perm xs ds) h (sort-perm le_delta ds)))

nil_of_map : {A B : Type 0} (f : A → B) (xs : List A) → map f xs ≡ [] → xs ≡ []
nil_of_map f [] h = refl
nil_of_map f (x ∷ xs) h = cc

indices-enumerate_from :
    (n : ℕ) (evs : List SessionEvent) → indices (enumerate_from n evs) ≡ range_from n (length evs)
indices-enumerate_from n [] = refl
indices-enumerate_from n (ev ∷ evs) = ap (λ ks. n ∷ ks) (indices-enumerate_from (suc n) evs)

same_parent-eq : (p q : Option String) → same_parent p q ≡ true → p ≡ q
same_parent-eq none none h = refl
same_parent-eq none (some t) h = cc
same_parent-eq (some s) none h = cc
same_parent-eq (some s) (some t) h = ap some ((eq_iff s t).0 h)

enumerated_from :
    (n : ℕ) (evs : List SessionEvent) (x : Indexed)
    → Among x (enumerate_from n evs)
    → (k : ℕ) × (n + k ≡ x.0) × (get_elem? evs k ≡ some x.1)
enumerated_from n [] x h = elim h [ ]
enumerated_from n (ev ∷ evs) x (inl e) =
    (0, ground (arith, ap (λ (w : Indexed). w.0) e), ap (λ (w : Indexed). some w.1) e)
enumerated_from n (ev ∷ evs) x (inr h) =
    let (k, p, q) = enumerated_from (suc n) evs x h in (suc k, omega arith, q)

enumerated :
    (evs : List SessionEvent) (x : Indexed)
    → Among x (enumerate_from 0 evs)
    → get_elem? evs x.0 ≡ some x.1
enumerated evs x h =
    let (k, p, q) = enumerated_from 0 evs x h in
    subst (λ j. get_elem? evs j ≡ some x.1) (omega arith) q

get_elem?-lt :
    (evs : List SessionEvent) (i : ℕ) (a : SessionEvent) → get_elem? evs i ≡ some a → i < length evs
get_elem?-lt [] i a h = cc
get_elem?-lt (ev ∷ evs) zero a h = omega arith
get_elem?-lt (ev ∷ evs) (suc i) a h = omega (arith, get_elem?-lt evs i a h)

length-indices : (ps : Pairs) → length (indices (side_a ps)) ≡ length (indices (side_b ps))
length-indices [] = refl
length-indices (p ∷ ps) = ap suc (length-indices ps)

module _ (codec : Codec) where
  -- Two events that `diff_events` cannot tell apart.
  abbrev pub Alike : SessionEvent → SessionEvent → Type 0
  Alike a b =
      (a.kind ≡ b.kind)
      × (a.parent_id ≡ b.parent_id)
      × (codec.content_identity_hash a ≡ codec.content_identity_hash b)

  compare_pair-Alike : (a b : Indexed) → compare_pair codec a b ≡ [] → Alike a.1 b.1
  unfolding compare_pair
  compare_pair-Alike a b h = elim (Bool-cases (a.1.kind == b.1.kind)) [
    | inr e ↦ cc (rw e at h)
    | inl k ↦ elim (Bool-cases (same_parent a.1.parent_id b.1.parent_id)) [
      | inr e ↦ cc (rw e at (rw k at h))
      | inl p ↦
          elim (Bool-cases (codec.content_identity_hash a.1 == codec.content_identity_hash b.1)) [
            | inr e ↦ cc (rw e at (rw p at (rw k at h)))
            | inl c ↦ ((eq_iff _ _).0 k, same_parent-eq _ _ p, (eq_iff _ _).0 c)
          ]
    ]
  ]

  compare_pairs-All :
      (ps : Pairs)
      → compare_pairs codec ps ≡ []
      → All (λ (p : Indexed × Indexed). Alike p.0.1 p.1.1) ps
  unfolding compare_pairs
  compare_pairs-All [] h = tt
  compare_pairs-All ((a, b) ∷ ps) h =
      let parts = nil_of_append (compare_pair codec a b) (compare_pairs codec ps) h in
      (compare_pair-Alike a b parts.0, compare_pairs-All ps parts.1)

  -- With no regress the indices in B do not fall.
  reordered-NonDecreasing :
      (k : ℕ) (ps : Pairs)
      → reordered codec (some k) ps ≡ []
      → All (λ j. k ≤ j) (indices (side_b ps)) × NonDecreasing (indices (side_b ps))
  unfolding reordered
  reordered-NonDecreasing k [] h = (tt, tt)
  reordered-NonDecreasing k ((a, b) ∷ ps) h = elim (Bool-cases (ltb b.0 k)) [
    | inl e ↦ cc (rw e at h)
    | inr e ↦
        let later = reordered-NonDecreasing b.0 ps (rw e at h) in
        (
          (
            ground arith,
            All-map_of _ _ (λ j (le : b.0 ≤ j). ground arith) (indices (side_b ps)) later.0,
          ),
          later,
        )
  ]

  reordered-none-NonDecreasing :
      (ps : Pairs) → reordered codec none ps ≡ [] → NonDecreasing (indices (side_b ps))
  unfolding reordered
  reordered-none-NonDecreasing [] h = tt
  reordered-none-NonDecreasing ((a, b) ∷ ps) h = reordered-NonDecreasing b.0 ps h

  le_pair-total :
      (p q : Indexed × Indexed) → (le_pair codec p q ≡ true) ⊎ (le_pair codec q p ≡ true)
  le_pair-total p q = ground arith

  sorted_above :
      (k : ℕ) (p : Indexed × Indexed) (ps : Pairs)
      → k ≤ p.0.0
      → IsSorted (le_pair codec) (p ∷ ps)
      → All (λ j. k ≤ j) (indices (side_a (p ∷ ps)))
  sorted_above k p [] h s = (h, tt)
  sorted_above k p (q ∷ ps) h s = (h, sorted_above k q ps (ground arith) s.1)

  sorted-NonDecreasing :
      (ps : Pairs) → IsSorted (le_pair codec) ps → NonDecreasing (indices (side_a ps))
  sorted-NonDecreasing [] s = tt
  sorted-NonDecreasing (p ∷ []) s = (tt, tt)
  sorted-NonDecreasing (p ∷ q ∷ ps) s =
      (sorted_above p.0.0 q ps (ground arith) s.1, sorted-NonDecreasing (q ∷ ps) s.1)

  record IsTwin (events_a events_b : List SessionEvent) (p : Indexed × Indexed) : Type 0 where
    level : p.0.0 ≡ p.1.0
    a_event : get_elem? events_a p.0.0 ≡ some p.0.1
    b_event : get_elem? events_b p.1.0 ≡ some p.1.1
    alike : Alike p.0.1 p.1.1

  twin_at :
      (events_a events_b : List SessionEvent) (ps : Pairs) (i : ℕ) (a b : SessionEvent)
      → All (IsTwin events_a events_b) ps
      → mem_ℕ i (indices (side_a ps)) ≡ true
      → get_elem? events_a i ≡ some a
      → get_elem? events_b i ≡ some b
      → Alike a b
  twin_at events_a events_b [] i a b h m ga gb = cc
  twin_at events_a events_b (p ∷ ps) i a b h m ga gb = elim (Bool-cases (eqb i p.0.0)) [
    | inl e ↦
        let t = h.0 in
        let same : i ≡ p.0.0 = ground arith in
        let pa : a ≡ p.0.1 = cc (t.a_event, ap (get_elem? events_a) same, ga) in
        let pb : b ≡ p.1.1 = cc (t.b_event, t.level, ap (get_elem? events_b) same, gb) in
        rw (pa, pb) t.alike
    | inr e ↦ twin_at events_a events_b ps i a b h.1 (ground arith) ga gb
  ]

  twins_of :
      (events_a events_b : List SessionEvent) (ps : Pairs)
      → indices (side_a ps) ≡ indices (side_b ps)
      → All
          (λ (p : Indexed × Indexed).
            Among p.0 (enumerate_from 0 events_a) × Among p.1 (enumerate_from 0 events_b))
          ps
      → All (λ (p : Indexed × Indexed). Alike p.0.1 p.1.1) ps
      → All (IsTwin events_a events_b) ps
  twins_of events_a events_b [] e h k = tt
  twins_of events_a events_b (p ∷ ps) e h k = (
    record {
      level = ground arith;
      a_event = enumerated events_a p.0 h.0.0;
      b_event = enumerated events_b p.1 h.0.1;
      alike = k.0;
    },
    twins_of events_a events_b ps (cc) h.1 k.1,
  )

  -- The indices of one side of the sorted pairs, where nothing of that side is left over.
  sorted_side :
      (side : Indexed × Indexed → Indexed) (evs : List SessionEvent) (ps : Pairs)
      (rest : List Indexed)
      → rest ≡ []
      → Perm (map side ps ++ rest) (enumerate_from 0 evs)
      → NonDecreasing (indices (map side (sort (le_pair codec) ps)))
      → indices (map side (sort (le_pair codec) ps)) ≡ range_from 0 (length evs)
  sorted_side side evs ps rest e p s =
      let whole : Perm (map side ps) (enumerate_from 0 evs) =
        subst (λ xs. Perm xs (enumerate_from 0 evs))
          (ap (λ r. map side ps ++ r) e ∙ append-nil (map side ps)) p in
      let sorted : Perm (indices (map side (sort (le_pair codec) ps)))
          (indices (enumerate_from 0 evs)) =
        Perm.map (λ (y : Indexed). y.0)
          (Perm.trans (Perm.map side (sort-perm (le_pair codec) ps)) whole) in
      sorted-range _ 0 (length evs) s (subst (Perm _) (indices-enumerate_from 0 evs) sorted)

  sorted_pairs_agree :
      (events_a events_b : List SessionEvent) (ps : Pairs)
      → indices (side_a ps) ≡ range_from 0 (length events_a)
      → indices (side_b ps) ≡ range_from 0 (length events_b)
      → length events_a ≡ length events_b
  sorted_pairs_agree events_a events_b ps p q =
      sym (length-range_from 0 (length events_a))
      ∙ (ap length (sym p)
          ∙ (length-indices ps ∙ (ap length q ∙ length-range_from 0 (length events_b))))

  -- Where two sessions have no difference, they have as many events, and the events at each position
  -- have the same kind, the same parent and the same content hash.
  pub diff_events_nil :
      (events_a events_b : List SessionEvent)
      → diff_events codec events_a events_b ≡ []
      → (length events_a ≡ length events_b)
        × ((i : ℕ) (a b : SessionEvent)
            → get_elem? events_a i ≡ some a
            → get_elem? events_b i ≡ some b
            → Alike a b)
  unfolding diff_events emitted
  diff_events_nil events_a events_b h =
      let al = align codec events_a events_b in
      let parts =
        nil_of_append
          (compare_pairs codec al.pairs
            ++ reordered codec none (sort (le_pair codec) al.pairs)
            ++ map (removed_delta codec) al.removed)
          _ (nil_of_sort _ h) in
      let most =
        nil_of_append
          (compare_pairs codec al.pairs ++ reordered codec none (sort (le_pair codec) al.pairs)) _
          parts.0 in
      let core = nil_of_append (compare_pairs codec al.pairs) _ most.0 in
      let whole = align-partition codec events_a events_b in
      let in_a =
        sorted_side (λ p. p.0) events_a al.pairs al.removed (nil_of_map _ al.removed most.1) whole.0
          (sorted-NonDecreasing (sort (le_pair codec) al.pairs)
            (sort-IsSorted (le_pair codec) le_pair-total al.pairs)) in
      let in_b =
        sorted_side (λ p. p.1) events_b al.pairs al.added (nil_of_map _ al.added parts.1) whole.1
          (reordered-none-NonDecreasing (sort (le_pair codec) al.pairs) core.1) in
      let level = sorted_pairs_agree events_a events_b (sort (le_pair codec) al.pairs) in_a in_b in
      let twins =
        twins_of events_a events_b (sort (le_pair codec) al.pairs)
          (in_a ∙ (ap (range_from 0) level ∙ sym in_b))
          (All-sort (le_pair codec) _ al.pairs (align-Among codec events_a events_b))
          (All-sort (le_pair codec) _ al.pairs (compare_pairs-All al.pairs core.0)) in
      (
        level,
        λ i a b ga gb.
            twin_at events_a events_b (sort (le_pair codec) al.pairs) i a b twins
              (ap (mem_ℕ i) in_a
                ∙ range_from-mem i 0 (length events_a) (omega arith)
                    (omega (arith, get_elem?-lt events_a i a ga)))
              ga gb,
      )
