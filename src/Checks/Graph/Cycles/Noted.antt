-- ===== src/Checks/Graph/Cycles/Noted.antt =====
-- The cycles that `check_cycles` (checks/graph.py) notes, by their ids.
use sesslint.Prelude.{
  String, ◌==◌, ◌≡◌, refl, inl, inr, Bool, true, ◌||◌, Option, none, some, List, [], ◌∷◌, ◌++◌,
  arith, Bool-cases, eq_iff, any, all, mem_text, mem_text-append,
}
use sesslint.Checks.Graph.Cycles.{
  from_node, before_node, min_text, Search, note_cycle, close_cycle, same_members,
}

-- An id stands in one of the cycles.
abbrev pub is_reported : List (List String) → String → Bool
is_reported cs s = any (λ c. mem_text s c) cs

mem_text-from_before :
    (k m : String) (xs : List String)
    → mem_text k xs ≡ true
    → (mem_text k (from_node m xs) || mem_text k (before_node m xs)) ≡ true
unfolding from_node before_node
mem_text-from_before k m [] h = cc
mem_text-from_before k m (x ∷ xs) h = elim (Bool-cases (x == m)) [
  | inl e ↦ rw e (ground arith)
  | inr e ↦ rw e (ground (arith, mem_text-from_before k m xs))
]

-- The closed cycle holds the ids of the cycle.
mem_text-close_cycle :
    (k : String) (raw : List String) → mem_text k raw ≡ true → mem_text k (close_cycle raw) ≡ true
unfolding close_cycle
mem_text-close_cycle k [] h = cc
mem_text-close_cycle k (x ∷ xs) h =
    let m = min_text x xs in
    let before = before_node m (x ∷ xs) in
    ground (
      arith,
      mem_text-from_before k m (x ∷ xs) h,
      mem_text-append k (from_node m (x ∷ xs)) before,
      mem_text-append k (from_node m (x ∷ xs) ++ before) (m ∷ []),
    )

mem_text-all :
    (k : String) (xs ys : List String)
    → all (λ x. mem_text x ys) xs ≡ true
    → mem_text k xs ≡ true
    → mem_text k ys ≡ true
mem_text-all k [] ys h m = cc
mem_text-all k (x ∷ xs) ys h m = elim (Bool-cases (k == x)) [
  | inl e ↦ rw ((eq_iff k x).0 e) (ground arith)
  | inr e ↦ mem_text-all k xs ys (ground arith) (ground arith)
]

mem_text-same_members :
    (k : String) (xs ys : List String)
    → same_members xs ys ≡ true
    → mem_text k xs ≡ true
    → mem_text k ys ≡ true
unfolding same_members
mem_text-same_members k xs ys h m = mem_text-all k xs ys (ground arith) m

is_reported-append :
    (cs ds : List (List String)) (k : String)
    → is_reported (cs ++ ds) k ≡ (is_reported cs k || is_reported ds k)
is_reported-append [] ds k = refl
is_reported-append (c ∷ cs) ds k = ground (arith, is_reported-append cs ds k)

-- The ids of a cycle that counts as seen are reported.
abbrev pub IsNoted : Search → Type 0
IsNoted s =
    (raw : List String) (k : String)
    → any (λ c. same_members raw c) s.seen ≡ true
    → mem_text k raw ≡ true
    → is_reported s.cycles k ≡ true

pub note_cycle-keeps :
    (c : Option (List String)) (s : Search) (k : String)
    → is_reported s.cycles k ≡ true
    → is_reported (note_cycle c s).cycles k ≡ true
unfolding note_cycle
note_cycle-keeps none s k h = h
note_cycle-keeps (some raw) s k h = elim (Bool-cases (any (λ c. same_members raw c) s.seen)) [
  | inl e ↦ rw e h
  | inr e ↦ rw e (ground (arith, is_reported-append s.cycles (close_cycle raw ∷ []) k))
]

-- A cycle that is noted, or was seen, is reported.
pub note_cycle-reports :
    (s : Search)
    → IsNoted s
    → (raw : List String) (k : String) → mem_text k raw ≡ true
    → is_reported (note_cycle (some raw) s).cycles k ≡ true
unfolding note_cycle
note_cycle-reports s noted raw k m = elim (Bool-cases (any (λ c. same_members raw c) s.seen)) [
  | inl e ↦ rw e (noted raw k e m)
  | inr e ↦ rw e (
      ground
        (arith, is_reported-append s.cycles (close_cycle raw ∷ []) k, mem_text-close_cycle k raw m))
]

pub note_cycle-IsNoted :
    (c : Option (List String)) (s : Search) → IsNoted s → IsNoted (note_cycle c s)
unfolding note_cycle
note_cycle-IsNoted none s noted raw k h m = noted raw k h m
note_cycle-IsNoted (some new) s noted raw k h m =
    elim (Bool-cases (any (λ c. same_members new c) s.seen)) [
      | inl e ↦ rw e (noted raw k (rw e at h) m)
      | inr e ↦
          let again : (same_members raw new || any (λ c. same_members raw c) s.seen) ≡ true =
            rw e at h in
          let joined = is_reported-append s.cycles (close_cycle new ∷ []) k in
          elim (Bool-cases (same_members raw new)) [
            | inl q ↦
                let there = mem_text-close_cycle k new (mem_text-same_members k raw new q m) in
                rw e (ground arith)
            | inr q ↦ let there = noted raw k (rw q at again) m in rw e (ground arith)
          ]
    ]
