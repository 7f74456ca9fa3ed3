-- ===== src/Checks/Graph/Cycles/Links.antt =====
-- The links that `check_cycles` of checks/graph.py follows, and lists of ids that they join.
use mathlib.Core.List.{append_assoc}
use mathlib.Core.Path.{subst}
use sesslint.Prelude.{
  String, ◌==◌, ◌≡◌, sym, ap, inl, inr, true, none, some, List, [], ◌∷◌, ◌++◌, mem_text, arith,
  Bool-cases, eq_iff,
}
use sesslint.Checks.Graph.Occurrence.{Graph, next_of}
use sesslint.Checks.Graph.Cycles.{from_node, before_node}

-- Each id is followed by its parent, which is in the graph.
abbrev pub Linked : Graph → List String → Type 0
Linked g [] = Unit
Linked g (x ∷ []) = Unit
Linked g (x ∷ y ∷ ys) = (next_of g x ≡ some y) × Linked g (y ∷ ys)

-- Following parents from an id comes to an end.
pub data Grounded (g : Graph) : String → Type 0 where
  root : {s : String} → next_of g s ≡ none → Grounded g s
  child : {s p : String} → next_of g s ≡ some p → Grounded g p → Grounded g s

module _ (g : Graph) where
  pub Linked-right : (xs ys : List String) → Linked g (xs ++ ys) → Linked g ys
  Linked-right [] ys h = h
  Linked-right (x ∷ []) [] h = tt
  Linked-right (x ∷ []) (y ∷ ys) h = h.1
  Linked-right (x ∷ z ∷ xs) ys h = Linked-right (z ∷ xs) ys h.1

  pub Linked-left :
      (xs : List String) (y : String) (ys : List String)
      → Linked g (xs ++ y ∷ ys)
      → Linked g (xs ++ y ∷ [])
  Linked-left [] y ys h = tt
  Linked-left (x ∷ []) y ys h = (h.0, tt)
  Linked-left (x ∷ z ∷ xs) y ys h = (h.0, Linked-left (z ∷ xs) y ys h.1)

  pub Linked-join :
      (xs : List String) (y : String) (ys : List String)
      → Linked g (xs ++ y ∷ [])
      → Linked g (y ∷ ys)
      → Linked g (xs ++ y ∷ ys)
  Linked-join [] y ys h k = k
  Linked-join (x ∷ []) y ys h k = (h.0, k)
  Linked-join (x ∷ z ∷ xs) y ys h k = (h.0, Linked-join (z ∷ xs) y ys h.1 k)

  -- A cycle turned: what stands before an id moves behind it.
  pub Linked-turn :
      (k : String) (xs : List String) (m : String) (ys : List String)
      → Linked g ((k ∷ xs ++ m ∷ ys) ++ k ∷ [])
      → Linked g ((m ∷ ys ++ k ∷ xs) ++ m ∷ [])
  Linked-turn k xs m ys h =
      let flat = subst (Linked g) (append_assoc (k ∷ xs) (m ∷ ys) (k ∷ [])) h in
      let before = Linked-left (k ∷ xs) m (ys ++ k ∷ []) flat in
      let after = Linked-right (k ∷ xs) (m ∷ ys ++ k ∷ []) flat in
      subst (Linked g) (sym (append_assoc (m ∷ ys) (k ∷ xs) (m ∷ [])))
        (Linked-join (m ∷ ys) k (xs ++ m ∷ []) after before)

  next-same : (k x p : String) → next_of g k ≡ some x → next_of g k ≡ some p → x ≡ p
  next-same k x p e f = cc

  -- An id on a cycle has no end.
  pub Linked-loops :
      (k : String) (xs : List String) → Linked g ((k ∷ xs) ++ k ∷ []) → Grounded g k → ⊥
  Linked-loops k [] h (Grounded.root e) = cc
  Linked-loops k [] h (Grounded.child {p} e r) =
      Linked-loops p [] (subst (λ w. Linked g ((w ∷ []) ++ w ∷ [])) (next-same k k p h.0 e) h) r
  Linked-loops k (x ∷ xs) h (Grounded.root e) = cc
  Linked-loops k (x ∷ xs) h (Grounded.child {p} e r) =
      Linked-loops p (xs ++ k ∷ [])
        (subst (λ w. Linked g ((w ∷ xs ++ k ∷ []) ++ w ∷ [])) (next-same k x p h.0 e)
          (Linked-turn k [] x xs h))
        r

-- A list at an item that it holds.
pub split_at :
    (s : String) (xs : List String)
    → mem_text s xs ≡ true
    → (ys : List String) × (from_node s xs ≡ s ∷ ys) × (xs ≡ before_node s xs ++ s ∷ ys)
unfolding from_node before_node
split_at s [] h = cc
split_at s (x ∷ xs) h = elim (Bool-cases (x == s)) [
  | inl e ↦ let p = (eq_iff x s).0 e in (xs, rw e (ap (λ w. w ∷ xs) p), rw e (ap (λ w. w ∷ xs) p))
  | inr e ↦
      let (ys, p, q) = split_at s xs (ground (arith, eq_iff s x, eq_iff x s)) in
      (ys, rw e p, rw e (ap (λ zs. x ∷ zs) q))
]
