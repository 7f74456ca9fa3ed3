-- ===== src/Repair/Component/Enqueue.antt =====
-- The loop over the neighbours of `_find_component_indices` (repair/preconditions.py): what it visits,
-- what it queues, and a measure of what is left to visit.
use sesslint.Prelude.{
  ℕ, zero, suc, ◌+◌, ◌≤◌, ◌<◌, ◌≡◌, refl, ap, inl, inr, true, false, not, ◌&&◌, ◌||◌, List, [], ◌∷◌,
  ◌++◌, All, length, length-append, if◌then◌else◌, mem_ℕ, mem_ℕ-append, eqb_iff, arith, Bool-cases,
}
use sesslint.Repair.Component.{enqueue}

-- The positions below `n` that are not visited.
abbrev pub unvisited : ℕ → List ℕ → ℕ
unvisited zero visited = 0
unvisited (suc n) visited = (if mem_ℕ n visited then 0 else 1) + unvisited n visited

unvisited-cons_high :
    (n k : ℕ) (visited : List ℕ) → n ≤ k → unvisited n (k ∷ visited) ≡ unvisited n visited
unvisited-cons_high zero k visited h = refl
unvisited-cons_high (suc n) k visited h = ground (arith, unvisited-cons_high n k visited)

unvisited-cons :
    (n k : ℕ) (visited : List ℕ)
    → k < n
    → mem_ℕ k visited ≡ false
    → suc (unvisited n (k ∷ visited)) ≡ unvisited n visited
unvisited-cons zero k visited h e = absurd (omega arith)
unvisited-cons (suc n) k visited h e =
    ground (arith, unvisited-cons n k visited, unvisited-cons_high n k visited, eqb_iff n k)

pub unvisited-le : (n : ℕ) (visited : List ℕ) → unvisited n visited ≤ n
unvisited-le zero visited = omega arith
unvisited-le (suc n) visited = ground (arith, unvisited-le n visited)

abbrev pub Below : ℕ → List ℕ → Type 0
Below n ks = All (λ k. k < n) ks

-- One round of `enqueue`, for a position that is visited and for one that is not.
enqueue-old :
    (k : ℕ) (ks queue visited : List ℕ)
    → mem_ℕ k visited ≡ true
    → enqueue (k ∷ ks) queue visited ≡ enqueue ks queue visited
unfolding enqueue
enqueue-old k ks queue visited e =
    ap (λ b. enqueue ks (if b then queue else queue ++ k ∷ []) (if b then visited else k ∷ visited))
      e

enqueue-new :
    (k : ℕ) (ks queue visited : List ℕ)
    → mem_ℕ k visited ≡ false
    → enqueue (k ∷ ks) queue visited ≡ enqueue ks (queue ++ k ∷ []) (k ∷ visited)
unfolding enqueue
enqueue-new k ks queue visited e =
    ap (λ b. enqueue ks (if b then queue else queue ++ k ∷ []) (if b then visited else k ∷ visited))
      e

pub enqueue-conserves :
    (n : ℕ) (ks queue visited : List ℕ)
    → Below n ks
    → unvisited n (enqueue ks queue visited).1 + length (enqueue ks queue visited).0
      ≡ unvisited n visited + length queue
enqueue-conserves n [] queue visited h = unfold enqueue in refl
enqueue-conserves n (k ∷ ks) queue visited h = elim (Bool-cases (mem_ℕ k visited)) [
  | inl e ↦ rw (enqueue-old k ks queue visited e) (enqueue-conserves n ks queue visited h.1)
  | inr e ↦ rw (enqueue-new k ks queue visited e) (
      omega (
        arith,
        enqueue-conserves n ks (queue ++ k ∷ []) (k ∷ visited) h.1,
        unvisited-cons n k visited h.0 e,
        length-append queue (k ∷ []),
      ))
]

pub visited-enqueue :
    (ks queue visited : List ℕ) (w : ℕ)
    → mem_ℕ w (enqueue ks queue visited).1 ≡ (mem_ℕ w visited || mem_ℕ w ks)
visited-enqueue [] queue visited w = unfold enqueue in ground arith
visited-enqueue (k ∷ ks) queue visited w = elim (Bool-cases (mem_ℕ k visited)) [
  | inl e ↦
      rw (enqueue-old k ks queue visited e)
        (ground (arith, visited-enqueue ks queue visited w, eqb_iff w k))
  | inr e ↦
      rw (enqueue-new k ks queue visited e)
        (ground (arith, visited-enqueue ks (queue ++ k ∷ []) (k ∷ visited) w))
]

pub queued-enqueue :
    (ks queue visited : List ℕ) (w : ℕ)
    → mem_ℕ w (enqueue ks queue visited).0 ≡ (mem_ℕ w queue || mem_ℕ w ks && not (mem_ℕ w visited))
queued-enqueue [] queue visited w = unfold enqueue in ground arith
queued-enqueue (k ∷ ks) queue visited w = elim (Bool-cases (mem_ℕ k visited)) [
  | inl e ↦
      rw (enqueue-old k ks queue visited e)
        (ground (arith, queued-enqueue ks queue visited w, eqb_iff w k))
  | inr e ↦ rw (enqueue-new k ks queue visited e) (
      ground (
        arith,
        queued-enqueue ks (queue ++ k ∷ []) (k ∷ visited) w,
        mem_ℕ-append w queue (k ∷ []),
        eqb_iff w k,
      ))
]
