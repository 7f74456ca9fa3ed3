-- ===== src/Repair/Component/Reach.antt =====
-- The component walk of repair/preconditions.py against the links between events.
use sesslint.Prelude.{
  ℕ, zero, suc, ◌+◌, ◌≤◌, ◌≡◌, refl, sym, ◌∙◌, inl, inr, ◌↔◌, true, false, List, [], ◌∷◌, length,
  mem_ℕ, eqb_iff, arith, Bool-cases, or-true,
}
use mathlib.Core.Path.{subst}
use sesslint.Session.{SessionEvent}
use sesslint.Repair.Component.{links_from, neighbours, enqueue, walk, find_component_indices}
use sesslint.Repair.Component.Enqueue.{
  unvisited, unvisited-le, Below, enqueue-conserves, visited-enqueue, queued-enqueue,
}
use sesslint.Repair.Component.Links.{Link, neighbours-Link, Link-neighbours, Below-of, Link-lt}

links : List SessionEvent → List (ℕ × ℕ)
links evs = links_from evs 0 evs

-- Positions joined by links.
pub data Connected (evs : List SessionEvent) (seed : ℕ) : ℕ → Type 0 where
  start : {k : ℕ} → k ≡ seed → Connected evs seed k
  next : {k j : ℕ} → Connected evs seed k → Link evs evs 0 k j → Connected evs seed j

-- What the loop keeps: what is visited is connected to the seed, what is queued is visited, and
-- a position that is visited and no longer queued has its neighbours visited.
record IsWalk (links : List (ℕ × ℕ)) (Goal : ℕ → Type 0) (queue visited : List ℕ) : Type 0 where
  sound : (k : ℕ) → mem_ℕ k visited ≡ true → Goal k
  queued : (k : ℕ) → mem_ℕ k queue ≡ true → mem_ℕ k visited ≡ true
  closed :
      (k j : ℕ)
      → mem_ℕ k visited ≡ true
      → mem_ℕ k queue ≡ false
      → mem_ℕ j (neighbours links k) ≡ true
      → mem_ℕ j visited ≡ true

walk-empty : (fuel : ℕ) (ls : List (ℕ × ℕ)) (visited : List ℕ) → walk fuel ls [] visited ≡ visited
unfolding walk
walk-empty zero ls visited = refl
walk-empty (suc fuel) ls visited = refl

module _ (links : List (ℕ × ℕ)) (Goal : ℕ → Type 0)
    (step : (k j : ℕ) → Goal k → mem_ℕ j (neighbours links k) ≡ true → Goal j) where
  round-IsWalk :
      (k : ℕ) (queue visited : List ℕ)
      → IsWalk links Goal (k ∷ queue) visited
      → IsWalk links Goal
          (enqueue (neighbours links k) queue visited).0
          (enqueue (neighbours links k) queue visited).1
  round-IsWalk k queue visited w = record {
    sound = λ j m.
        elim (or-true _ _ (sym (visited-enqueue (neighbours links k) queue visited j) ∙ m)) [
          | inl a ↦ w.sound j a
          | inr b ↦ step k j (w.sound k (w.queued k (ground arith))) b
        ];
    queued = λ j m. ground (
      arith,
      visited-enqueue (neighbours links k) queue visited j,
      queued-enqueue (neighbours links k) queue visited j,
      w.queued j,
    );
    closed = λ i j m q l. elim (Bool-cases (mem_ℕ i (k ∷ queue))) [
      | inl a ↦ ground (
        arith,
        visited-enqueue (neighbours links k) queue visited j,
        visited-enqueue (neighbours links k) queue visited i,
        queued-enqueue (neighbours links k) queue visited i,
        eqb_iff i k,
      )
      | inr b ↦ ground (
        arith,
        w.closed i j,
        visited-enqueue (neighbours links k) queue visited j,
        visited-enqueue (neighbours links k) queue visited i,
        queued-enqueue (neighbours links k) queue visited i,
      )
    ];
  }

  -- With the fuel of the measure the loop ends by its test, the queue being empty.
  walk-IsWalk :
      (n : ℕ)
      → ((k : ℕ) → Below n (neighbours links k))
      → (fuel : ℕ) (queue visited : List ℕ) → unvisited n visited + length queue ≤ fuel
      → IsWalk links Goal queue visited
      → IsWalk links Goal [] (walk fuel links queue visited)
  unfolding walk
  walk-IsWalk n below fuel [] visited m w =
      subst (IsWalk links Goal []) (sym (walk-empty fuel links visited)) w
  walk-IsWalk n below zero (k ∷ queue) visited m w = absurd (omega arith)
  walk-IsWalk n below (suc fuel) (k ∷ queue) visited m w =
      walk-IsWalk n below fuel (enqueue (neighbours links k) queue visited).0
        (enqueue (neighbours links k) queue visited).1
        (omega (arith, enqueue-conserves n (neighbours links k) queue visited (below k)))
        (round-IsWalk k queue visited w)

links-Below : (evs : List SessionEvent) (k : ℕ) → Below (length evs) (neighbours (links evs) k)
unfolding links
links-Below evs k =
    Below-of (length evs) _ (λ j m. Link-lt evs k j (neighbours-Link evs 0 evs k j m))

component-IsWalk :
    (evs : List SessionEvent) (seed : ℕ)
    → IsWalk (links evs) (Connected evs seed) [] (find_component_indices evs seed)
unfolding find_component_indices links
component-IsWalk evs seed =
    walk-IsWalk (links evs) (Connected evs seed)
      (λ k j c m. Connected.next c (neighbours-Link evs 0 evs k j m)) (length evs) (links-Below evs)
      (suc (suc (length evs))) (seed ∷ []) (seed ∷ [])
      (omega (arith, unvisited-le (length evs) (seed ∷ [])))
      (record {
        sound = λ k m. Connected.start (ground arith);
        queued = λ k m. m;
        closed = λ k j m q l. cc;
      })

walk-keeps :
    (fuel : ℕ) (ls : List (ℕ × ℕ)) (queue visited : List ℕ) (j : ℕ)
    → mem_ℕ j visited ≡ true
    → mem_ℕ j (walk fuel ls queue visited) ≡ true
unfolding walk
walk-keeps zero ls queue visited j m = m
walk-keeps (suc fuel) ls [] visited j m = m
walk-keeps (suc fuel) ls (k ∷ queue) visited j m =
    walk-keeps fuel ls _ _ j (ground (arith, visited-enqueue (neighbours ls k) queue visited j))

seed-component :
    (evs : List SessionEvent) (seed : ℕ) → mem_ℕ seed (find_component_indices evs seed) ≡ true
unfolding find_component_indices
seed-component evs seed =
    walk-keeps (suc (suc (length evs))) (links_from evs 0 evs) (seed ∷ []) (seed ∷ []) seed
      (ground (arith, eqb_iff seed seed))

Connected-visited :
    (evs : List SessionEvent) (seed j : ℕ)
    → Connected evs seed j
    → mem_ℕ j (find_component_indices evs seed) ≡ true
unfolding links
Connected-visited evs seed j (Connected.start e) = rw e (seed-component evs seed)
Connected-visited evs seed j (Connected.next {k} c l) =
    (component-IsWalk evs seed).closed k j (Connected-visited evs seed k c) refl
      (Link-neighbours evs 0 evs k j l)

-- The fuel is enough: the walk from a seed returns exactly the positions that links between events
-- and their parents, followed both ways, join to the seed.
pub find_component_indices_iff :
    (evs : List SessionEvent) (seed j : ℕ)
    → (mem_ℕ j (find_component_indices evs seed) ≡ true) ↔ Connected evs seed j
find_component_indices_iff evs seed j =
    ((component-IsWalk evs seed).sound j, Connected-visited evs seed j)
