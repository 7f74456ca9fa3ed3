-- ===== src/Repair/Component.antt =====
-- `_find_component_indices` of repair/preconditions.py: the breadth-first walk over parent links, in
-- both directions, from a seed event. The dictionary of ids keeps the last event with an id.
-- The `while` loop runs on fuel: one round for each event, and two more.
mod Enqueue
pub mod Links
pub mod Reach
use sesslint.Prelude.{
  ℕ, zero, suc, String, ◌==◌, Option, none, some, List, [], ◌∷◌, ◌++◌, length, if◌then◌else◌, mem_ℕ,
  eqb,
}
use sesslint.Session.{SessionEvent}

abbrev pub or_later : Option ℕ → Option ℕ → Option ℕ
or_later (some k) here = some k
or_later none here = here

-- `id_to_idx.get(s)`.
unfoldable pub last_index : String → ℕ → List SessionEvent → Option ℕ
last_index s i [] = none
last_index s i (ev ∷ evs) =
    or_later (last_index s (suc i) evs) (if ev.id == s then some i else none)

-- The position of an event's parent, if the parent is in the session.
unfoldable pub parent_index : List SessionEvent → SessionEvent → Option ℕ
unfolding last_index
parent_index evs ev = elim ev.parent_id [ none ↦ none | some p ↦ last_index p 0 evs ]

-- The links from events to their parents, by position.
unfoldable pub links_from : List SessionEvent → ℕ → List SessionEvent → List (ℕ × ℕ)
unfolding parent_index
links_from all i [] = []
links_from all i (ev ∷ evs) =
    let rest = links_from all (suc i) evs in
    elim (parent_index all ev) [ none ↦ rest | some p ↦ (i, p) ∷ rest ]

-- `adj[k]`: a link counts in both directions.
unfoldable pub neighbours : List (ℕ × ℕ) → ℕ → List ℕ
neighbours [] k = []
neighbours ((i, p) ∷ ls) k =
    (if eqb i k then p ∷ [] else []) ++ (if eqb p k then i ∷ [] else []) ++ neighbours ls k

-- The loop over the neighbours: new ones are visited and queued.
unfoldable pub enqueue : List ℕ → List ℕ → List ℕ → List ℕ × List ℕ
enqueue [] queue visited = (queue, visited)
enqueue (k ∷ ks) queue visited =
    enqueue ks (if mem_ℕ k visited then queue else queue ++ k ∷ [])
      (if mem_ℕ k visited then visited else k ∷ visited)

-- The `while` loop.
unfoldable pub walk : ℕ → List (ℕ × ℕ) → List ℕ → List ℕ → List ℕ
unfolding neighbours enqueue
walk zero links queue visited = visited
walk (suc fuel) links [] visited = visited
walk (suc fuel) links (k ∷ queue) visited =
    let (queue', visited') = enqueue (neighbours links k) queue visited in
    walk fuel links queue' visited'

unfoldable pub find_component_indices : List SessionEvent → ℕ → List ℕ
unfolding links_from walk
find_component_indices evs seed =
    walk (suc (suc (length evs))) (links_from evs 0 evs) (seed ∷ []) (seed ∷ [])
