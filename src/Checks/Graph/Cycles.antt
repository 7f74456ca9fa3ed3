-- ===== src/Checks/Graph/Cycles.antt =====
-- The detection of `check_cycles` (SL005, checks/graph.py): an iterative three-colour search along parent
-- links. The `while` loop runs on fuel, one round for each node and one more. `path_pos[curr]` is the
-- place of an id on the path, so `path[path_pos[curr]:]` is the path from that id on.
pub mod Links
pub mod Sound
pub mod Complete
mod Starts
mod Noted
pub mod Covered
use sesslint.Prelude.{
  ℕ, zero, suc, String, ◌==◌, Bool, true, false, ◌&&◌, ◌||◌, not, Option, none, some, List, [], ◌∷◌,
  ◌++◌, if◌then◌else◌, mem_text, all, any, length,
}
use sesslint.Prelude.Text.{le_text}
use sesslint.Session.{SessionEvent}
use sesslint.Checks.Graph.Occurrence.{Graph, Node, next_of, occurrence_graph}

pub data Color : Type 0 where
  white gray black : Color

-- The dictionary of colours; an assignment hides the one before it.
abbrev pub Colors : Type 0
Colors = List (String × Color)

unfoldable pub color_of : Colors → String → Color
color_of [] s = white
color_of ((k, c) ∷ rest) s = if k == s then c else color_of rest s

-- `for node in path: color[node] = 2`.
unfoldable pub blacken : List String → Colors → Colors
blacken [] colors = colors
blacken (k ∷ ks) colors = blacken ks ((k, black) ∷ colors)

-- A list from an item on, and what stands before it.
unfoldable pub from_node : String → List String → List String
from_node s [] = []
from_node s (k ∷ ks) = let rest = from_node s ks in if k == s then k ∷ ks else rest

unfoldable pub before_node : String → List String → List String
before_node s [] = []
before_node s (k ∷ ks) = let rest = before_node s ks in if k == s then [] else k ∷ rest

-- What the `while` loop leaves: the path, the colours, and the cycle that it ran into.
pub record Walk : Type 0 where
  pub path : List String
  pub colors : Colors
  pub cycle : Option (List String)

unfoldable pub walk : Graph → ℕ → Option String → List String → Colors → Walk
unfolding color_of from_node next_of
walk g zero curr path colors = record { path = path; colors = colors; cycle = none }
walk g (suc fuel) none path colors = record { path = path; colors = colors; cycle = none }
walk g (suc fuel) (some k) path colors = elim (color_of colors k) [
  | white ↦ walk g fuel (next_of g k) (path ++ k ∷ []) ((k, gray) ∷ colors)
  | gray ↦ record { path = path; colors = colors; cycle = some (from_node k path) }
  | black ↦ record { path = path; colors = colors; cycle = none }
]

-- `min(raw_cycle)`.
unfoldable pub min_text : String → List String → String
min_text s [] = s
min_text s (k ∷ ks) = min_text (if le_text s k then s else k) ks

-- The cycle from its smallest id on, closed by that id.
unfoldable pub close_cycle : List String → List String
unfolding min_text from_node before_node
close_cycle [] = []
close_cycle (k ∷ ks) =
    let least = min_text k ks in
    (from_node least (k ∷ ks) ++ before_node least (k ∷ ks)) ++ least ∷ []

-- Equality of the frozensets of two lists.
unfoldable pub same_members : List String → List String → Bool
same_members xs ys = all (λ x. mem_text x ys) xs && all (λ y. mem_text y xs) ys

-- The loop's variables: `color`, `cycles` and `seen_cycles`.
pub record Search : Type 0 where
  pub colors : Colors
  pub cycles : List (List String)
  pub seen : List (List String)

abbrev pub seen_before : List String → List (List String) → Bool
seen_before raw seen = any (λ c. same_members raw c) seen

unfoldable pub note_cycle : Option (List String) → Search → Search
unfolding same_members close_cycle
note_cycle none s = s
note_cycle (some raw) s =
    if seen_before raw s.seen
    then s
    else record s { cycles = s.cycles ++ close_cycle raw ∷ []; seen = raw ∷ s.seen }

-- The walk from a start node, and what it finds.
unfoldable pub explore : Graph → String → Search → Search
unfolding walk blacken note_cycle
explore g start s =
    let w = walk g (suc (length g)) (some start) [] s.colors in
    note_cycle w.cycle (record s { colors = blacken w.path w.colors })

abbrev pub is_black : Color → Bool
is_black white = false
is_black gray = false
is_black black = true

-- The body of the loop over `id_order`.
unfoldable pub visit : Graph → String → Search → Search
unfolding color_of next_of explore
visit g start s = if is_black (color_of s.colors start) then s else elim (next_of g start) [
  | none ↦ record s { colors = (start, black) ∷ s.colors }
  | some p ↦
      if is_black (color_of s.colors p)
      then record s { colors = (start, black) ∷ s.colors }
      else explore g start s
]

unfoldable pub visit_all : Graph → Graph → Search → Search
unfolding visit
visit_all g [] s = s
visit_all g (n ∷ ns) s = visit_all g ns (visit g n.id s)

unfoldable pub find_cycles : List SessionEvent → List (List String)
unfolding occurrence_graph visit_all
find_cycles evs =
    let g = occurrence_graph evs in
    (visit_all g g (record { colors = []; cycles = []; seen = [] })).cycles
