-- ===== src/Checks/Graph/Occurrence.antt =====
-- `_OccurrenceGraph` and `check_missing_parent` (SL004) of checks/graph.py, for events that are
-- `SessionEvent`s. The four dictionaries are one list of nodes in the order of `id_order`.
pub mod Missing
use Prim.Native.Char.{code}
use sesslint.Prelude.{
  ℕ, suc, String, ◌==◌, Bool, true, false, ◌&&◌, ◌||◌, not, Option, none, some, List, [], ◌∷◌,
  if◌then◌else◌, leb, eqb, mem_text,
}
use sesslint.Session.{SessionEvent}

pub record Node : Type 0 where
  pub id : String
  pub index : ℕ
  pub parent : Option String
  pub event : SessionEvent

abbrev pub Graph : Type 0
Graph = List Node

-- The characters that `str.strip` removes.
abbrev is_space : ℕ → Bool
is_space c =
    leb 9 c && leb c 13
    || (leb 28 c && leb c 32
        || (eqb c 133
            || (eqb c 160
                || (eqb c 5760
                    || (leb 8192 c && leb c 8202
                        || (eqb c 8232
                            || (eqb c 8233 || (eqb c 8239 || (eqb c 8287 || eqb c 12288)))))))))

-- `not s.strip()`.
unfoldable pub is_blank : String → Bool
is_blank String.[] = true
is_blank (String.◌∷◌ c s) = is_space (code c) && is_blank s

-- `id_str in self.id_to_event`.
unfoldable pub has_id : Graph → String → Bool
has_id [] s = false
has_id (n ∷ g) s = n.id == s || has_id g s

-- The entries of the four dictionaries for an event.
abbrev pub node : ℕ → SessionEvent → Node
node idx ev = record { id = ev.id; index = idx; parent = ev.parent_id; event = ev }

-- The loop of `__init__`, over the nodes so far.
unfoldable pub occurrences_from : ℕ → List SessionEvent → List String → Graph
unfolding is_blank
occurrences_from idx [] seen = []
occurrences_from idx (ev ∷ evs) seen =
    let skipped = occurrences_from (suc idx) evs seen in
    let added = occurrences_from (suc idx) evs (ev.id ∷ seen) in
    if is_blank ev.id then skipped else if mem_text ev.id seen then skipped else node idx ev ∷ added

unfoldable pub occurrence_graph : List SessionEvent → Graph
unfolding occurrences_from
occurrence_graph evs = occurrences_from 0 evs []

-- `id_to_parent.get(s)`; a missing id and a missing parent are both `None`.
unfoldable pub parent_of : Graph → String → Option String
parent_of [] s = none
parent_of (n ∷ g) s = if n.id == s then n.parent else parent_of g s

-- The parent of an id, if it is in the graph.
unfoldable pub next_of : Graph → String → Option String
unfolding parent_of has_id
next_of g s = elim (parent_of g s) [ none ↦ none | some p ↦ if has_id g p then some p else none ]

abbrev pub with_missing : Graph → Node → Option String → List Node → List Node
with_missing g n none rest = rest
with_missing g n (some p) rest = if has_id g p then rest else n ∷ rest

-- SL004: the nodes whose parent is given and not in the graph.
unfoldable pub missing_from : Graph → Graph → List Node
unfolding has_id
missing_from g [] = []
missing_from g (n ∷ ns) = with_missing g n n.parent (missing_from g ns)

unfoldable pub missing_parents : List SessionEvent → List Node
unfolding occurrence_graph missing_from
missing_parents evs = let g = occurrence_graph evs in missing_from g g
