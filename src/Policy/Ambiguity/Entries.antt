-- ===== src/Policy/Ambiguity/Entries.antt =====
-- The data of `find_ambiguous_events`: `AmbiguousEvents`, the tuples kept for tool events, and the
-- marks that they leave.
use sesslint.Prelude.{ℕ, String, ◌==◌, List, [], ◌∷◌, ◌++◌, if◌then◌else◌}
use sesslint.Session.{SessionEvent, Host}
use sesslint.Policy.SideEffects.{extract_side_effects}

-- The tuple that the source keeps for a tool event: its position, its id, its side effects and itself.
pub record Entry : Type 0 where
  pub index : ℕ
  pub id : String
  pub side_effects : String
  pub event : SessionEvent

-- The reasons, one constructor for each text template.
pub data AmbiguityReason : Type 0 where
  unpaired_call_no_correlation : ℕ → AmbiguityReason
  orphan_result_no_correlation : ℕ → AmbiguityReason
  reused_correlation : String → AmbiguityReason
  dangling_call : String → ℕ → AmbiguityReason
  orphan_result : String → AmbiguityReason
  unknown_side_effects : String → AmbiguityReason
  unknown_execution : String → ℕ → AmbiguityReason
  reversed_pairing : String → ℕ → ℕ → AmbiguityReason
  unknown_side_effects_at : String → ℕ → AmbiguityReason

pub record AmbiguousEvents : Type 0 where
  pub indices : List ℕ
  pub ids : List String
  pub reasons : List AmbiguityReason

pub record Marks : Type 0 where
  pub indices : List ℕ
  pub ids : List String

abbrev pub entry : Host → ℕ → SessionEvent → Entry
entry host i ev = record {
  index = i;
  id = ev.id;
  side_effects = extract_side_effects host ev;
  event = ev;
}

abbrev pub no_marks : Marks
no_marks = record { indices = []; ids = [] }

abbrev pub join : Marks → Marks → Marks
join a b = record { indices = a.indices ++ b.indices; ids = a.ids ++ b.ids }

-- `if eid: ids.add(eid)`.
abbrev pub add_id : String → List String → List String
add_id s ids = if s == "" then ids else s ∷ ids

-- Every entry marks its position and, unless empty, its id.
abbrev pub mark : List Entry → Marks
mark [] = no_marks
mark (e ∷ es) = record { indices = e.index ∷ (mark es).indices; ids = add_id e.id (mark es).ids }
