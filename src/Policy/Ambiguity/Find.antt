-- ===== src/Policy/Ambiguity/Find.antt =====
-- `find_ambiguous_events`: the marks of findings and of pairings, and the pass that completes them.
use sesslint.Prelude.{
  ℕ, suc, String, ◌==◌, ◌&&◌, not, List, [], ◌∷◌, if◌then◌else◌, mem_ℕ, mem_text,
}
use sesslint.Session.{SessionEvent, Host}
use sesslint.Finding.{Finding}
use sesslint.Policy.Ambiguity.Entries.{AmbiguousEvents, Marks, join, add_id, mark}
use sesslint.Policy.Ambiguity.Subjects.{sl203_marks}
use sesslint.Policy.Ambiguity.Pairing.{Verdict, also, uncorrelated, correlations, judge_all}

-- One step of the last loop: the position's id, then the id's position.
abbrev pub complete_at : ℕ → String → Marks → Marks
complete_at i s m =
    let ids = if mem_ℕ i m.indices then add_id s m.ids else m.ids in
    record {
      indices = if not (s == "") && mem_text s ids then i ∷ m.indices else m.indices;
      ids = ids;
    }

unfoldable pub complete : ℕ → List SessionEvent → Marks → Marks
complete i [] m = m
complete i (ev ∷ evs) m = complete (suc i) evs (complete_at i ev.id m)

unfoldable pub pairing_verdict : Host → List SessionEvent → Verdict
unfolding uncorrelated correlations judge_all
pairing_verdict host evs = also (uncorrelated host 0 evs) (judge_all host evs (correlations evs))

-- What is marked before the last loop.
unfoldable pub initial_marks : Host → List SessionEvent → List Finding → Marks
unfolding sl203_marks pairing_verdict
initial_marks host evs fs = join (sl203_marks fs evs) (mark (pairing_verdict host evs).marked)

unfoldable pub find_ambiguous_events : Host → List SessionEvent → List Finding → AmbiguousEvents
unfolding complete initial_marks pairing_verdict
find_ambiguous_events host evs fs =
    let done = complete 0 evs (initial_marks host evs fs) in
    record { indices = done.indices; ids = done.ids; reasons = (pairing_verdict host evs).reasons }
