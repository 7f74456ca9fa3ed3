-- ===== src/Policy/Ambiguity/Subjects.antt =====
-- The first part of `find_ambiguous_events`: the subjects of SL203 findings.
use sesslint.Prelude.{
  ℕ, suc, String, ◌==◌, ◌&&◌, Option, none, some, List, [], ◌∷◌, ◌++◌, if◌then◌else◌, length, ℤ,
  in_range, clamp_zero, leb,
}
use sesslint.Values.{Fields, get, as_int}
use sesslint.Session.{SessionEvent, non_empty}
use sesslint.Finding.{Finding}
use sesslint.Policy.SideEffects.{is_tool}
use sesslint.Policy.Ambiguity.Entries.{Marks, no_marks, join, add_id}

abbrev add_index : Option ℤ → ℕ → List ℕ → List ℕ
add_index none n is = is
add_index (some z) n is = elim (in_range z n) [ none ↦ is | some i ↦ i ∷ is ]

tools_from : ℕ → ℕ → List SessionEvent → Marks
tools_from start i [] = no_marks
tools_from start i (ev ∷ evs) =
    let rest = tools_from start (suc i) evs in
    if leb start i && is_tool ev
    then record { indices = i ∷ rest.indices; ids = add_id ev.id rest.ids }
    else rest

evidence_marks : Option Fields → List SessionEvent → Marks
unfolding tools_from
evidence_marks none evs = no_marks
evidence_marks (some e) evs =
    let n = length evs in
    let named =
      add_index (as_int (get e "record_ordinal")) n
        (add_index (as_int (get e "at_index")) n (add_index (as_int (get e "index")) n [])) in
    let unsafe : Marks = elim (as_int (get e "first_unsafe_index")) [
      | none ↦ no_marks
      | some z ↦ tools_from (clamp_zero z) 0 evs
    ] in
    record { indices = named ++ unsafe.indices; ids = unsafe.ids }

abbrev record_ids : Option String → List String
record_ids r = elim (non_empty r) [ none ↦ [] | some s ↦ s ∷ [] ]

unfoldable pub sl203_marks : List Finding → List SessionEvent → Marks
unfolding evidence_marks
sl203_marks [] evs = no_marks
sl203_marks (f ∷ fs) evs =
    let rest = sl203_marks fs evs in
    if f.code == "SL203"
    then join (record { indices = []; ids = record_ids f.source.record_id })
        (join (evidence_marks f.evidence evs) rest)
    else rest
