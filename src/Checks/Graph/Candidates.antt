-- ===== src/Checks/Graph/Candidates.antt =====
-- `same_compaction_segment`, `is_qualifying_parent_candidate` and `find_qualifying_parent_candidates` of
-- checks/graph.py, for events that are `SessionEvent`s. A sequence number there is always an integer.
use sesslint.Prelude.{
  ℕ, suc, String, ◌==◌, Bool, true, false, ◌&&◌, not, Option, none, some, List, [], ◌∷◌,
  if◌then◌else◌, ℤ, pos, ◌+ℤ◌, ltb_ℤ, any, take,
}
use sesslint.Session.{SessionEvent}

abbrev pub min_ℤ : ℤ → ℤ → ℤ
min_ℤ a b = if ltb_ℤ b a then b else a

abbrev pub max_ℤ : ℤ → ℤ → ℤ
max_ℤ a b = if ltb_ℤ a b then b else a

-- `low_seq < z < high_seq`.
abbrev pub strictly_between : ℤ → ℤ → ℤ → Bool
strictly_between a b z = ltb_ℤ (min_ℤ a b) z && ltb_ℤ z (max_ℤ a b)

abbrev pub is_boundary : SessionEvent → Bool
is_boundary ev = ev.kind == "compaction_boundary"

abbrev breaks : ℤ → ℤ → SessionEvent → Bool
breaks a b ev = strictly_between a b ev.seq && is_boundary ev

-- The first guard is `high_seq - low_seq <= 1`.
unfoldable pub same_compaction_segment : List SessionEvent → SessionEvent → SessionEvent → Bool
same_compaction_segment evs a b =
    if not (ltb_ℤ (min_ℤ a.seq b.seq +ℤ pos 1) (max_ℤ a.seq b.seq))
    then true
    else not (any (breaks a.seq b.seq) evs)

abbrev pub same_branch : Option String → Option String → Bool
same_branch none none = true
same_branch none (some t) = false
same_branch (some s) none = false
same_branch (some s) (some t) = s == t

pub data Verdict : Type 0 where
  qualifies empty_candidate_id self_candidate no_full_match cross_branch cross_segment : Verdict

unfoldable pub is_qualifying_parent_candidate :
    SessionEvent → SessionEvent → List SessionEvent → String → Verdict
unfolding same_compaction_segment
is_qualifying_parent_candidate candidate child evs target_parent =
    if candidate.id == ""
    then empty_candidate_id
    else if candidate.id == child.id
    then self_candidate
    else if not (candidate.id == target_parent)
    then no_full_match
    else if not (same_branch candidate.branch_id child.branch_id)
    then cross_branch
    else if not (same_compaction_segment evs candidate child)
    then cross_segment
    else qualifies

abbrev pub is_qualified : Verdict → Bool
is_qualified qualifies = true
is_qualified empty_candidate_id = false
is_qualified self_candidate = false
is_qualified no_full_match = false
is_qualified cross_branch = false
is_qualified cross_segment = false

-- The loop over the events before the target: the qualifying indices, in order.
unfoldable pub qualifying_from :
    ℕ → List SessionEvent → SessionEvent → List SessionEvent → String → List ℕ
unfolding is_qualifying_parent_candidate
qualifying_from i [] child evs target = []
qualifying_from i (c ∷ cs) child evs target =
    let rest = qualifying_from (suc i) cs child evs target in
    if is_qualified (is_qualifying_parent_candidate c child evs target) then i ∷ rest else rest

unfoldable pub find_qualifying_parent_candidates :
    List SessionEvent → SessionEvent → ℕ → String → List ℕ
unfolding qualifying_from
find_qualifying_parent_candidates evs child target_idx target =
    qualifying_from 0 (take target_idx evs) child evs target
