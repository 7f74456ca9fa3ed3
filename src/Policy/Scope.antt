-- ===== src/Policy/Scope.antt =====
-- `AffectedRegion` and `check_step_scope` of policy/abstention.py. A region's positions are integers,
-- as a recipe may name one outside the session; only those of events matter below.
pub mod Regions
pub mod Disjoint
use sesslint.Prelude.{
  ℕ, zero, suc, ◌+◌, ◌-◌, min, String, ◌==◌, Bool, true, false, not, ◌&&◌, ◌||◌, Option, none, some,
  List, [], ◌∷◌, ◌++◌, any, length, if◌then◌else◌, ℤ, pos, negsuc, ◌+ℤ◌, sub_ℕ, pos_part, neg_part,
  eqb_ℤ, clamp_zero, leb, ltb, mem_ℕ, mem_text,
}
use sesslint.Session.{SessionEvent, Host}
use sesslint.Finding.{Finding, has_sl203}
use sesslint.Policy.SideEffects.{is_tool, extract_side_effects}
use sesslint.Policy.Ambiguity.Entries.{AmbiguousEvents, add_id}
use sesslint.Policy.Ambiguity.Find.{find_ambiguous_events}

pub record AffectedRegion : Type 0 where
  pub indices : List ℤ
  pub ids : List String
  pub ranges : List (ℤ × ℤ)
  pub unproven : Bool

abbrev pub mem_ℤ : ℤ → List ℤ → Bool
mem_ℤ z [] = false
mem_ℤ z (x ∷ xs) = eqb_ℤ z x || mem_ℤ z xs

-- The integers `z`, `z + 1`, ... of a given number.
unfoldable pub span : ℤ → ℕ → List ℤ
span z zero = []
span z (suc n) = z ∷ span (z +ℤ pos 1) n

-- `end + 1`, cut off at zero and at the length.
abbrev pub stop_within : ℕ → ℤ → ℕ
stop_within n (pos e) = min n (e + 1)
stop_within n (negsuc e) = 0

-- `range(start, end + 1)`, both ends cut to the session if its length is given.
unfoldable pub range_indices : Option ℕ → ℤ × ℤ → List ℤ
unfolding span
range_indices (some n) (start, end) =
    span (pos (clamp_zero start)) (stop_within n end - clamp_zero start)
range_indices none (start, end) =
    span start
      (pos_part (sub_ℕ (pos_part end + 1 + neg_part start) (neg_part end + pos_part start)))

unfoldable pub ranges_indices : Option ℕ → List (ℤ × ℤ) → List ℤ
unfolding range_indices
ranges_indices total [] = []
ranges_indices total (r ∷ rs) = range_indices total r ++ ranges_indices total rs

-- `AffectedRegion.all_indices`.
unfoldable pub all_indices : AffectedRegion → Option ℕ → List ℤ
unfolding ranges_indices
all_indices region total = region.indices ++ ranges_indices total region.ranges

-- The ids of the events at affected positions.
unfoldable pub touched_ids : List ℤ → ℕ → List SessionEvent → List String
touched_ids affected i [] = []
touched_ids affected i (ev ∷ evs) =
    let rest = touched_ids affected (suc i) evs in
    if mem_ℤ (pos i) affected then add_id ev.id rest else rest

-- The positions of the events with an affected id.
unfoldable pub touched_indices : List String → ℕ → List SessionEvent → List ℕ
touched_indices ids i [] = []
touched_indices ids i (ev ∷ evs) =
    let rest = touched_indices ids (suc i) evs in
    if not (ev.id == "") && mem_text ev.id ids then i ∷ rest else rest

-- What a step affects, after both loops.
pub record Affected : Type 0 where
  pub given : List ℤ
  pub ids : List String
  pub indices : List ℕ

unfoldable pub affected_of : AffectedRegion → List SessionEvent → Affected
unfolding all_indices touched_ids touched_indices
affected_of region evs =
    let given = all_indices region (some (length evs)) in
    let ids = region.ids ++ touched_ids given 0 evs in
    record { given = given; ids = ids; indices = touched_indices ids 0 evs }

abbrev pub is_affected : Affected → ℕ → Bool
is_affected a i = mem_ℤ (pos i) a.given || mem_ℕ i a.indices

-- A tool event in the region whose side effects are not known to be none.
unfoldable pub has_effects : Host → Affected → ℕ → List SessionEvent → Bool
has_effects host a i [] = false
has_effects host a i (ev ∷ evs) =
    is_affected a i && is_tool ev && not (extract_side_effects host ev == "none")
    || has_effects host a (suc i) evs

abbrev pub proven : Bool × Option String
proven = (true, none)

abbrev pub scope_unproven : Bool × Option String
scope_unproven = (false, some "side-effect-scope-unproven")

-- The proof of disjointness for a region, against the ambiguous events.
unfoldable pub check_region :
    Host → List SessionEvent → AffectedRegion → Bool → AmbiguousEvents → Bool × Option String
unfolding affected_of has_effects
check_region host evs region excludes ambiguous =
    let a = affected_of region evs in
    if any (is_affected a) ambiguous.indices
    then scope_unproven
    else if any (λ s. mem_text s ambiguous.ids) a.ids
    then scope_unproven
    else if has_effects host a 0 evs && not excludes
    then scope_unproven
    else proven

abbrev pub or_found :
    Host → List SessionEvent → List Finding → Option AmbiguousEvents → AmbiguousEvents
or_found host evs fs none = find_ambiguous_events host evs fs
or_found host evs fs (some a) = a

-- The check of what a region function answered. `none` stands for `None` and for an exception, which
-- the source treats alike.
unfoldable pub check_answer :
    Host
    → List SessionEvent
    → Option AffectedRegion
    → List Finding
    → Bool
    → Option AmbiguousEvents
    → Bool × Option String
unfolding check_region
check_answer host evs none fs excludes ambiguous = scope_unproven
check_answer host evs (some region) fs excludes ambiguous =
    if region.unproven
    then scope_unproven
    else if has_sl203 fs
    then scope_unproven
    else check_region host evs region excludes (or_found host evs fs ambiguous)

-- A recipe may have no region function.
unfoldable pub check_step_scope :
    {Step : Type 0}
    → Host
    → Step
    → List SessionEvent
    → Option (Step → List SessionEvent → Option AffectedRegion)
    → List Finding
    → Bool
    → Option AmbiguousEvents
    → Bool × Option String
unfolding check_answer
check_step_scope host step evs none fs excludes ambiguous = scope_unproven
check_step_scope host step evs (some region_fn) fs excludes ambiguous =
    check_answer host evs (region_fn step evs) fs excludes ambiguous
