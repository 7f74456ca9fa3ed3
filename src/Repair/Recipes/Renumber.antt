-- ===== src/Repair/Recipes/Renumber.antt =====
-- `apply_seq_renumber` and its region.
use sesslint.Prelude.{ℕ, suc, ◌≡◌, refl, ap, false, List, [], ◌∷◌, map, ℤ, pos}
use sesslint.Session.{SessionEvent}
use sesslint.Policy.Scope.{AffectedRegion}
use sesslint.Repair.Steps.{PlanStep}

unfoldable pub renumber_from : ℕ → List SessionEvent → List SessionEvent
renumber_from i [] = []
renumber_from i (ev ∷ evs) = record ev { seq = pos i } ∷ renumber_from (suc i) evs

unfoldable pub apply_seq_renumber : List SessionEvent → PlanStep → List SessionEvent
unfolding renumber_from
apply_seq_renumber evs step = renumber_from 0 evs

-- A proven region with nothing in it.
unfoldable pub affected_region_seq_renumber : PlanStep → List SessionEvent → AffectedRegion
affected_region_seq_renumber step evs = record {
  indices = [];
  ids = [];
  ranges = [];
  unproven = false;
}

-- The event without its number.
abbrev pub without_seq : SessionEvent → SessionEvent
without_seq ev = record ev { seq = pos 0 }

abbrev pub counted : ℕ → List SessionEvent → List ℤ
counted i [] = []
counted i (ev ∷ evs) = pos i ∷ counted (suc i) evs

renumber_from_lem :
    (i : ℕ) (evs : List SessionEvent)
    → (map (λ ev. ev.seq) (renumber_from i evs) ≡ counted i evs)
      × (map without_seq (renumber_from i evs) ≡ map without_seq evs)
unfolding renumber_from
renumber_from_lem i [] = (refl, refl)
renumber_from_lem i (ev ∷ evs) = (
  ap (λ ns. pos i ∷ ns) (renumber_from_lem (suc i) evs).0,
  ap (λ es. without_seq ev ∷ es) (renumber_from_lem (suc i) evs).1,
)

renumber_from_twice :
    (i : ℕ) (evs : List SessionEvent) → renumber_from i (renumber_from i evs) ≡ renumber_from i evs
unfolding renumber_from
renumber_from_twice i [] = refl
renumber_from_twice i (ev ∷ evs) =
    ap (λ es. record ev { seq = pos i } ∷ es) (renumber_from_twice (suc i) evs)

-- Renumbering numbers the events 0, 1, 2, … in their order and changes nothing else; a second renumbering
-- changes nothing.
pub apply_seq_renumber_lem :
    (evs : List SessionEvent) (step : PlanStep)
    → (map (λ ev. ev.seq) (apply_seq_renumber evs step) ≡ counted 0 evs)
      × (map without_seq (apply_seq_renumber evs step) ≡ map without_seq evs)
      × (apply_seq_renumber (apply_seq_renumber evs step) step ≡ apply_seq_renumber evs step)
unfolding apply_seq_renumber
apply_seq_renumber_lem evs step =
    ((renumber_from_lem 0 evs).0, (renumber_from_lem 0 evs).1, renumber_from_twice 0 evs)
