-- ===== src/Repair/Recipes/Suffix.antt =====
-- `apply_terminal_suffix_discard`.
use sesslint.Prelude.{
  ℕ, suc, ◌<◌, ◌≡◌, refl, ◌==◌, Bool, false, Option, none, some, List, [], ◌∷◌, any, length,
  if◌then◌else◌, arith, take, drop, leb, eqb, ℤ, pos, negsuc,
}
use sesslint.Values.{get, as_plain_int}
use sesslint.Session.{SessionEvent}
use sesslint.Repair.Result.{
  Result, ok, err, precondition_failed, missing_cut, empties_session, cut_past_end,
  checkpoint_in_suffix,
}
use sesslint.Repair.Steps.{PlanStep}

abbrev pub cut_index : PlanStep → Option ℤ
cut_index step = elim step.target_index [
  | some i ↦ some (pos i)
  | none ↦ as_plain_int (get step.params "cut_index")
]

abbrev pub is_checkpoint : SessionEvent → Bool
is_checkpoint ev = ev.kind == "checkpoint"

-- The position of the first checkpoint of the suffix.
unfoldable pub first_checkpoint : ℕ → List SessionEvent → Option ℕ
first_checkpoint i [] = none
first_checkpoint i (ev ∷ evs) =
    let rest = first_checkpoint (suc i) evs in if is_checkpoint ev then some i else rest

unfoldable pub discard_from : List SessionEvent → ℕ → Result (List SessionEvent)
unfolding first_checkpoint
discard_from evs cut =
    if eqb cut 0
    then err (precondition_failed empties_session)
    else if leb (length evs) cut
    then err (precondition_failed cut_past_end)
    else elim (first_checkpoint cut (drop cut evs)) [
      | some i ↦ err (precondition_failed (checkpoint_in_suffix i))
      | none ↦ ok (take cut evs)
    ]

abbrev discard_at : List SessionEvent → Option ℤ → Result (List SessionEvent)
discard_at evs none = err (precondition_failed missing_cut)
discard_at evs (some (negsuc n)) = err (precondition_failed empties_session)
discard_at evs (some (pos cut)) = discard_from evs cut

unfoldable pub apply_terminal_suffix_discard :
    List SessionEvent → PlanStep → Result (List SessionEvent)
unfolding discard_from
apply_terminal_suffix_discard evs step = discard_at evs (cut_index step)

no_checkpoint :
    (i : ℕ) (evs : List SessionEvent)
    → first_checkpoint i evs ≡ none
    → any is_checkpoint evs ≡ false
unfolding first_checkpoint
no_checkpoint i [] h = refl
no_checkpoint i (ev ∷ evs) h = ground (arith, no_checkpoint (suc i) evs)

discard_from-ok :
    (evs out : List SessionEvent) (cut : ℕ)
    → discard_from evs cut ≡ ok out
    → (0 < cut)
      × (cut < length evs)
      × (any is_checkpoint (drop cut evs) ≡ false)
      × (out ≡ take cut evs)
unfolding discard_from
discard_from-ok evs out cut h = ground (arith, no_checkpoint cut (drop cut evs))

-- A suffix is discarded only from a cut inside the session, behind its first event, with no checkpoint
-- from the cut on; what is left is the events before the cut.
pub apply_terminal_suffix_discard-ok :
    (evs : List SessionEvent) (step : PlanStep) (out : List SessionEvent)
    → apply_terminal_suffix_discard evs step ≡ ok out
    → (cut : ℕ) × (cut_index step ≡ some (pos cut))
      × (0 < cut)
      × (cut < length evs)
      × (any is_checkpoint (drop cut evs) ≡ false)
      × (out ≡ take cut evs)
unfolding apply_terminal_suffix_discard
apply_terminal_suffix_discard-ok evs step out h = on_cut (cut_index step) h
  where
    on_cut :
        (o : Option ℤ)
        → discard_at evs o ≡ ok out
        → (cut : ℕ) × (o ≡ some (pos cut))
          × (0 < cut)
          × (cut < length evs)
          × (any is_checkpoint (drop cut evs) ≡ false)
          × (out ≡ take cut evs)
    on_cut none h = cc
    on_cut (some (negsuc n)) h = cc
    on_cut (some (pos cut)) h =
        let (low, high, clear, same) = discard_from-ok evs out cut h in
        (cut, refl, low, high, clear, same)
