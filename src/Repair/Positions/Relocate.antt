-- ===== src/Repair/Positions/Relocate.antt =====
-- `relocate_step` of repair/positions.py where every event still stands at its source position.
use sesslint.Prelude.{
  ℕ, ◌<◌, String, ◌≡◌, refl, sym, ap, ◌∙◌, Option, none, some, List, [], ◌∷◌, length, pos, negsuc,
  ltb, arith, Bool-cases, inl, inr,
}
use sesslint.Values.{
  Value, null, bool, int, float, text, array, object, Fields, Items, item, no_items, get, has_key,
  put,
}
use sesslint.Repair.Result.{ok, ◌>>=◌}
use sesslint.Repair.Steps.{PlanStep}
use sesslint.Repair.Positions.{
  Positions, position_of, tag_origins, strip_origins, source_positions, relocate_index, relocate,
  relocate_items, relocate_target, relocate_param, relocate_params, relocate_list, relocate_lists,
  relocate_step,
}
use sesslint.Repair.Positions.Tags.{
  put-get, get-missing, own_positions, own-position_of, tag_origins-free, strip_origins-tags_from,
  source_positions-tags_from,
}

module _ (step : PlanStep) (ps : Positions) (n : ℕ)
    (own : (j : ℕ) → j < n → position_of ps (pos j) ≡ some j) where
  relocate_index-own : (i : ℕ) → i < n → relocate_index step ps n i ≡ ok i
  unfolding relocate_index
  relocate_index-own i low = rw (relocate_index, own i low) refl

  relocate-own : (v : Value) → relocate step ps n v ≡ ok v
  unfolding relocate
  relocate-own null = refl
  relocate-own (bool b) = refl
  relocate-own (int (pos i)) = elim (Bool-cases (ltb i n)) [
    | inl low ↦ rw (relocate, low, relocate_index-own i (ground arith)) refl
    | inr high ↦ rw (relocate, high) refl
  ]
  relocate-own (int (negsuc i)) = refl
  relocate-own (float s) = refl
  relocate-own (text s) = refl
  relocate-own (array vs) = refl
  relocate-own (object fs) = refl

  relocate_items-own : (vs : Items) → relocate_items step ps n vs ≡ ok vs
  unfolding relocate_items
  relocate_items-own no_items = refl
  relocate_items-own (item v vs) = rw (relocate-own v, relocate_items-own vs) refl

  relocate_target-own : (target : Option ℕ) → relocate_target step ps n target ≡ ok target
  unfolding relocate_target
  relocate_target-own none = refl
  relocate_target-own (some i) = elim (Bool-cases (ltb i n)) [
    | inl low ↦ rw (relocate_target, low, relocate_index-own i (ground arith)) refl
    | inr high ↦ rw (relocate_target, high) refl
  ]

  relocate_params-own :
      (keys : List String) (params : Fields) → relocate_params step ps n keys params ≡ ok params
  unfolding relocate_params relocate_param
  relocate_params-own [] params = refl
  relocate_params-own (key ∷ keys) params = elim (Bool-cases (has_key params key)) [
    | inl there ↦
        rw (there, relocate-own (get params key), put-get params key there)
          (relocate_params-own keys params)
    | inr missing ↦ rw missing (relocate_params-own keys params)
  ]

  absurd : {v : Value} {vs : Items} {B : Type 0} → v ≡ null → v ≡ array vs → B
  absurd e h = cc

  relocate_list-own :
      (params : Fields) (key : String) (v : Value)
      → get params key ≡ v
      → relocate_list step ps n params key v ≡ ok params
  unfolding relocate_list
  relocate_list-own params key (array vs) e = elim (Bool-cases (has_key params key)) [
    | inl there ↦
        rw (relocate_items-own vs)
          (ap ok (ap (λ w. put params key w) (sym e) ∙ put-get params key there))
    | inr missing ↦ absurd (get-missing params key missing) e
  ]
  relocate_list-own params key null e = refl
  relocate_list-own params key (bool b) e = refl
  relocate_list-own params key (int z) e = refl
  relocate_list-own params key (float s) e = refl
  relocate_list-own params key (text s) e = refl
  relocate_list-own params key (object fs) e = refl

  relocate_lists-own :
      (keys : List String) (params : Fields) → relocate_lists step ps n keys params ≡ ok params
  unfolding relocate_lists
  relocate_lists-own [] params = refl
  relocate_lists-own (key ∷ keys) params =
      rw (relocate_list-own params key (get params key) refl) (relocate_lists-own keys params)

  pub relocate_step-own : relocate_step step ps n ≡ ok step
  unfolding relocate_step
  relocate_step-own =
      rw
        (
          relocate_params-own _ step.params,
          relocate_lists-own _ step.params,
          relocate_target-own step.target_index,
        )
        refl

-- A session whose events are tagged is the same session once stripped, and a step that is relocated by
-- the positions that the tags give is the same step: as long as no recipe has run, tagging and
-- relocation change nothing.
pub strip_origins-tag_origins :
    (evs tagged : List Fields) (step : PlanStep)
    → tag_origins evs ≡ ok tagged
    → (strip_origins tagged ≡ evs)
      × ((do ps ← source_positions tagged; relocate_step step ps (length evs)) ≡ ok step)
strip_origins-tag_origins evs tagged step e =
    let (free, made) = tag_origins-free evs tagged e in
    rw made (
      strip_origins-tags_from 0 evs free,
      rw (source_positions-tags_from evs) (
          relocate_step-own step (own_positions 0 evs) (length evs)
            (λ j low. own-position_of 0 evs j (omega arith) (omega arith))),
    )
