-- ===== src/Repair/Recipes/Moves.antt =====
-- The move of one item to a later place, as `pop` and `insert`.
use sesslint.Prelude.{
  ℕ, zero, suc, ◌-◌, ◌<◌, ◌≡◌, refl, false, ◌&&◌, some, List, [], ◌∷◌, length, if◌then◌else◌, arith,
  get_elem?, ltb, eqb, Bool-cases, inl, inr, eqb_iff, leb, ◌∙◌, ◌≤◌, sym,
}
use mathlib.Core.Path.{subst}
use sesslint.Repair.Recipes.Edits.{
  remove_at, insert_at, shifted, get_elem?-remove_at, length-remove_at,
}

pub get_elem?-insert_at :
    {A : Type 0} (i : ℕ) (x : A) (xs : List A)
    → i ≤ length xs
    → get_elem? (insert_at i x xs) i ≡ some x
unfolding insert_at
get_elem?-insert_at zero x xs h = refl
get_elem?-insert_at (suc i) x [] h = absurd (omega arith)
get_elem?-insert_at (suc i) x (y ∷ ys) h = get_elem?-insert_at i x ys (omega arith)

pub get_elem?-insert_at_below :
    {A : Type 0} (i k : ℕ) (x : A) (xs : List A)
    → i ≤ length xs
    → k < i
    → get_elem? (insert_at i x xs) k ≡ get_elem? xs k
unfolding insert_at
get_elem?-insert_at_below zero k x xs h low = absurd (omega arith)
get_elem?-insert_at_below (suc i) k x [] h low = absurd (omega arith)
get_elem?-insert_at_below (suc i) zero x (y ∷ ys) h low = refl
get_elem?-insert_at_below (suc i) (suc k) x (y ∷ ys) h low =
    get_elem?-insert_at_below i k x ys (omega arith) (omega arith)

pub get_elem?-insert_at_above :
    {A : Type 0} (i k : ℕ) (x : A) (xs : List A)
    → i ≤ length xs
    → i ≤ k
    → get_elem? (insert_at i x xs) (suc k) ≡ get_elem? xs k
unfolding insert_at
get_elem?-insert_at_above zero k x xs h high = refl
get_elem?-insert_at_above (suc i) k x [] h high = absurd (omega arith)
get_elem?-insert_at_above (suc i) zero x (y ∷ ys) h high = absurd (omega arith)
get_elem?-insert_at_above (suc i) (suc k) x (y ∷ ys) h high =
    get_elem?-insert_at_above i k x ys (omega arith) (omega arith)

-- Where the item at `j` stands once the item at `b` has moved to the later position `hi`.
abbrev pub moved : ℕ → ℕ → ℕ → ℕ
moved b hi j = if eqb j b then hi else if ltb b j && leb j hi then j - 1 else j

-- The move of one item: every item is found again.
pub get_elem?-moved :
    {A : Type 0} (b hi j : ℕ) (x : A) (xs : List A)
    → get_elem? xs b ≡ some x
    → b < hi
    → hi < length xs
    → get_elem? (insert_at hi x (remove_at b xs)) (moved b hi j) ≡ get_elem? xs j
get_elem?-moved {A = A} b hi j x xs at low high = elim (Bool-cases (eqb j b)) [
  | inl e ↦ let same = (eqb_iff j b).0 e in rw (e, same, at) (get_elem?-insert_at hi x ys room)
  | inr e ↦
      let kept = get_elem?-remove_at b j xs e in
      elim (Bool-cases (ltb b j && leb j hi)) [
        | inl t ↦
            let placed = get_elem?-insert_at_below hi (j - 1) x ys room (ground arith) in
            let here : shifted b j ≡ j - 1 = ground arith in rw (e, t) (placed ∙ rw here at kept)
        | inr t ↦ rw (e, t) (elsewhere e t kept)
      ]
]
  where
    ys : List A
    ys = remove_at b xs

    room : hi ≤ length ys
    room = omega (arith, length-remove_at b xs (omega arith))

    elsewhere :
        eqb j b ≡ false
        → (ltb b j && leb j hi) ≡ false
        → get_elem? ys (shifted b j) ≡ get_elem? xs j
        → get_elem? (insert_at hi x ys) j ≡ get_elem? xs j
    elsewhere e t kept = elim (Bool-cases (ltb b j)) [
      | inl u ↦
          let before : j ≡ suc (j - 1) = ground arith in
          let here : shifted b j ≡ j - 1 = ground arith in
          subst (λ k. get_elem? (insert_at hi x ys) k ≡ get_elem? xs j) (sym before)
            (get_elem?-insert_at_above hi (j - 1) x ys room (ground arith) ∙ rw here at kept)
      | inr u ↦
          let here : shifted b j ≡ j = ground arith in
          get_elem?-insert_at_below hi j x ys room (ground arith) ∙ rw here at kept
    ]
