-- ===== src/Prelude/Sort.antt =====
-- Python's `sorted` and `list.sort`: the stable sort by a key, as insertion of each item in front
-- of the first kept item that is not smaller. The order is a Boolean test on items.
use Prim.Native.Nat.{suc}
use mathlib.Core.Path.{◌≡◌, ap, ◌∙◌}
use mathlib.Core.Logic.{◌⊎◌, inl, inr}
use mathlib.Core.Bool.{Bool, true, false}
use mathlib.Core.List.{List, [], ◌∷◌, Perm}
use mathlib.Core.List.Perm
use native.Mathlib.Omega.{arith}
use sesslint.Prelude.Tests.{if◌then◌else◌, Bool-cases}
use sesslint.Prelude.Lists.{length, All}

-- Each item stands to the next in a relation.
abbrev pub Ordered {ℓ} : {A : Type ℓ} → (A → A → Type 0) → List A → Type 0
Ordered R [] = Unit
Ordered R (x ∷ []) = Unit
Ordered R (x ∷ y ∷ ys) = R x y × Ordered R (y ∷ ys)

module _ {ℓ} {A : Type ℓ} (le : A → A → Bool) where
  unfoldable pub insert : A → List A → List A
  insert x [] = x ∷ []
  insert x (y ∷ ys) = if le x y then x ∷ y ∷ ys else y ∷ insert x ys

  -- Later items are inserted first, so equal items keep their order.
  unfoldable pub sort : List A → List A
  unfolding insert
  sort [] = []
  sort (x ∷ xs) = insert x (sort xs)

  pub insert-perm : (x : A) (ys : List A) → Perm (insert x ys) (x ∷ ys)
  unfolding insert
  insert-perm x [] = Perm.refl _
  insert-perm x (y ∷ ys) = elim (Bool-cases (le x y)) [
    | inl h ↦ rw h (Perm.refl _)
    | inr h ↦ rw h (Perm.trans (Perm.cons y (insert-perm x ys)) (Perm.swap x y ys))
  ]

  pub sort-perm : (xs : List A) → Perm (sort xs) xs
  unfolding sort
  sort-perm [] = Perm.refl _
  sort-perm (x ∷ xs) = Perm.trans (insert-perm x (sort xs)) (Perm.cons x (sort-perm xs))

  pub length-insert : (x : A) (ys : List A) → length (insert x ys) ≡ suc (length ys)
  unfolding insert
  length-insert x [] = ground arith
  length-insert x (y ∷ ys) = ground (arith, length-insert x ys)

  pub length-sort : (xs : List A) → length (sort xs) ≡ length xs
  unfolding sort
  length-sort [] = ground arith
  length-sort (x ∷ xs) = length-insert x (sort xs) ∙ ap suc (length-sort xs)

  pub All-insert {κ} : (P : A → Type κ) (x : A) (ys : List A) → P x → All P ys → All P (insert x ys)
  unfolding insert
  All-insert P x [] h hs = (h, tt)
  All-insert P x (y ∷ ys) h hs = elim (Bool-cases (le x y)) [
    | inl e ↦ rw e (h, hs)
    | inr e ↦ rw e (hs.0, All-insert P x ys h hs.1)
  ]

  pub All-sort {κ} : (P : A → Type κ) (xs : List A) → All P xs → All P (sort xs)
  unfolding sort
  All-sort P [] h = tt
  All-sort P (x ∷ xs) h = All-insert P x (sort xs) h.0 (All-sort P xs h.1)

  -- Each item is at most the next.
  abbrev pub IsSorted : List A → Type 0
  IsSorted [] = Unit
  IsSorted (x ∷ []) = Unit
  IsSorted (x ∷ y ∷ ys) = (le x y ≡ true) × IsSorted (y ∷ ys)

  pub IsSorted-Ordered :
      (R : A → A → Type 0)
      → ((x y : A) → le x y ≡ true → R x y)
      → (xs : List A) → IsSorted xs
      → Ordered R xs
  IsSorted-Ordered R f [] h = tt
  IsSorted-Ordered R f (x ∷ []) h = tt
  IsSorted-Ordered R f (x ∷ y ∷ ys) h = (f x y h.0, IsSorted-Ordered R f (y ∷ ys) h.1)

  module _ (total : (x y : A) → (le x y ≡ true) ⊎ (le y x ≡ true)) where
    insert-below :
        (z x : A) (ys : List A) → le z x ≡ true → IsSorted (z ∷ ys) → IsSorted (z ∷ insert x ys)
    unfolding insert
    insert-below z x [] low h = (low, tt)
    insert-below z x (y ∷ ys) low h = elim (Bool-cases (le x y)) [
      | inl e ↦ rw e (low, (e, h.1))
      | inr e ↦ rw e (h.0, insert-below y x ys (after x y e) h.1)
    ]
      where
        after : (a b : A) → le a b ≡ false → le b a ≡ true
        after a b e = elim (total a b) [ inl p ↦ cc | inr p ↦ p ]

    insert-IsSorted : (x : A) (ys : List A) → IsSorted ys → IsSorted (insert x ys)
    unfolding insert
    insert-IsSorted x [] h = tt
    insert-IsSorted x (y ∷ ys) h = elim (Bool-cases (le x y)) [
      | inl e ↦ rw e (e, h)
      | inr e ↦ rw e (insert-below y x ys (elim (total x y) [ inl p ↦ cc | inr p ↦ p ]) h)
    ]

    pub sort-IsSorted : (xs : List A) → IsSorted (sort xs)
    unfolding sort
    sort-IsSorted [] = tt
    sort-IsSorted (x ∷ xs) = insert-IsSorted x (sort xs) (sort-IsSorted xs)
