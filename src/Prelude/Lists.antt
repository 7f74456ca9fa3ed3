-- ===== src/Prelude/Lists.antt =====
-- Lists measured and indexed by native numbers, under the library's names, with Boolean
-- quantifiers and positions counted from a start.
use Prim.Native.Nat.{ℕ, zero, suc, ◌+◌, ◌≤◌, ◌<◌}
use mathlib.Core.Path.{◌≡◌, refl, ap}
use mathlib.Core.Logic.{◌⊎◌, inl, inr}
use mathlib.Core.Bool.{Bool, true, false, ◌&&◌, ◌||◌}
use mathlib.Core.List.{List, [], ◌∷◌, ◌++◌, map}
use mathlib.Core.Option.{Option, none, some}
use native.Mathlib.Omega.{arith}
use sesslint.Prelude.Tests.{if◌then◌else◌}

module _ {ℓ} {A : Type ℓ} where
  abbrev pub length : List A → ℕ
  length [] = 0
  length (x ∷ xs) = suc (length xs)

  abbrev pub get_elem? : List A → ℕ → Option A
  get_elem? [] i = none
  get_elem? (x ∷ xs) zero = some x
  get_elem? (x ∷ xs) (suc i) = get_elem? xs i

  abbrev pub take : ℕ → List A → List A
  take zero xs = []
  take (suc n) [] = []
  take (suc n) (x ∷ xs) = x ∷ take n xs

  abbrev pub drop : ℕ → List A → List A
  drop zero xs = xs
  drop (suc n) [] = []
  drop (suc n) (x ∷ xs) = drop n xs

  -- `any` and `all` of a test, as Python's, and the list of the items that pass one.
  abbrev pub any : (A → Bool) → List A → Bool
  any p [] = false
  any p (x ∷ xs) = p x || any p xs

  abbrev pub all : (A → Bool) → List A → Bool
  all p [] = true
  all p (x ∷ xs) = p x && all p xs

  abbrev pub keep : (A → Bool) → List A → List A
  keep p [] = []
  keep p (x ∷ xs) = if p x then x ∷ keep p xs else keep p xs

  -- The items with their positions, counted from a start.
  abbrev pub enumerate_from : ℕ → List A → List (ℕ × A)
  enumerate_from n [] = []
  enumerate_from n (x ∷ xs) = (n, x) ∷ enumerate_from (suc n) xs

  pub length-append : (xs ys : List A) → length (xs ++ ys) ≡ length xs + length ys
  length-append [] ys = omega arith
  length-append (x ∷ xs) ys = omega (arith, length-append xs ys)

  pub length-take-add-drop :
      (n : ℕ) (xs : List A) → length (take n xs) + length (drop n xs) ≡ length xs
  length-take-add-drop zero xs = omega arith
  length-take-add-drop (suc n) [] = omega arith
  length-take-add-drop (suc n) (x ∷ xs) = omega (arith, length-take-add-drop n xs)

  pub length-take-le : (n : ℕ) (xs : List A) → length (take n xs) ≤ n
  length-take-le zero xs = omega arith
  length-take-le (suc n) [] = omega arith
  length-take-le (suc n) (x ∷ xs) = omega (arith, length-take-le n xs)

  -- A predicate at every item, computing to a tuple.
  abbrev pub All {κ} : (A → Type κ) → List A → Type κ
  All P [] = Unit
  All P (x ∷ xs) = P x × All P xs

  pub All-append {κ} :
      (P : A → Type κ) (front back : List A) → All P front → All P back → All P (front ++ back)
  All-append P [] back _ h = h
  All-append P (x ∷ front) back h k = (h.0, All-append P front back h.1 k)

  pub All-map_of {κ μ} :
      (P : A → Type κ) (Q : A → Type μ) (f : (x : A) → P x → Q x) (xs : List A)
      → All P xs
      → All Q xs
  All-map_of P Q f [] h = tt
  All-map_of P Q f (x ∷ xs) h = (f x h.0, All-map_of P Q f xs h.1)

  pub All-take {κ} : (P : A → Type κ) (n : ℕ) (xs : List A) → All P xs → All P (take n xs)
  All-take P zero xs h = tt
  All-take P (suc n) [] h = tt
  All-take P (suc n) (x ∷ xs) h = (h.0, All-take P n xs h.1)

pub length-map {ℓ κ} :
    {A : Type ℓ} {B : Type κ} (f : A → B) (xs : List A) → length (map f xs) ≡ length xs
length-map f [] = refl
length-map f (x ∷ xs) = ap suc (length-map f xs)

-- The item `x` stands at position `j` of a list whose positions count from `i`.
abbrev pub At : {A : Type 0} → ℕ → List A → ℕ → A → Type 0
At i [] j x = ⊥
At i (y ∷ ys) j x = ((i ≡ j) × (y ≡ x)) ⊎ At (suc i) ys j x

pub At-le : {A : Type 0} (i : ℕ) (xs : List A) (j : ℕ) (x : A) → At i xs j x → i ≤ j
At-le i [] j x h = elim h [ ]
At-le i (y ∷ ys) j x (inl (p, q)) = omega arith
At-le i (y ∷ ys) j x (inr h) = omega (arith, At-le (suc i) ys j x h)

pub At-lt_length :
    {A : Type 0} (i : ℕ) (xs : List A) (j : ℕ) (x : A) → At i xs j x → j < i + length xs
At-lt_length i [] j x h = elim h [ ]
At-lt_length i (y ∷ ys) j x (inl (p, q)) = omega arith
At-lt_length i (y ∷ ys) j x (inr h) = omega (arith, At-lt_length (suc i) ys j x h)

At-from :
    {A : Type 0} (i : ℕ) (xs : List A) (k j : ℕ) (x : A)
    → get_elem? xs k ≡ some x
    → i + k ≡ j
    → At i xs j x
At-from i [] k j x h e = cc
At-from i (y ∷ ys) zero j x h e = inl (omega arith, ground arith)
At-from i (y ∷ ys) (suc k) j x h e = inr (At-from (suc i) ys k j x h (omega arith))

-- `xs[j]` is the item at `j`.
pub At-get_elem? :
    {A : Type 0} (xs : List A) (j : ℕ) (x : A) → get_elem? xs j ≡ some x → At 0 xs j x
At-get_elem? xs j x h = At-from 0 xs j j x h (omega arith)
