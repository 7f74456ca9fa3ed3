-- ===== src/Prelude/Sets.antt =====
-- Python's sets of numbers and of texts as lists, read through membership alone.
use Prim.Native.Nat.{ℕ}
use Prim.Native.String.{String}
use mathlib.Core.Path.{◌≡◌, refl}
use mathlib.Core.Bool.{Bool, false, ◌||◌}
use mathlib.Core.List.{List, [], ◌∷◌, ◌++◌}
use native.Mathlib.Omega.{arith}
use sesslint.Prelude.Tests.{eqb, ◌==◌}

abbrev pub mem_ℕ : ℕ → List ℕ → Bool
mem_ℕ i [] = false
mem_ℕ i (x ∷ xs) = eqb i x || mem_ℕ i xs

abbrev pub mem_text : String → List String → Bool
mem_text s [] = false
mem_text s (x ∷ xs) = s == x || mem_text s xs

pub mem_ℕ-append : (i : ℕ) (xs ys : List ℕ) → mem_ℕ i (xs ++ ys) ≡ (mem_ℕ i xs || mem_ℕ i ys)
mem_ℕ-append i [] ys = refl
mem_ℕ-append i (x ∷ xs) ys = ground (arith, mem_ℕ-append i xs ys)

pub mem_text-append :
    (s : String) (xs ys : List String) → mem_text s (xs ++ ys) ≡ (mem_text s xs || mem_text s ys)
mem_text-append s [] ys = refl
mem_text-append s (x ∷ xs) ys = ground (arith, mem_text-append s xs ys)
