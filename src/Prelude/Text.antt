-- ===== src/Prelude/Text.antt =====
-- The order of Python's texts, by code points, and the letters that `str.lower` changes.
use Prim.Native.Nat.{ℕ, ◌+◌, Ordering, compare as compare_ℕ}
use Prim.Native.Char.{code}
use Prim.Native.String.compare
use Prim.Native.String.{String, compare, then as first}
use mathlib.Core.Path.{◌≡◌, ap}
use mathlib.Core.Logic.{◌⊎◌, inl, inr}
use mathlib.Core.Bool.{Bool, true, false, ◌&&◌, ◌||◌}
use mathlib.Core.List.{List, [], ◌∷◌}
use native.Mathlib.Omega.{arith}
use sesslint.Prelude.Tests.{leb, eqb, if◌then◌else◌}

abbrev not_gt : Ordering → Bool
not_gt Ordering.gt = false
not_gt _ = true

-- `s <= t`.
unfoldable pub le_text : String → String → Bool
le_text s t = not_gt (compare s t)

flip_cases :
    (a b : ℕ) (o p : Ordering)
    → (not_gt o ≡ true) ⊎ (not_gt p ≡ true)
    → (not_gt (first (compare_ℕ a b) o) ≡ true) ⊎ (not_gt (first (compare_ℕ b a) p) ≡ true)
flip_cases a b o p h = ground arith

pub le_text-total : (s t : String) → (le_text s t ≡ true) ⊎ (le_text t s ≡ true)
unfolding le_text
le_text-total String.[] String.[] = inl (ap not_gt (compare.nil-nil))
le_text-total String.[] (String.◌∷◌ d t) = inl (ap not_gt (compare.nil-cons d t))
le_text-total (String.◌∷◌ c s) String.[] = inr (ap not_gt (compare.nil-cons c s))
le_text-total (String.◌∷◌ c s) (String.◌∷◌ d t) =
    rw (compare.cons-cons c d s t, compare.cons-cons d c t s)
      (flip_cases (code c) (code d) _ _ (le_text-total s t))

trans_cases :
    (a b c : ℕ) (o p q : Ordering)
    → (not_gt o ≡ true → not_gt p ≡ true → not_gt q ≡ true)
    → not_gt (first (compare_ℕ a b) o) ≡ true
    → not_gt (first (compare_ℕ b c) p) ≡ true
    → not_gt (first (compare_ℕ a c) q) ≡ true
trans_cases a b c o p q f h k = ground arith

pub le_text_trans : (s t u : String) → le_text s t ≡ true → le_text t u ≡ true → le_text s u ≡ true
unfolding le_text
le_text_trans String.[] t String.[] h k = ap not_gt (compare.nil-nil)
le_text_trans String.[] t (String.◌∷◌ e u) h k = ap not_gt (compare.nil-cons e u)
le_text_trans (String.◌∷◌ c s) String.[] u h k = absurd (cc (h, compare.cons-nil c s))
le_text_trans (String.◌∷◌ c s) (String.◌∷◌ d t) String.[] h k =
    absurd (cc (k, compare.cons-nil d t))
le_text_trans (String.◌∷◌ c s) (String.◌∷◌ d t) (String.◌∷◌ e u) h k =
    rw (compare.cons-cons c e s u) (
      trans_cases (code c) (code d) (code e) (compare s t) (compare t u) _ (le_text_trans s t u)
        (rw (compare.cons-cons c d s t) at h) (rw (compare.cons-cons d e t u) at k))

-- The code points of a text.
abbrev pub codes : String → List ℕ
codes String.[] = []
codes (String.◌∷◌ c s) = code c ∷ codes s

-- `str.lower` on the letters that it maps into ASCII: A to Z, and the Kelvin sign, which becomes
-- k. Any other letter stays outside ASCII, so a comparison with ASCII names is that of the source.
abbrev lower_code : ℕ → ℕ
lower_code c = if leb 65 c && leb c 90 then c + 32 else if eqb c 8490 then 107 else c

abbrev lowered : List ℕ → List ℕ
lowered [] = []
lowered (c ∷ cs) = lower_code c ∷ lowered cs

abbrev same_codes : List ℕ → List ℕ → Bool
same_codes [] [] = true
same_codes [] (d ∷ ds) = false
same_codes (c ∷ cs) [] = false
same_codes (c ∷ cs) (d ∷ ds) = eqb c d && same_codes cs ds

-- `name.lower() in names`, for names in lower-case ASCII.
unfoldable pub lower_in : String → List String → Bool
lower_in s [] = false
lower_in s (n ∷ ns) = same_codes (lowered (codes s)) (codes n) || lower_in s ns
