-- ===== src/Diff/Ranges.antt =====
-- Lists of numbers that stand in order and hold each number of a range once.
use mathlib.Core.List.{Perm, Permᴰ}
use mathlib.Core.List.Perm
use mathlib.Core.Path.{subst}
use mathlib.Core.Logic.{∥∥₁_elim}
use sesslint.Prelude.{
  ℕ, zero, suc, ◌+◌, ◌≡◌, ◌≤◌, ◌<◌, refl, sym, ap, ◌∙◌, inl, inr, true, List, [], ◌∷◌, mem_ℕ, All,
  arith, Bool-cases, eqb, eqb_iff, length,
}

abbrev pub NonDecreasing : List ℕ → Type 0
NonDecreasing [] = Unit
NonDecreasing (x ∷ xs) = All (λ y. x ≤ y) xs × NonDecreasing xs

-- `k` numbers from `n`.
abbrev pub range_from : ℕ → ℕ → List ℕ
range_from n zero = []
range_from n (suc k) = n ∷ range_from (suc n) k

mem_ℕ-Permᴰ : (j : ℕ) {xs ys : List ℕ} → Permᴰ xs ys → mem_ℕ j xs ≡ mem_ℕ j ys
mem_ℕ-Permᴰ j Permᴰ.nil = refl
mem_ℕ-Permᴰ j (Permᴰ.cons e p) = ground (arith, mem_ℕ-Permᴰ j p)
mem_ℕ-Permᴰ j (Permᴰ.swap e f) = ground arith
mem_ℕ-Permᴰ j (Permᴰ.trans p q) = mem_ℕ-Permᴰ j p ∙ mem_ℕ-Permᴰ j q

mem_ℕ-Perm : (j : ℕ) (xs ys : List ℕ) → Perm xs ys → mem_ℕ j xs ≡ mem_ℕ j ys
mem_ℕ-Perm j xs ys p = ∥∥₁_elim p (hlevel) (λ q. mem_ℕ-Permᴰ j q)

pub mem_ℕ-range_from : (j n k : ℕ) → mem_ℕ j (range_from n k) ≡ true → n ≤ j
mem_ℕ-range_from j n zero h = cc
mem_ℕ-range_from j n (suc k) h = ground (arith, mem_ℕ-range_from j (suc n) k)

All-mem : (x j : ℕ) (xs : List ℕ) → All (λ y. x ≤ y) xs → mem_ℕ j xs ≡ true → x ≤ j
All-mem x j [] h m = cc
All-mem x j (y ∷ ys) h m = ground (arith, All-mem x j ys)

pub sorted-range :
    (xs : List ℕ) (n k : ℕ) → NonDecreasing xs → Perm xs (range_from n k) → xs ≡ range_from n k
sorted-range xs n zero h p = Perm.eq-nil p
sorted-range [] n (suc k) h p = Perm.nil-eq p
sorted-range (x ∷ xs) n (suc k) h p =
    let low : n ≤ x =
      mem_ℕ-range_from x n (suc k) (sym (mem_ℕ-Perm x _ _ p) ∙ ground (arith, eqb_iff x x)) in
    let here : mem_ℕ n (x ∷ xs) ≡ true =
      mem_ℕ-Perm n (x ∷ xs) (range_from n (suc k)) p ∙ ground (arith, eqb_iff n n) in
    let same : x ≡ n = ground (arith, here, All-mem x n xs h.0) in
    let rest : Perm (n ∷ xs) (n ∷ range_from (suc n) k) =
      subst (λ w. Perm (w ∷ xs) (n ∷ range_from (suc n) k)) same p in
    rw same (ap (λ ys. n ∷ ys) (sorted-range xs (suc n) k h.1 (Perm.cons_inv rest)))

pub range_from-mem : (j n k : ℕ) → n ≤ j → j < n + k → mem_ℕ j (range_from n k) ≡ true
range_from-mem j n zero h l = absurd (omega arith)
range_from-mem j n (suc k) h l = elim (Bool-cases (eqb j n)) [
  | inl e ↦ ground arith
  | inr e ↦ ground (arith, range_from-mem j (suc n) k)
]

pub length-range_from : (n k : ℕ) → length (range_from n k) ≡ k
length-range_from n zero = refl
length-range_from n (suc k) = ap suc (length-range_from (suc n) k)
