-- ===== src/Diff/Matching.antt =====
-- One pass of `diff_events` (diff.py) as a matching of the events of the two sides.
use mathlib.Core.List.{Perm, perm_middle}
use mathlib.Core.List.Perm
use sesslint.Prelude.{
  ℕ, ◌≡◌, refl, ap, ◌⊎◌, inl, inr, Bool, true, false, not, List, [], ◌∷◌, ◌++◌, mem_ℕ, keep, All,
  arith, Bool-cases, map, eqb_iff,
}
use sesslint.Session.{SessionEvent}
use sesslint.Diff.Pairing.{
  Indexed, Pairs, add_pair, add_unmatched, skip_matched, Buckets, bucket, store, pair_up,
}

abbrev pub side_a : Pairs → List Indexed
side_a ps = map (λ p. p.0) ps

abbrev pub side_b : Pairs → List Indexed
side_b ps = map (λ p. p.1) ps

-- The items whose index is not matched.
abbrev pub free : List ℕ → List Indexed → List Indexed
free matched ys = keep (λ y. not (mem_ℕ y.0 matched)) ys

pub List-cases {ℓ} :
    {A : Type ℓ} (xs : List A) → (xs ≡ []) ⊎ ((y : A) × (ys : List A) × (xs ≡ y ∷ ys))
List-cases [] = inl refl
List-cases (y ∷ ys) = inr (y, ys, refl)

abbrev pub indices : List Indexed → List ℕ
indices ys = map (λ y. y.0) ys

-- Membership, computing to a sum.
abbrev pub Among : Indexed → List Indexed → Type 0
Among y [] = ⊥
Among y (z ∷ zs) = (z ≡ y) ⊎ Among y zs

-- No index stands twice.
abbrev pub Distinct : List Indexed → Type 0
Distinct [] = Unit
Distinct (y ∷ ys) = (mem_ℕ y.0 (indices ys) ≡ false) × Distinct ys

free-fresh :
    (j : ℕ) (matched : List ℕ) (ys : List Indexed)
    → mem_ℕ j (indices ys) ≡ false
    → free (j ∷ matched) ys ≡ free matched ys
free-fresh j matched [] h = refl
free-fresh j matched (z ∷ zs) h =
    ground (arith, free-fresh j matched zs, eqb_iff z.0 j, eqb_iff j z.0)

Among-indices : (y : Indexed) (ys : List Indexed) → Among y ys → mem_ℕ y.0 (indices ys) ≡ true
Among-indices y [] h = elim h [ ]
Among-indices y (z ∷ zs) (inl e) = ground (arith, ap (λ (w : Indexed). w.0) e)
Among-indices y (z ∷ zs) (inr h) = ground (arith, Among-indices y zs h)

free-busy :
    (matched : List ℕ) (z : Indexed) (zs : List Indexed)
    → mem_ℕ z.0 matched ≡ true
    → free matched (z ∷ zs) ≡ free matched zs
free-busy matched z zs e = rw e refl

free-idle :
    (matched : List ℕ) (z : Indexed) (zs : List Indexed)
    → mem_ℕ z.0 matched ≡ false
    → free matched (z ∷ zs) ≡ z ∷ free matched zs
free-idle matched z zs e = rw e refl

-- To match a free item is to take it out of the free ones.
pub free-take :
    (y : Indexed) (matched : List ℕ) (ys : List Indexed)
    → Distinct ys
    → Among y ys
    → mem_ℕ y.0 matched ≡ false
    → Perm (y ∷ free (y.0 ∷ matched) ys) (free matched ys)
free-take y matched [] d h m = elim h [ ]
free-take y matched (z ∷ zs) d (inl e) m =
    let same : z.0 ≡ y.0 = ap (λ w. w.0) e in
    rw
      (
        free-busy (y.0 ∷ matched) z zs (ground (arith, eqb_iff z.0 y.0)),
        free-idle matched z zs (ground arith),
        free-fresh y.0 matched zs (ground arith),
        e,
      )
      (Perm.refl _)
free-take y matched (z ∷ zs) d (inr h) m = elim (Bool-cases (mem_ℕ z.0 matched)) [
  | inl e ↦
      rw (free-busy (y.0 ∷ matched) z zs (ground arith), free-busy matched z zs e)
        (free-take y matched zs d.1 h m)
  | inr e ↦
      rw
        (
          free-idle (y.0 ∷ matched) z zs (ground (arith, Among-indices y zs h, eqb_iff z.0 y.0)),
          free-idle matched z zs e,
        )
        (Perm.trans (Perm.swap z y (free (y.0 ∷ matched) zs))
          (Perm.cons z (free-take y matched zs d.1 h m)))
]

-- What a pass skips is matched, and the item that it stops at is not.
pub skip_matched-head :
    (matched : List ℕ) (zs : List Indexed) (y : Indexed) (ys : List Indexed)
    → skip_matched matched zs ≡ y ∷ ys
    → mem_ℕ y.0 matched ≡ false
unfolding skip_matched
skip_matched-head matched [] y ys e = cc
skip_matched-head matched (z ∷ zs) y ys e = elim (Bool-cases (mem_ℕ z.0 matched)) [
  | inl b ↦ skip_matched-head matched zs y ys (rw b at e)
  | inr b ↦ ground arith
]

pub skip_matched-Among :
    (matched : List ℕ) (zs : List Indexed) (y : Indexed)
    → Among y zs
    → mem_ℕ y.0 matched ≡ false
    → Among y (skip_matched matched zs)
unfolding skip_matched
skip_matched-Among matched [] y h m = elim h [ ]
skip_matched-Among matched (z ∷ zs) y h m = elim (Bool-cases (mem_ℕ z.0 matched)) [
  | inl b ↦ rw b (elim h [ inl e ↦ cc | inr k ↦ skip_matched-Among matched zs y k m ])
  | inr b ↦ rw b h
]

pub All-skip_matched :
    (P : Indexed → Type 0) (matched : List ℕ) (zs : List Indexed)
    → All P zs
    → All P (skip_matched matched zs)
unfolding skip_matched
All-skip_matched P matched [] h = tt
All-skip_matched P matched (z ∷ zs) h = elim (Bool-cases (mem_ℕ z.0 matched)) [
  | inl b ↦ rw b (All-skip_matched P matched zs h.1)
  | inr b ↦ rw b h
]

module _ {K : Type 0} (same : K → K → Bool) (key : SessionEvent → K) where
  pub pair_up-nil :
      (x : Indexed) (xs : List Indexed) (d : Buckets same key) (matched : List ℕ)
      → skip_matched matched (bucket same key d (key x.1)) ≡ []
      → pair_up same key (x ∷ xs) d matched
        ≡ add_unmatched x (pair_up same key xs (store same key d (key x.1) []) matched)
  unfolding pair_up
  pair_up-nil x xs d matched e = rw (e, pair_up) refl

  pub pair_up-cons :
      (x : Indexed) (xs : List Indexed) (d : Buckets same key) (matched : List ℕ) (y : Indexed)
      (ys : List Indexed)
      → skip_matched matched (bucket same key d (key x.1)) ≡ y ∷ ys
      → pair_up same key (x ∷ xs) d matched
        ≡ add_pair x y (pair_up same key xs (store same key d (key x.1) ys) (y.0 ∷ matched))
  unfolding pair_up
  pair_up-cons x xs d matched y ys e = rw (e, pair_up) refl

  -- Each event of A is in one pair, or is left over.
  pub pair_up-Perm_a :
      (xs : List Indexed) (d : Buckets same key) (matched : List ℕ)
      → Perm
          (side_a (pair_up same key xs d matched).pairs
            ++ (pair_up same key xs d matched).unmatched)
          xs
  pair_up-Perm_a [] d matched = unfold pair_up in Perm.refl _
  pair_up-Perm_a (x ∷ xs) d matched =
      elim (List-cases (skip_matched matched (bucket same key d (key x.1)))) [
        | inl e ↦ rw (pair_up-nil x xs d matched e) (
            Perm.trans
              (perm_middle
                (side_a (pair_up same key xs (store same key d (key x.1) []) matched).pairs) _)
              (Perm.cons x (pair_up-Perm_a xs _ _)))
        | inr (y, ys, e) ↦
            rw (pair_up-cons x xs d matched y ys e) (Perm.cons x (pair_up-Perm_a xs _ _))
      ]
