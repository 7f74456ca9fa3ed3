-- ===== src/Diff/Passes.antt =====
-- One pass of `diff_events` (diff.py) over any key: whom it pairs, and whom it leaves free.
use mathlib.Core.List.{Perm}
use mathlib.Core.List.Perm
use mathlib.Core.Path.{subst}
use sesslint.Prelude.{
  ℕ, ◌≡◌, ◌≢◌, sym, ap, ◌∙◌, inl, inr, Bool, true, false, not, List, [], ◌∷◌, ◌++◌, mem_ℕ, keep,
  All, arith, Bool-cases, eqb_iff,
}
use sesslint.Session.{SessionEvent}
use sesslint.Diff.Pairing.{Indexed, skip_matched, Buckets, bucket, store, buckets_from, pair_up}
use sesslint.Diff.Buckets.{
  Entries, All-bucket, store-Entries, bucket-store_other, bucket-store_self, bucket-buckets_from,
}
use sesslint.Diff.Matching.{
  side_b, free, free-take, Among, Distinct, List-cases, pair_up-nil, pair_up-cons,
  skip_matched-head, skip_matched-Among, All-skip_matched,
}

Among-keep :
    (p : Indexed → Bool) (y : Indexed) (ys : List Indexed)
    → p y ≡ true
    → Among y ys
    → Among y (keep p ys)
Among-keep p y [] h a = a
Among-keep p y (z ∷ zs) h (inl e) = rw (ap p e ∙ h) (inl e)
Among-keep p y (z ∷ zs) h (inr a) = elim (Bool-cases (p z)) [
  | inl t ↦ rw t (inr (Among-keep p y zs h a))
  | inr f ↦ rw f (Among-keep p y zs h a)
]

module _ {K : Type 0} (same : K → K → Bool) (key : SessionEvent → K)
    (same-eq : (k l : K) → same k l ≡ true → k ≡ l) (same-refl : (k : K) → same k k ≡ true) where
  -- What the buckets hold of an event of A is what it is paired with.
  pub pair_up-All :
      (P : K → Indexed → Type 0) (xs : List Indexed) (d : Buckets same key) (matched : List ℕ)
      → Entries same key P d
      → All (λ (p : Indexed × Indexed). P (key p.0.1) p.1) (pair_up same key xs d matched).pairs
  pair_up-All P [] d matched h = unfold pair_up in tt
  pair_up-All P (x ∷ xs) d matched h =
      let held =
        All-skip_matched (P (key x.1)) matched _
          (All-bucket same key same-eq same-refl P d (key x.1) h) in
      elim (List-cases (skip_matched matched (bucket same key d (key x.1)))) [
        | inl e ↦ rw (pair_up-nil same key x xs d matched e) (
            pair_up-All P xs (store same key d (key x.1) []) matched
              (store-Entries same key same-eq same-refl P d (key x.1) [] h tt))
        | inr (y, ys, e) ↦
            let found = subst (All (P (key x.1))) e held in
            rw (pair_up-cons same key x xs d matched y ys e) (
              found.0,
              pair_up-All P xs (store same key d (key x.1) ys) (y.0 ∷ matched)
                  (store-Entries same key same-eq same-refl P d (key x.1) ys h found.1),
            )
      ]

  -- Each event of B is in one of the new pairs, or stays free.
  pub pair_up-Perm_b :
      (all xs : List Indexed) (d : Buckets same key) (matched : List ℕ)
      → Distinct all
      → Entries same key (λ k y. Among y all) d
      → Perm
          (side_b (pair_up same key xs d matched).pairs
            ++ free (pair_up same key xs d matched).matched all)
          (free matched all)
  pair_up-Perm_b all [] d matched u h = unfold pair_up in Perm.refl _
  pair_up-Perm_b all (x ∷ xs) d matched u h =
      let P : K → Indexed → Type 0 = λ k y. Among y all in
      let held =
        All-skip_matched (P (key x.1)) matched _
          (All-bucket same key same-eq same-refl P d (key x.1) h) in
      elim (List-cases (skip_matched matched (bucket same key d (key x.1)))) [
        | inl e ↦ rw (pair_up-nil same key x xs d matched e) (
            pair_up-Perm_b all xs (store same key d (key x.1) []) matched u
              (store-Entries same key same-eq same-refl P d (key x.1) [] h tt))
        | inr (y, ys, e) ↦
            let found = subst (All (P (key x.1))) e held in
            rw (pair_up-cons same key x xs d matched y ys e) (
              Perm.trans
                (Perm.cons y (
                  pair_up-Perm_b all xs (store same key d (key x.1) ys) (y.0 ∷ matched) u
                    (store-Entries same key same-eq same-refl P d (key x.1) ys h found.1)))
                (free-take y matched all u found.0 (skip_matched-head matched _ y ys e)))
      ]

  -- A pass leaves only events that it was given.
  pub All-unmatched :
      (P : Indexed → Type 0) (xs : List Indexed) (d : Buckets same key) (matched : List ℕ)
      → All P xs
      → All P (pair_up same key xs d matched).unmatched
  All-unmatched P [] d matched h = unfold pair_up in tt
  All-unmatched P (x ∷ xs) d matched h =
      elim (List-cases (skip_matched matched (bucket same key d (key x.1)))) [
        | inl e ↦ rw (pair_up-nil same key x xs d matched e) (h.0, All-unmatched P xs _ matched h.1)
        | inr (y, ys, e) ↦
            rw (pair_up-cons same key x xs d matched y ys e)
              (All-unmatched P xs _ (y.0 ∷ matched) h.1)
      ]

  -- It pairs only such events.
  pub All-paired :
      (P : Indexed → Type 0) (xs : List Indexed) (d : Buckets same key) (matched : List ℕ)
      → All P xs
      → All (λ (p : Indexed × Indexed). P p.0) (pair_up same key xs d matched).pairs
  All-paired P [] d matched h = unfold pair_up in tt
  All-paired P (x ∷ xs) d matched h =
      elim (List-cases (skip_matched matched (bucket same key d (key x.1)))) [
        | inl e ↦ rw (pair_up-nil same key x xs d matched e) (All-paired P xs _ matched h.1)
        | inr (y, ys, e) ↦
            rw (pair_up-cons same key x xs d matched y ys e)
              (h.0, All-paired P xs _ (y.0 ∷ matched) h.1)
      ]

  -- Every free event of B stands in the bucket of its key.
  abbrev pub IsFull : List Indexed → Buckets same key → List ℕ → Type 0
  IsFull all d matched =
      (y : Indexed)
      → Among y all
      → mem_ℕ y.0 matched ≡ false
      → Among y (bucket same key d (key y.1))

  pub matched-grows :
      (xs : List Indexed) (d : Buckets same key) (matched : List ℕ) (j : ℕ)
      → mem_ℕ j (pair_up same key xs d matched).matched ≡ false
      → mem_ℕ j matched ≡ false
  matched-grows [] d matched j h = unfold pair_up in h
  matched-grows (x ∷ xs) d matched j h =
      elim (List-cases (skip_matched matched (bucket same key d (key x.1)))) [
        | inl e ↦ matched-grows xs _ matched j (rw (pair_up-nil same key x xs d matched e) at h)
        | inr (y, ys, e) ↦ ground (
          arith,
          matched-grows xs (store same key d (key x.1) ys) (y.0 ∷ matched) j
              (rw (pair_up-cons same key x xs d matched y ys e) at h),
        )
      ]

  -- With an empty bucket no free event of B has the key.
  no-partner :
      (all : List Indexed) (d : Buckets same key) (matched : List ℕ) (k : K)
      → IsFull all d matched
      → skip_matched matched (bucket same key d k) ≡ []
      → (y : Indexed) → Among y all
      → mem_ℕ y.0 matched ≡ false
      → k ≢ key y.1
  no-partner all d matched k full e y a m p = subst (Among y) e (
      skip_matched-Among matched (bucket same key d k) y
        (subst (λ l. Among y (bucket same key d l)) (sym p) (full y a m)) m)

  store-IsFull_nil :
      (all : List Indexed) (d : Buckets same key) (matched : List ℕ) (k : K)
      → IsFull all d matched
      → skip_matched matched (bucket same key d k) ≡ []
      → IsFull all (store same key d k []) matched
  store-IsFull_nil all d matched k full e y a m = elim (Bool-cases (same k (key y.1))) [
    | inl s ↦ absurd (no-partner all d matched k full e y a m (same-eq k (key y.1) s))
    | inr s ↦
        subst (Among y) (sym (bucket-store_other same key same-eq same-refl d k (key y.1) [] s))
          (full y a m)
  ]

  bucket-found :
      (d : Buckets same key) (matched : List ℕ) (k : K) (z : Indexed) (zs : List Indexed)
      → skip_matched matched (bucket same key d k) ≡ z ∷ zs
      → bucket same key (store same key d k zs) k ≡ zs
  bucket-found d matched k z zs e = elim (List-cases (bucket same key d k)) [
    | inl n ↦ absurd (unfold skip_matched in cc (ap (skip_matched matched) n, e))
    | inr (w, ws, c) ↦ bucket-store_self same key same-eq same-refl d k zs w ws c
  ]

  store-IsFull_cons :
      (all : List Indexed) (d : Buckets same key) (matched : List ℕ) (k : K) (z : Indexed)
      (zs : List Indexed)
      → IsFull all d matched
      → skip_matched matched (bucket same key d k) ≡ z ∷ zs
      → IsFull all (store same key d k zs) (z.0 ∷ matched)
  store-IsFull_cons all d matched k z zs full e y a m = elim (Bool-cases (same k (key y.1))) [
    | inl s ↦
        let p = same-eq k (key y.1) s in
        let free : mem_ℕ y.0 matched ≡ false = ground arith in
        let here : Among y (z ∷ zs) = subst (Among y) e (
          skip_matched-Among matched (bucket same key d k) y
            (subst (λ l. Among y (bucket same key d l)) (sym p) (full y a free)) free) in
        elim here [
          | inl q ↦ absurd (ground (arith, eqb_iff y.0 z.0, ap (λ (w : Indexed). w.0) q))
          | inr b ↦
              subst (Among y)
                (sym (
                  ap (bucket same key (store same key d k zs)) (sym p)
                  ∙ bucket-found d matched k z zs e))
                b
        ]
    | inr s ↦
        subst (Among y) (sym (bucket-store_other same key same-eq same-refl d k (key y.1) zs s))
          (full y a (ground arith))
  ]

  -- A pass is maximal: an event of A that it leaves has the key of no event of B that it leaves.
  pub pair_up-maximal :
      (all xs : List Indexed) (d : Buckets same key) (matched : List ℕ)
      → IsFull all d matched
      → All
          (λ x.
            (y : Indexed)
            → Among y all
            → mem_ℕ y.0 (pair_up same key xs d matched).matched ≡ false
            → key x.1 ≢ key y.1)
          (pair_up same key xs d matched).unmatched
  pair_up-maximal all [] d matched full = unfold pair_up in tt
  pair_up-maximal all (x ∷ xs) d matched full =
      elim (List-cases (skip_matched matched (bucket same key d (key x.1)))) [
        | inl e ↦ rw (pair_up-nil same key x xs d matched e) (
          (λ y a m.
              no-partner all d matched (key x.1) full e y a
                (matched-grows xs (store same key d (key x.1) []) matched y.0 m)),
          pair_up-maximal all xs (store same key d (key x.1) []) matched
              (store-IsFull_nil all d matched (key x.1) full e),
        )
        | inr (z, zs, e) ↦ rw (pair_up-cons same key x xs d matched z zs e) (
            pair_up-maximal all xs (store same key d (key x.1) zs) (z.0 ∷ matched)
              (store-IsFull_cons all d matched (key x.1) z zs full e))
      ]

  -- The buckets that a pass starts from are full.
  pub buckets_from-IsFull :
      (all : List Indexed) (matched : List ℕ)
      → IsFull all (buckets_from same key [] (free matched all)) matched
  buckets_from-IsFull all matched y a m =
      subst (Among y)
        (sym (bucket-buckets_from same key same-eq same-refl [] (free matched all) (key y.1)))
        (unfold bucket in
          Among-keep _ y (free matched all) (same-refl (key y.1)) (Among-keep _ y all (ap not m) a))
