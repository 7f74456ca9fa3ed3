-- ===== src/Diff/Buckets.antt =====
-- The dictionary of deques of `diff_events` (diff.py), read through `bucket`.
use mathlib.Core.List.{append-nil, append_assoc}
use mathlib.Core.Path.{subst}
use sesslint.Prelude.{
  ◌≡◌, refl, sym, ap, ◌∙◌, inl, inr, Bool, true, false, List, [], ◌∷◌, ◌++◌, if◌then◌else◌, keep,
  All, All-append, arith, Bool-cases,
}
use sesslint.Session.{SessionEvent}
use sesslint.Diff.Pairing.{Indexed, Buckets, bucket, store, append_to, buckets_from}

module _ {K : Type 0} (same : K → K → Bool) (key : SessionEvent → K) where
  -- A predicate at every entry of every bucket, under the key of the bucket.
  abbrev pub Entries : (K → Indexed → Type 0) → Buckets same key → Type 0
  Entries P d = All (λ e. All (P e.0) e.1) d

  module _ (same-eq : (k l : K) → same k l ≡ true → k ≡ l)
      (same-refl : (k : K) → same k k ≡ true) where
    pub All-bucket :
        (P : K → Indexed → Type 0) (d : Buckets same key) (k : K)
        → Entries P d
        → All (P k) (bucket same key d k)
    unfolding bucket
    All-bucket P [] k h = tt
    All-bucket P ((l, ys) ∷ d) k h = elim (Bool-cases (same l k)) [
      | inl e ↦ rw (e, bucket) (subst (λ m. All (P m) ys) (same-eq l k e) h.0)
      | inr e ↦ rw (e, bucket) (All-bucket P d k h.1)
    ]

    pub store-Entries :
        (P : K → Indexed → Type 0) (d : Buckets same key) (k : K) (ys : List Indexed)
        → Entries P d
        → All (P k) ys
        → Entries P (store same key d k ys)
    unfolding store
    store-Entries P [] k ys h a = tt
    store-Entries P ((l, zs) ∷ d) k ys h a = elim (Bool-cases (same l k)) [
      | inl e ↦ rw (e, store) (subst (λ m. All (P m) ys) (sym (same-eq l k e)) a, h.1)
      | inr e ↦ rw (e, store) (h.0, store-Entries P d k ys h.1 a)
    ]

    append_to-Entries :
        (P : K → Indexed → Type 0) (d : Buckets same key) (k : K) (y : Indexed)
        → Entries P d
        → P k y
        → Entries P (append_to same key d k y)
    unfolding append_to
    append_to-Entries P [] k y h p = ((p, tt), tt)
    append_to-Entries P ((l, zs) ∷ d) k y h p = elim (Bool-cases (same l k)) [
      | inl e ↦
          rw (e, append_to)
            (All-append (P l) zs (y ∷ []) h.0 (subst (λ m. P m y) (sym (same-eq l k e)) p, tt), h.1)
      | inr e ↦ rw (e, append_to) (h.0, append_to-Entries P d k y h.1 p)
    ]

    pub buckets_from-Entries :
        (P : K → Indexed → Type 0) (d : Buckets same key) (ys : List Indexed)
        → Entries P d
        → All (λ y. P (key y.1) y) ys
        → Entries P (buckets_from same key d ys)
    unfolding buckets_from
    buckets_from-Entries P d [] h a = h
    buckets_from-Entries P d (y ∷ ys) h a =
        buckets_from-Entries P (append_to same key d (key y.1) y) ys
          (append_to-Entries P d (key y.1) y h a.0) a.1

    pub bucket-store_other :
        (d : Buckets same key) (k l : K) (ys : List Indexed)
        → same k l ≡ false
        → bucket same key (store same key d k ys) l ≡ bucket same key d l
    unfolding store bucket
    bucket-store_other [] k l ys n = refl
    bucket-store_other ((m, zs) ∷ d) k l ys n = elim (Bool-cases (same m k)) [
      | inl e ↦
          let r : same m l ≡ false = ap (λ w. same w l) (same-eq m k e) ∙ n in
          rw (e, bucket) (rw (r, bucket) refl)
      | inr e ↦ ground (arith, bucket-store_other d k l ys n)
    ]

    -- A store replaces a deque that holds something.
    pub bucket-store_self :
        (d : Buckets same key) (k : K) (ys : List Indexed) (z : Indexed) (zs : List Indexed)
        → bucket same key d k ≡ z ∷ zs
        → bucket same key (store same key d k ys) k ≡ ys
    unfolding store bucket
    bucket-store_self [] k ys z zs e = cc
    bucket-store_self ((m, ws) ∷ d) k ys z zs e = elim (Bool-cases (same m k)) [
      | inl b ↦ ground arith
      | inr b ↦ ground (arith, bucket-store_self d k ys z zs)
    ]

    bucket-append_to :
        (d : Buckets same key) (l : K) (y : Indexed) (k : K)
        → bucket same key (append_to same key d l y) k
          ≡ bucket same key d k ++ (if same l k then y ∷ [] else [])
    unfolding append_to bucket
    bucket-append_to [] l y k = refl
    bucket-append_to ((m, zs) ∷ d) l y k = elim (Bool-cases (same m l)) [
      | inl b ↦
          let r : same m k ≡ same l k = ap (λ w. same w k) (same-eq m l b) in
          elim (Bool-cases (same l k)) [
            | inl c ↦ ground arith
            | inr c ↦ ground (arith, append-nil (bucket same key d k))
          ]
      | inr b ↦ elim (Bool-cases (same m k)) [
        | inl c ↦ elim (Bool-cases (same l k)) [
          | inl h ↦ absurd (cc (same-eq m k c, same-eq l k h, same-refl l, b))
          | inr h ↦ ground (arith, append-nil zs)
        ]
        | inr c ↦ ground (arith, bucket-append_to d l y k)
      ]
    ]

    -- The buckets of a list of events: in each the events with its key, in their order.
    pub bucket-buckets_from :
        (d : Buckets same key) (ys : List Indexed) (k : K)
        → bucket same key (buckets_from same key d ys) k
          ≡ bucket same key d k ++ keep (λ y. same (key y.1) k) ys
    unfolding buckets_from
    bucket-buckets_from d [] k = sym (append-nil (bucket same key d k))
    bucket-buckets_from d (y ∷ ys) k =
        bucket-buckets_from (append_to same key d (key y.1) y) ys k
        ∙ (ap (λ zs. zs ++ keep (λ (z : Indexed). same (key z.1) k) ys)
              (bucket-append_to d (key y.1) y k)
            ∙ elim (Bool-cases (same (key y.1) k)) [
              | inl e ↦ rw e (append_assoc (bucket same key d k) (y ∷ []) _)
              | inr e ↦ rw e (rw (append-nil (bucket same key d k)) refl)
            ])
