-- ===== src/Diff/Aligned.antt =====
-- The alignment of `diff_events` (diff.py), its two passes together.
use mathlib.Core.List.{Perm, append_assoc, map-append}
use mathlib.Core.List.Perm
use mathlib.Core.Path.{subst}
use sesslint.Prelude.{
  ℕ, suc, String, ◌≡◌, ◌≢◌, ◌<◌, refl, sym, ap, ◌∙◌, ◌⊎◌, inl, inr, Bool, true, false, List, [],
  ◌∷◌, ◌++◌, mem_ℕ, keep, All, All-append, All-map_of, arith, Bool-cases, eq_iff, eq_refl,
  enumerate_from,
}
use sesslint.Session.{SessionEvent}
use sesslint.Diff.Data.{or_empty, Codec}
use sesslint.Diff.Pairing.{
  Indexed, Pairs, Pass, FallbackKey, fallback_key, same_key, same_text, event_id_of, align, by_id,
  by_key, unmatched_b, bucket, buckets_from,
}
use sesslint.Diff.Buckets.{Entries, buckets_from-Entries}
use sesslint.Diff.Matching.{side_a, side_b, free, Among, Distinct, indices}
use sesslint.Diff.Passes.{
  pair_up-All, pair_up-Perm_b, pair_up-maximal, buckets_from-IsFull, matched-grows, All-unmatched,
  All-paired,
}
use sesslint.Diff.Matching.{pair_up-Perm_a}

pub same_text-eq : (s t : String) → same_text s t ≡ true → s ≡ t
same_text-eq s t h = (eq_iff s t).0 h

pub same_key-eq : (k l : FallbackKey) → same_key k l ≡ true → k ≡ l
same_key-eq k l h =
    ground (arith, eq_iff k.kind l.kind, eq_iff k.parent l.parent, eq_iff k.hash l.hash)

pub same_key_refl : (k : FallbackKey) → same_key k k ≡ true
same_key_refl k = rw (eq_refl k.kind, eq_refl k.parent, eq_refl k.hash) refl

enumerate_from-fresh :
    (i n : ℕ) (evs : List SessionEvent) → i < n → mem_ℕ i (indices (enumerate_from n evs)) ≡ false
enumerate_from-fresh i n [] h = refl
enumerate_from-fresh i n (ev ∷ evs) h = ground (arith, enumerate_from-fresh i (suc n) evs)

pub enumerate_from-Distinct : (n : ℕ) (evs : List SessionEvent) → Distinct (enumerate_from n evs)
enumerate_from-Distinct n [] = tt
enumerate_from-Distinct n (ev ∷ evs) =
    (enumerate_from-fresh n (suc n) evs (omega arith), enumerate_from-Distinct (suc n) evs)

All-Among : (ys : List Indexed) → All (λ y. Among y ys) ys
All-Among [] = tt
All-Among (y ∷ ys) = (inl refl, All-map_of _ _ (λ z a. inr a) ys (All-Among ys))

All-keep :
    (P : Indexed → Type 0) (p : Indexed → Bool) (ys : List Indexed) → All P ys → All P (keep p ys)
All-keep P p [] h = tt
All-keep P p (y ∷ ys) h = elim (Bool-cases (p y)) [
  | inl e ↦ rw e (h.0, All-keep P p ys h.1)
  | inr e ↦ rw e (All-keep P p ys h.1)
]

All-both :
    (P Q R : Indexed → Type 0)
    → ((x : Indexed) → P x → Q x → R x)
    → (xs : List Indexed) → All P xs
    → All Q xs
    → All R xs
All-both P Q R f [] p q = tt
All-both P Q R f (x ∷ xs) p q = (f x p.0 q.0, All-both P Q R f xs p.1 q.1)

free-nil : (ys : List Indexed) → free [] ys ≡ ys
free-nil [] = refl
free-nil (y ∷ ys) = ap (λ zs. y ∷ zs) (free-nil ys)

Entries-weaken :
    {K : Type 0} (same : K → K → Bool) (key : SessionEvent → K) (P Q : K → Indexed → Type 0)
    → ((k : K) (y : Indexed) → P k y → Q k y)
    → (d : List (K × List Indexed)) → Entries same key P d
    → Entries same key Q d
Entries-weaken same key P Q f d h = All-map_of _ _ (λ e a. All-map_of _ _ (f e.0) e.1 a) d h

Among-free :
    (matched : List ℕ) (y : Indexed) (ys : List Indexed)
    → Among y (free matched ys)
    → Among y ys × (mem_ℕ y.0 matched ≡ false)
Among-free matched y [] h = elim h [ ]
Among-free matched y (z ∷ zs) h = elim (Bool-cases (mem_ℕ z.0 matched)) [
  | inl e ↦ let r = Among-free matched y zs (rw e at h) in (inr r.0, r.1)
  | inr e ↦
      let split : (z ≡ y) ⊎ Among y (free matched zs) = rw e at h in
      elim split [
        | inl p ↦ (inl p, sym (ap (λ w. mem_ℕ w.0 matched) p) ∙ e)
        | inr a ↦ let r = Among-free matched y zs a in (inr r.0, r.1)
      ]
]

All-zip :
    (P Q : Indexed × Indexed → Type 0) (R : Indexed → Type 0) (ps : Pairs)
    → All P ps
    → All (λ (p : Indexed × Indexed). Q p × R p.1) ps
    → All (λ (p : Indexed × Indexed). P p × R p.1) ps
All-zip P Q R [] h k = tt
All-zip P Q R (p ∷ ps) h k = ((h.0, k.0.1), All-zip P Q R ps h.1 k.1)

module _ (codec : Codec) (events_a events_b : List SessionEvent) where
  InB : Indexed → Type 0
  InB y = Among y (enumerate_from 0 events_b)

  first : Pass
  first = by_id events_a events_b

  second : Pass
  second = by_key codec events_b first

  -- The buckets of pass 1 and those of pass 2 hold events of B under their keys.
  id_buckets :
      Entries same_text event_id_of
        (λ s y. (s ≡ y.1.id) × InB y)
        (buckets_from same_text event_id_of [] (enumerate_from 0 events_b))
  unfolding InB
  id_buckets =
      buckets_from-Entries same_text event_id_of same_text-eq eq_refl (λ s y. (s ≡ y.1.id) × InB y)
        [] (enumerate_from 0 events_b) tt
        (All-map_of _ _ (λ y a. (refl, a)) (enumerate_from 0 events_b)
          (All-Among (enumerate_from 0 events_b)))

  key_buckets :
      Entries same_key
        (fallback_key codec)
        (λ k y. (k ≡ fallback_key codec y.1) × InB y)
        (buckets_from same_key (fallback_key codec) [] (unmatched_b first.matched events_b))
  unfolding InB
  key_buckets =
      buckets_from-Entries same_key (fallback_key codec) same_key-eq same_key_refl
        (λ k y. (k ≡ fallback_key codec y.1) × InB y) [] (unmatched_b first.matched events_b) tt
        (All-map_of _ _ (λ y a. (refl, a)) _
          (All-keep _ _ (enumerate_from 0 events_b) (All-Among (enumerate_from 0 events_b))))

  id_buckets-IsFull :
      (y : Indexed)
      → Among y (enumerate_from 0 events_b)
      → mem_ℕ y.0 [] ≡ false
      → Among y (
          bucket same_text event_id_of
            (buckets_from same_text event_id_of [] (enumerate_from 0 events_b))
            y.1.id)
  id_buckets-IsFull =
      subst
        (λ ys.
          (y : Indexed)
          → Among y (enumerate_from 0 events_b)
          → mem_ℕ y.0 [] ≡ false
          → Among y
              (bucket same_text event_id_of (buckets_from same_text event_id_of [] ys) y.1.id))
        (free-nil (enumerate_from 0 events_b))
        (buckets_from-IsFull same_text event_id_of same_text-eq eq_refl (enumerate_from 0 events_b)
          [])

  first_b :
      Perm (side_b first.pairs ++ unmatched_b first.matched events_b) (enumerate_from 0 events_b)
  unfolding by_id first InB
  first_b = subst (Perm _) (free-nil (enumerate_from 0 events_b)) (
      pair_up-Perm_b same_text event_id_of same_text-eq eq_refl (enumerate_from 0 events_b)
        (enumerate_from 0 events_a) _ [] (enumerate_from-Distinct 0 events_b)
        (Entries-weaken same_text event_id_of _ _ (λ k y h. h.1) _ id_buckets))

  second_b :
      Perm
        (side_b second.pairs ++ unmatched_b second.matched events_b)
        (unmatched_b first.matched events_b)
  unfolding by_key second InB
  second_b =
      pair_up-Perm_b same_key (fallback_key codec) same_key-eq same_key_refl
        (enumerate_from 0 events_b) first.unmatched _ first.matched
        (enumerate_from-Distinct 0 events_b)
        (Entries-weaken same_key (fallback_key codec) _ _ (λ k y h. h.1) _ key_buckets)

  -- Each event of A is in exactly one pair or is reported removed once, and each event of B is in
  -- exactly one pair or is reported added once, each under its own index.
  pub align-partition :
      Perm
        (side_a (align codec events_a events_b).pairs ++ (align codec events_a events_b).removed)
        (enumerate_from 0 events_a)
      × Perm
          (side_b (align codec events_a events_b).pairs ++ (align codec events_a events_b).added)
          (enumerate_from 0 events_b)
  unfolding align first second by_id by_key
  align-partition = (
    rw (map-append (λ (p : Indexed × Indexed). p.0) first.pairs second.pairs) (
        rw (append_assoc (side_a first.pairs) (side_a second.pairs) second.unmatched) (
          Perm.trans
            (Perm.append_left (side_a first.pairs)
              (pair_up-Perm_a same_key (fallback_key codec) first.unmatched _ first.matched))
            (pair_up-Perm_a same_text event_id_of (enumerate_from 0 events_a) _ []))),
    rw (map-append (λ (p : Indexed × Indexed). p.1) first.pairs second.pairs) (
        rw (append_assoc (side_b first.pairs) (side_b second.pairs) _)
          (Perm.trans (Perm.append_left (side_b first.pairs) second_b) first_b)),
  )

  -- The two events of each pair have the same id, or else the same kind, the same parent (where none
  -- and an empty text are one) and the same content hash.
  pub align-Partners :
      All
        (λ (p : Indexed × Indexed).
          (p.0.1.id ≡ p.1.1.id)
          ⊎ ((p.0.1.kind ≡ p.1.1.kind)
              × (or_empty p.0.1.parent_id ≡ or_empty p.1.1.parent_id)
              × (codec.content_identity_hash p.0.1 ≡ codec.content_identity_hash p.1.1)))
        (align codec events_a events_b).pairs
  unfolding align first second by_id by_key fallback_key
  align-Partners =
      All-append _ first.pairs second.pairs
        (All-map_of _ _ (λ p h. inl h.0) first.pairs
          (pair_up-All same_text event_id_of same_text-eq eq_refl (λ s y. (s ≡ y.1.id) × InB y)
            (enumerate_from 0 events_a) _ [] id_buckets))
        (All-map_of _ _
          (λ p h. inr (
            ap (λ (k : FallbackKey). k.kind) h.0,
            ap (λ (k : FallbackKey). k.parent) h.0,
            ap (λ (k : FallbackKey). k.hash) h.0,
          ))
          second.pairs
          (pair_up-All same_key (fallback_key codec) same_key-eq same_key_refl
            (λ k y. (k ≡ fallback_key codec y.1) × InB y) first.unmatched _ first.matched
            key_buckets))

  -- What is left could not be paired: an event reported removed and one reported added have
  -- different ids and different fallback keys.
  pub align-maximal :
      All
        (λ x.
          (y : Indexed)
          → Among y (align codec events_a events_b).added
          → (x.1.id ≢ y.1.id) × (fallback_key codec x.1 ≢ fallback_key codec y.1))
        (align codec events_a events_b).removed
  unfolding align first second by_id by_key
  align-maximal =
      let ids =
        pair_up-maximal same_text event_id_of same_text-eq eq_refl (enumerate_from 0 events_b)
          (enumerate_from 0 events_a) _ [] id_buckets-IsFull in
      let keys =
        pair_up-maximal same_key (fallback_key codec) same_key-eq same_key_refl
          (enumerate_from 0 events_b) first.unmatched _ first.matched
          (buckets_from-IsFull same_key (fallback_key codec) same_key-eq same_key_refl
            (enumerate_from 0 events_b) first.matched) in
      let left =
        All-unmatched same_key (fallback_key codec) same_key-eq same_key_refl _ first.unmatched _
          first.matched ids in
      All-both _ _ _
        (λ x p q y a.
          let r = Among-free second.matched y (enumerate_from 0 events_b) a in
          (
            p y r.0 (
                matched-grows same_key (fallback_key codec) same_key-eq same_key_refl
                  first.unmatched _ first.matched y.0 r.1),
            q y r.0 r.1,
          ))
        second.unmatched left keys

  -- The events of the pairs are those of the sessions.
  pub align-Among :
      All
        (λ (p : Indexed × Indexed).
          Among p.0 (enumerate_from 0 events_a) × Among p.1 (enumerate_from 0 events_b))
        (align codec events_a events_b).pairs
  unfolding align first second by_id by_key InB
  align-Among =
      let in_a = All-Among (enumerate_from 0 events_a) in
      let left =
        All-unmatched same_text event_id_of same_text-eq eq_refl
          (λ x. Among x (enumerate_from 0 events_a)) (enumerate_from 0 events_a) _ [] in_a in
      All-append _ first.pairs second.pairs
        (All-zip _ _ _ first.pairs
          (All-paired same_text event_id_of same_text-eq eq_refl
            (λ x. Among x (enumerate_from 0 events_a)) (enumerate_from 0 events_a) _ [] in_a)
          (pair_up-All same_text event_id_of same_text-eq eq_refl (λ s y. (s ≡ y.1.id) × InB y)
            (enumerate_from 0 events_a) _ [] id_buckets))
        (All-zip _ _ _ second.pairs
          (All-paired same_key (fallback_key codec) same_key-eq same_key_refl
            (λ x. Among x (enumerate_from 0 events_a)) first.unmatched _ first.matched left)
          (pair_up-All same_key (fallback_key codec) same_key-eq same_key_refl
            (λ k y. (k ≡ fallback_key codec y.1) × InB y) first.unmatched _ first.matched
            key_buckets))
