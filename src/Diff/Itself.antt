-- ===== src/Diff/Itself.antt =====
-- A session against itself: `diff_events` of diff.py where both sides are the same events.
use mathlib.Core.List.{append-nil}
use mathlib.Core.Path.{subst}
use sesslint.Prelude.{
  ℕ, suc, String, ◌≡◌, ◌≤◌, ◌<◌, refl, ap, ◌∙◌, inl, inr, true, false, not, Option, none, some,
  List, [], ◌∷◌, ◌++◌, mem_ℕ, keep, All, arith, Bool-cases, eqb_iff, eq_refl, enumerate_from, ltb,
}
use sesslint.Prelude.Sort.{sort, insert}
use sesslint.Session.{SessionEvent}
use sesslint.Diff.Data.{Codec, le_delta}
use sesslint.Diff.Pairing.{
  Indexed, Pairs, same_text, event_id_of, Alignment, align, by_id, by_key, pair_up, bucket, store,
  buckets_from, Buckets, skip_matched, add_pair,
}
use sesslint.Diff.Buckets.{bucket-store_other, bucket-store_self, bucket-buckets_from}
use sesslint.Diff.Matching.{pair_up-cons}
use sesslint.Diff.Emit.{
  diff_events, emitted, compare_pair, compare_pairs, reordered, le_pair, same_parent,
}
use sesslint.Diff.Aligned.{same_text-eq}

-- Each event with itself.
abbrev twins : List Indexed → Pairs
twins [] = []
twins (x ∷ xs) = (x, x) ∷ twins xs

-- The indices of the events, on top of those that are matched.
abbrev taken : List Indexed → List ℕ → List ℕ
taken [] matched = matched
taken (x ∷ xs) matched = taken xs (x.0 ∷ matched)

-- The bucket of each id holds the events that are still to come, and nothing to come is matched.
record IsAhead (n : ℕ) (evs : List SessionEvent) (d : Buckets same_text event_id_of)
    (matched : List ℕ) : Type 0 where
  held :
      (s : String)
      → bucket same_text event_id_of d s
        ≡ keep (λ (y : Indexed). same_text y.1.id s) (enumerate_from n evs)
  fresh : (j : ℕ) → n ≤ j → mem_ℕ j matched ≡ false

found :
    (n : ℕ) (ev : SessionEvent) (evs : List SessionEvent) (d : Buckets same_text event_id_of)
    (matched : List ℕ)
    → IsAhead n (ev ∷ evs) d matched
    → bucket same_text event_id_of d ev.id
      ≡ (n, ev) ∷ keep (λ (y : Indexed). same_text y.1.id ev.id) (enumerate_from (suc n) evs)
found n ev evs d matched h = h.held ev.id ∙ rw (eq_refl ev.id) refl

next-IsAhead :
    (n : ℕ) (ev : SessionEvent) (evs : List SessionEvent) (d : Buckets same_text event_id_of)
    (matched : List ℕ)
    → IsAhead n (ev ∷ evs) d matched
    → IsAhead
        (suc n)
        evs
        (store same_text event_id_of d ev.id
          (keep (λ (y : Indexed). same_text y.1.id ev.id) (enumerate_from (suc n) evs)))
        (n ∷ matched)
next-IsAhead n ev evs d matched h = record {
  held = λ s. elim (Bool-cases (same_text ev.id s)) [
    | inl e ↦
        let p = same_text-eq ev.id s e in
        subst
          (λ (t : String).
            bucket same_text event_id_of
              (store same_text event_id_of d ev.id
                (keep (λ (y : Indexed). same_text y.1.id ev.id) (enumerate_from (suc n) evs)))
              t
            ≡ keep (λ (y : Indexed). same_text y.1.id t) (enumerate_from (suc n) evs))
          p
          (bucket-store_self same_text event_id_of same_text-eq eq_refl d ev.id _ _ _
            (found n ev evs d matched h))
    | inr e ↦
        bucket-store_other same_text event_id_of same_text-eq eq_refl d ev.id s _ e
        ∙ (h.held s ∙ rw e refl)
  ];
  fresh = λ j le. ground (arith, h.fresh j, eqb_iff j n);
}

pair_up_ahead :
    (n : ℕ) (evs : List SessionEvent) (d : Buckets same_text event_id_of) (matched : List ℕ)
    → IsAhead n evs d matched
    → pair_up same_text event_id_of (enumerate_from n evs) d matched ≡ record {
      pairs = twins (enumerate_from n evs);
      unmatched = [];
      matched = taken (enumerate_from n evs) matched;
    }
pair_up_ahead n [] d matched h = unfold pair_up in refl
pair_up_ahead n (ev ∷ evs) d matched h =
    pair_up-cons same_text event_id_of (n, ev) (enumerate_from (suc n) evs) d matched (n, ev)
      (keep (λ (y : Indexed). same_text y.1.id ev.id) (enumerate_from (suc n) evs))
      (ap (skip_matched matched) (found n ev evs d matched h)
        ∙ unfold skip_matched in rw (h.fresh n (omega arith)) refl)
    ∙ ap (add_pair (n, ev) (n, ev))
        (pair_up_ahead (suc n) evs _ (n ∷ matched) (next-IsAhead n ev evs d matched h))

taken-keeps :
    (xs : List Indexed) (matched : List ℕ) (j : ℕ)
    → mem_ℕ j matched ≡ true
    → mem_ℕ j (taken xs matched) ≡ true
taken-keeps [] matched j h = h
taken-keeps (x ∷ xs) matched j h = taken-keeps xs (x.0 ∷ matched) j (ground arith)

taken-All :
    (xs : List Indexed) (matched : List ℕ) → All (λ y. mem_ℕ y.0 (taken xs matched) ≡ true) xs
taken-All [] matched = tt
taken-All (x ∷ xs) matched = (
  taken-keeps xs (x.0 ∷ matched) x.0 (ground (arith, eqb_iff x.0 x.0)),
  taken-All xs (x.0 ∷ matched),
)

none-free :
    (matched : List ℕ) (ys : List Indexed)
    → All (λ y. mem_ℕ y.0 matched ≡ true) ys
    → keep (λ y. not (mem_ℕ y.0 matched)) ys ≡ []
none-free matched [] h = refl
none-free matched (y ∷ ys) h = rw h.0 (none-free matched ys h.1)

same_parent_refl : (p : Option String) → same_parent p p ≡ true
same_parent_refl none = refl
same_parent_refl (some s) = eq_refl s

ap2 :
    {ys : List Indexed} (ps : Pairs)
    → ys ≡ []
    → ◌≡◌ {A = Alignment}
        (record { pairs = ps ++ []; removed = []; added = ys })
        (record { pairs = ps; removed = []; added = [] })
ap2 ps e = rw e (rw (append-nil ps) refl)

module _ (codec : Codec) where
  align_itself :
      (evs : List SessionEvent)
      → align codec evs evs
        ≡ record { pairs = twins (enumerate_from 0 evs); removed = []; added = [] }
  unfolding align
  align_itself evs =
      let first : by_id evs evs ≡ record {
        pairs = twins (enumerate_from 0 evs);
        unmatched = [];
        matched = taken (enumerate_from 0 evs) [];
      } =
        unfold by_id in
        pair_up_ahead 0 evs (buckets_from same_text event_id_of [] (enumerate_from 0 evs)) []
          (record {
            held = λ s.
                bucket-buckets_from same_text event_id_of same_text-eq eq_refl []
                  (enumerate_from 0 evs) s
                ∙ unfold bucket in refl;
            fresh = λ j le. refl;
          }) in
      rw first (
        unfold by_key pair_up in
        ap2 (twins (enumerate_from 0 evs)) (
          none-free (taken (enumerate_from 0 evs) []) (enumerate_from 0 evs)
            (taken-All (enumerate_from 0 evs) [])))

  compare_twins : (xs : List Indexed) → compare_pairs codec (twins xs) ≡ []
  unfolding compare_pairs
  compare_twins [] = refl
  compare_twins (x ∷ xs) =
      rw
        (
          eq_refl x.1.kind,
          same_parent_refl x.1.parent_id,
          eq_refl (codec.content_identity_hash x.1),
          compare_pair,
        )
        (compare_twins xs)

  reordered-twins :
      (n : ℕ) (evs : List SessionEvent) (top : Option ℕ)
      → ((k : ℕ) → top ≡ some k → k ≤ n)
      → reordered codec top (twins (enumerate_from n evs)) ≡ []
  unfolding reordered
  reordered-twins n [] top h = refl
  reordered-twins n (ev ∷ evs) none h = reordered-twins (suc n) evs (some n) (λ k e. ground arith)
  reordered-twins n (ev ∷ evs) (some k) h =
      let on_time : ltb n k ≡ false = ground (arith, h k refl) in
      rw on_time (reordered-twins (suc n) evs (some n) (λ k e. ground arith))

  insert-twins :
      (n m : ℕ) (ev : SessionEvent) (evs : List SessionEvent)
      → n < m
      → insert (le_pair codec) ((n, ev), (n, ev)) (twins (enumerate_from m evs))
        ≡ ((n, ev), (n, ev)) ∷ twins (enumerate_from m evs)
  unfolding insert
  insert-twins n m ev [] h = refl
  insert-twins n m ev (e ∷ evs) h = ground arith

  sort-twins :
      (n : ℕ) (evs : List SessionEvent)
      → sort (le_pair codec) (twins (enumerate_from n evs)) ≡ twins (enumerate_from n evs)
  unfolding sort
  sort-twins n [] = refl
  sort-twins n (ev ∷ evs) =
      ap (insert (le_pair codec) ((n, ev), (n, ev))) (sort-twins (suc n) evs)
      ∙ insert-twins n (suc n) ev evs (omega arith)

  emitted-twins :
      (evs : List SessionEvent)
      → emitted codec (record { pairs = twins (enumerate_from 0 evs); removed = []; added = [] })
        ≡ []
  unfolding emitted
  emitted-twins evs =
      rw (compare_twins (enumerate_from 0 evs))
        (rw (sort-twins 0 evs) (rw (reordered-twins 0 evs none (λ k e. cc)) refl))

  -- A session does not differ from itself, whatever ids stand in it twice.
  pub diff_events_itself : (evs : List SessionEvent) → diff_events codec evs evs ≡ []
  unfolding diff_events sort
  diff_events_itself evs =
      ap (sort le_delta) (ap (emitted codec) (align_itself evs) ∙ emitted-twins evs)
