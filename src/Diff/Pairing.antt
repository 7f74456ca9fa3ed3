-- ===== src/Diff/Pairing.antt =====
-- The two passes of `diff_events` (diff.py) that pair events. Both run the same loop over buckets of
-- events of B, by id and then by the fallback key.
use sesslint.Prelude.{
  ℕ, String, ◌==◌, Bool, ◌&&◌, not, List, [], ◌∷◌, ◌++◌, if◌then◌else◌, mem_ℕ, keep, enumerate_from,
}
use sesslint.Session.{SessionEvent}
use sesslint.Diff.Data.{Codec, or_empty}

-- An index with its event.
abbrev pub Indexed : Type 0
Indexed = ℕ × SessionEvent

abbrev pub Pairs : Type 0
Pairs = List (Indexed × Indexed)

-- What one pass leaves: the pairs in order, the events of A with no partner, and `matched_b`.
pub record Pass : Type 0 where
  pub pairs : Pairs
  pub unmatched : List Indexed
  pub matched : List ℕ

abbrev pub add_pair : Indexed → Indexed → Pass → Pass
add_pair x y p = record p { pairs = (x, y) ∷ p.pairs }

abbrev pub add_unmatched : Indexed → Pass → Pass
add_unmatched x p = record p { unmatched = x ∷ p.unmatched }

-- `while bucket and bucket[0] in matched_b: bucket.popleft()`.
unfoldable pub skip_matched : List ℕ → List Indexed → List Indexed
skip_matched matched [] = []
skip_matched matched (y ∷ ys) =
    let rest = skip_matched matched ys in if mem_ℕ y.0 matched then rest else y ∷ ys

module _ {K : Type 0} (same : K → K → Bool) (key : SessionEvent → K) where
  -- The dictionary from keys to deques of indices.
  abbrev pub Buckets : Type 0
  Buckets = List (K × List Indexed)

  -- `d.get(k)`; a missing key and an empty deque are both false.
  unfoldable pub bucket : Buckets → K → List Indexed
  bucket [] k = []
  bucket ((l, ys) ∷ d) k = if same l k then ys else bucket d k

  -- What the loop leaves of a deque that is there.
  unfoldable pub store : Buckets → K → List Indexed → Buckets
  store [] k ys = []
  store ((l, zs) ∷ d) k ys = if same l k then (l, ys) ∷ d else (l, zs) ∷ store d k ys

  -- `d.setdefault(k, deque()).append(y)`.
  unfoldable pub append_to : Buckets → K → Indexed → Buckets
  append_to [] k y = (k, y ∷ []) ∷ []
  append_to ((l, ys) ∷ d) k y =
      if same l k then (l, ys ++ y ∷ []) ∷ d else (l, ys) ∷ append_to d k y

  unfoldable pub buckets_from : Buckets → List Indexed → Buckets
  unfolding append_to
  buckets_from d [] = d
  buckets_from d (y ∷ ys) = buckets_from (append_to d (key y.1) y) ys

  -- The loop over the events of A.
  unfoldable pub pair_up : List Indexed → Buckets → List ℕ → Pass
  unfolding bucket store skip_matched
  pair_up [] d matched = record { pairs = []; unmatched = []; matched = matched }
  pair_up (x ∷ xs) d matched = elim (skip_matched matched (bucket d (key x.1))) [
    | [] ↦ add_unmatched x (pair_up xs (store d (key x.1) []) matched)
    | y ∷ ys ↦ add_pair x y (pair_up xs (store d (key x.1) ys) (y.0 ∷ matched))
  ]

-- `_fallback_key`.
pub record FallbackKey : Type 0 where
  pub kind : String
  pub parent : String
  pub hash : String

unfoldable pub fallback_key : Codec → SessionEvent → FallbackKey
fallback_key codec ev = record {
  kind = ev.kind;
  parent = or_empty ev.parent_id;
  hash = codec.content_identity_hash ev;
}

abbrev pub same_key : FallbackKey → FallbackKey → Bool
same_key k l = k.kind == l.kind && (k.parent == l.parent && k.hash == l.hash)

abbrev pub same_text : String → String → Bool
same_text s t = s == t

abbrev pub event_id_of : SessionEvent → String
event_id_of ev = ev.id

-- The events of B that are not matched.
abbrev pub unmatched_b : List ℕ → List SessionEvent → List Indexed
unmatched_b matched evs = keep (λ y. not (mem_ℕ y.0 matched)) (enumerate_from 0 evs)

-- Pass 1, by id.
unfoldable pub by_id : List SessionEvent → List SessionEvent → Pass
unfolding pair_up buckets_from
by_id events_a events_b =
    pair_up same_text event_id_of (enumerate_from 0 events_a)
      (buckets_from same_text event_id_of [] (enumerate_from 0 events_b)) []

-- Pass 2, by the fallback key, over what pass 1 leaves.
unfoldable pub by_key : Codec → List SessionEvent → Pass → Pass
unfolding pair_up buckets_from fallback_key
by_key codec events_b first =
    pair_up same_key (fallback_key codec) first.unmatched
      (buckets_from same_key (fallback_key codec) [] (unmatched_b first.matched events_b))
      first.matched

pub record Alignment : Type 0 where
  pub pairs : Pairs
  pub removed : List Indexed
  pub added : List Indexed

unfoldable pub align : Codec → List SessionEvent → List SessionEvent → Alignment
unfolding by_id by_key
align codec events_a events_b =
    let first = by_id events_a events_b in
    let second = by_key codec events_b first in
    record {
      pairs = first.pairs ++ second.pairs;
      removed = second.unmatched;
      added = unmatched_b second.matched events_b;
    }
