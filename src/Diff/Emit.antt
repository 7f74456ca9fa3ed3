-- ===== src/Diff/Emit.antt =====
-- The deltas that `diff_events` (diff.py) emits for an alignment, and the whole of it.
use Prim.Native.String.{slice}
use sesslint.Prelude.{
  ℕ, String, ◌==◌, Bool, true, false, Option, none, some, List, [], ◌∷◌, ◌++◌, if◌then◌else◌, ltb,
  leb, eqb, map,
}
use sesslint.Prelude.Sort.{sort}
use sesslint.Session.{SessionEvent}
use sesslint.Diff.Data.{
  Delta, DeltaCategory, added, removed, kind_changed, parent_relinked, seq_reordered,
  content_changed, Codec, le_delta,
}
use sesslint.Diff.Pairing.{Indexed, Pairs, Alignment, align}

-- `_safe_id`.
unfoldable pub safe_id : Codec → Option String → String
safe_id codec none = ""
safe_id codec (some raw) =
    if raw == "" then "" else if codec.content_free raw then raw else "<redacted>"

abbrev pub same_parent : Option String → Option String → Bool
same_parent none none = true
same_parent none (some t) = false
same_parent (some s) none = false
same_parent (some s) (some t) = s == t

module _ (codec : Codec) where
  unfoldable pub pair_delta : DeltaCategory → Indexed → Indexed → List (String × String) → Delta
  unfolding safe_id
  pair_delta category a b detail = record {
    category = category;
    event_id = some (safe_id codec (some a.1.id));
    a_index = some a.0;
    b_index = some b.0;
    detail = detail;
  }

  -- The deltas of one pair.
  unfoldable pub compare_pair : Indexed → Indexed → List Delta
  unfolding pair_delta
  compare_pair a b =
      (if a.1.kind == b.1.kind
        then []
        else pair_delta kind_changed a b (("kind_a", a.1.kind) ∷ ("kind_b", b.1.kind) ∷ []) ∷ [])
      ++ (if same_parent a.1.parent_id b.1.parent_id
          then []
          else pair_delta parent_relinked a b (
              ("parent_a", safe_id codec a.1.parent_id)
              ∷ ("parent_b", safe_id codec b.1.parent_id)
              ∷ [])
            ∷ [])
      ++ (let hash_a = codec.content_identity_hash a.1 in
          let hash_b = codec.content_identity_hash b.1 in
          if hash_a == hash_b
          then []
          else pair_delta content_changed a b
              (("hash_a", slice hash_a 0 16) ∷ ("hash_b", slice hash_b 0 16) ∷ [])
            ∷ [])

  unfoldable pub compare_pairs : Pairs → List Delta
  unfolding compare_pair
  compare_pairs [] = []
  compare_pairs ((a, b) ∷ ps) = compare_pair a b ++ compare_pairs ps

  -- `sorted(pairs)`: by the index in A, then by that in B.
  abbrev pub le_pair : Indexed × Indexed → Indexed × Indexed → Bool
  le_pair p q = if eqb p.0.0 q.0.0 then leb p.1.0 q.1.0 else ltb p.0.0 q.0.0

  -- `j < running_max`, which starts at -1.
  abbrev pub regresses : ℕ → Option ℕ → Bool
  regresses j none = false
  regresses j (some top) = ltb j top

  unfoldable pub reordered : Option ℕ → Pairs → List Delta
  unfolding pair_delta
  reordered running_max [] = []
  reordered running_max ((a, b) ∷ ps) =
      (if regresses b.0 running_max then pair_delta seq_reordered a b [] ∷ [] else [])
      ++ reordered (if regresses b.0 running_max then running_max else some b.0) ps

  unfoldable pub removed_delta : Indexed → Delta
  unfolding safe_id
  removed_delta a = record {
    category = removed;
    event_id = some (safe_id codec (some a.1.id));
    a_index = some a.0;
    b_index = none;
    detail = ("kind", a.1.kind) ∷ [];
  }

  unfoldable pub added_delta : Indexed → Delta
  unfolding safe_id
  added_delta b = record {
    category = added;
    event_id = some (safe_id codec (some b.1.id));
    a_index = none;
    b_index = some b.0;
    detail = ("kind", b.1.kind) ∷ [];
  }

  -- The deltas in the order in which they are emitted, before the sort.
  unfoldable pub emitted : Alignment → List Delta
  unfolding compare_pairs reordered removed_delta added_delta
  emitted al =
      compare_pairs al.pairs
      ++ reordered none (sort le_pair al.pairs)
      ++ map removed_delta al.removed
      ++ map added_delta al.added

  unfoldable pub diff_events : List SessionEvent → List SessionEvent → List Delta
  unfolding align emitted
  diff_events events_a events_b = sort le_delta (emitted (align codec events_a events_b))
