-- ===== src/Repair/Positions/Tags.antt =====
-- Working events that repair/positions.py tags and strips.
use mathlib.Core.List.{append-nil, append_assoc}
use sesslint.Prelude.{
  ℕ, suc, ◌≤◌, ◌<◌, ◌+◌, String, ◌==◌, ◌≡◌, refl, sym, ap, ◌∙◌, true, false, none, some, List, [],
  ◌∷◌, ◌++◌, any, length, ℤ, pos, eqb_ℤ, eqb, eqb_iff, arith, Bool-cases, inl, inr, eq_refl,
}
use sesslint.Values.{Value, null, Fields, field, end, int, get, has_key, put, removed}
use sesslint.Repair.Result.{ok}
use sesslint.Repair.Positions.{
  origin_key, tags_from, tag_origins, strip_origins, Positions, position_of, collect_positions,
  source_positions,
}

removed-missing : (fs : Fields) (k : String) → has_key fs k ≡ false → removed fs k ≡ fs
unfolding removed has_key
removed-missing end k e = refl
removed-missing (field l v fs) k e = ground (arith, removed-missing fs k)

removed-put :
    (fs : Fields) (k : String) (v : Value) → has_key fs k ≡ false → removed (put fs k v) k ≡ fs
unfolding removed has_key put
removed-put end k v e = rw (eq_refl k) refl
removed-put (field l w fs) k v e = ground (arith, removed-put fs k v)

get-put : (fs : Fields) (k : String) (v : Value) → get (put fs k v) k ≡ v
unfolding get put
get-put end k v = rw (eq_refl k) refl
get-put (field l w fs) k v = elim (Bool-cases (l == k)) [
  | inl same ↦ rw (same, same) refl
  | inr other ↦ rw (other, other) (get-put fs k v)
]

pub put-get : (fs : Fields) (k : String) → has_key fs k ≡ true → put fs k (get fs k) ≡ fs
unfolding get put has_key
put-get end k e = cc
put-get (field l w fs) k e = elim (Bool-cases (l == k)) [
  | inl same ↦ rw same refl
  | inr other ↦
      let kept : put fs k (get fs k) ≡ fs = put-get fs k (rw other at e) in
      rw other (ap (λ r. field l w r) kept)
]

pub get-missing : (fs : Fields) (k : String) → has_key fs k ≡ false → get fs k ≡ null
unfolding get has_key
get-missing end k e = refl
get-missing (field l v fs) k e = ground (arith, get-missing fs k)

-- The position of each event by itself.
abbrev pub own_positions : ℕ → List Fields → Positions
own_positions i [] = []
own_positions i (ev ∷ evs) = (pos i, i) ∷ own_positions (suc i) evs

position_of-append :
    (ps qs : Positions) (o : ℤ)
    → position_of ps o ≡ none
    → position_of (ps ++ qs) o ≡ position_of qs o
unfolding position_of
position_of-append [] qs o e = refl
position_of-append ((p, c) ∷ ps) qs o e = ground (arith, position_of-append ps qs o)

pub strip_origins-tags_from :
    (i : ℕ) (evs : List Fields)
    → any (λ ev. has_key ev origin_key) evs ≡ false
    → strip_origins (tags_from i evs) ≡ evs
unfolding strip_origins tags_from
strip_origins-tags_from i [] e = refl
strip_origins-tags_from i (ev ∷ evs) e = elim (Bool-cases (has_key ev origin_key)) [
  | inl there ↦ cc
  | inr free ↦
      rw (removed-put ev origin_key (int (pos i)) free)
        (ap (λ r. ev ∷ r) (strip_origins-tags_from (suc i) evs (rw free at e)))
]

collect_positions-new :
    (i : ℕ) (ps : Positions) (ev : Fields) (evs : List Fields) (o : ℤ)
    → get ev origin_key ≡ int o
    → position_of ps o ≡ none
    → collect_positions i ps (ev ∷ evs) ≡ collect_positions (suc i) (ps ++ (o, i) ∷ []) evs
unfolding collect_positions
collect_positions-new i ps ev evs o tag free = rw (collect_positions, tag, free) refl

collect_positions-tags_from :
    (i : ℕ) (ps : Positions) (evs : List Fields)
    → ((j : ℕ) → i ≤ j → position_of ps (pos j) ≡ none)
    → collect_positions i ps (tags_from i evs) ≡ ok (ps ++ own_positions i evs)
unfolding collect_positions tags_from position_of
collect_positions-tags_from i ps [] free = ap ok (sym (append-nil ps))
collect_positions-tags_from i ps (ev ∷ evs) free =
    collect_positions-new i ps (put ev origin_key (int (pos i))) (tags_from (suc i) evs) (pos i)
      (get-put ev origin_key (int (pos i))) (free i (omega arith))
    ∙ collect_positions-tags_from (suc i) (ps ++ (pos i, i) ∷ []) evs (λ j low.
      position_of-append ps ((pos i, i) ∷ []) (pos j) (free j (omega arith)) ∙ later j low)
    ∙ ap ok (append_assoc ps ((pos i, i) ∷ []) (own_positions (suc i) evs))
  where
    later : (j : ℕ) → suc i ≤ j → position_of ((pos i, i) ∷ []) (pos j) ≡ none
    later j low = let apart : eqb_ℤ (pos i) (pos j) ≡ false = ground arith in rw apart refl

pub source_positions-tags_from :
    (evs : List Fields) → source_positions (tags_from 0 evs) ≡ ok (own_positions 0 evs)
unfolding source_positions position_of
source_positions-tags_from evs = collect_positions-tags_from 0 [] evs (λ j low. refl)

pub own-position_of :
    (i : ℕ) (evs : List Fields) (j : ℕ)
    → i ≤ j
    → j < i + length evs
    → position_of (own_positions i evs) (pos j) ≡ some j
unfolding position_of
own-position_of i [] j low high = ground arith
own-position_of i (ev ∷ evs) j low high = elim (Bool-cases (eqb i j)) [
  | inl same ↦
      let here : i ≡ j = (eqb_iff i j).0 same in
      let met : eqb_ℤ (pos i) (pos j) ≡ true = ground arith in rw (met, here) refl
  | inr other ↦
      let apart : eqb_ℤ (pos i) (pos j) ≡ false = ground arith in
      rw apart (own-position_of (suc i) evs j (ground arith) (ground arith))
]

pub tag_origins-free :
    (evs : List Fields) (tagged : List Fields)
    → tag_origins evs ≡ ok tagged
    → (any (λ ev. has_key ev origin_key) evs ≡ false) × (tagged ≡ tags_from 0 evs)
unfolding tag_origins
tag_origins-free evs tagged e = elim (Bool-cases (any (λ ev. has_key ev origin_key) evs)) [
  | inl t ↦ cc
  | inr t ↦ let made : ok (tags_from 0 evs) ≡ ok tagged = rw t at e in (t, cc)
]
