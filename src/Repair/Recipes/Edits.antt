-- ===== src/Repair/Recipes/Edits.antt =====
-- The edits that the recipes make: `list.pop`, `list.insert`, and the new parent of an event whose
-- parent is dropped; with what each leaves at a position.
use sesslint.Prelude.{
  ℕ, zero, suc, ◌-◌, ◌<◌, ◌≡◌, refl, String, ◌==◌, Bool, true, false, not, ◌||◌, Option, none, some,
  List, ap, eq_iff, [], ◌∷◌, map, length, if◌then◌else◌, arith, get_elem?, ltb, eqb, Bool-cases,
  inl, inr, or-false, length-map, mem_ℕ, At, pos,
}
use mathlib.Core.List.Perm
use mathlib.Core.List.{Perm}
use sesslint.Session.{SessionEvent}
use sesslint.Policy.Scope.{mem_ℤ}

-- `xs.pop(i)`, for a position in range.
unfoldable pub remove_at : {A : Type 0} → ℕ → List A → List A
remove_at i [] = []
remove_at zero (x ∷ xs) = xs
remove_at (suc i) (x ∷ xs) = x ∷ remove_at i xs

-- `xs.insert(i, x)`: past the end, it appends.
unfoldable pub insert_at : {A : Type 0} → ℕ → A → List A → List A
insert_at zero x xs = x ∷ xs
insert_at (suc i) x [] = x ∷ []
insert_at (suc i) x (y ∷ ys) = y ∷ insert_at i x ys

-- `ev.parent_id == s`, which no missing parent is.
abbrev pub has_parent : String → SessionEvent → Bool
has_parent s ev = elim ev.parent_id [ none ↦ false | some p ↦ p == s ]

abbrev pub relinked : String → String → SessionEvent → SessionEvent
relinked old new ev = if has_parent old ev then record ev { parent_id = some new } else ev

-- The loop that gives the children of a dropped event the kept one as parent, if both have ids and these
-- differ.
unfoldable pub relink : String → String → List SessionEvent → List SessionEvent
relink old new evs =
    if old == "" || new == "" || new == old then evs else map (relinked old new) evs

-- The kinds that delimit a session's segments.
abbrev pub is_boundary_kind : String → Bool
is_boundary_kind kind = kind == "checkpoint" || kind == "compaction_boundary"

-- The positions of the events that pass a test, counted from a start.
unfoldable pub positions : (SessionEvent → Bool) → ℕ → List SessionEvent → List ℕ
positions p i [] = []
positions p i (ev ∷ evs) = let rest = positions p (suc i) evs in if p ev then i ∷ rest else rest

-- Where the item at `j` stands once position `d` is removed.
abbrev pub shifted : ℕ → ℕ → ℕ
shifted d j = if ltb d j then j - 1 else j

pub get_elem?-remove_at :
    {A : Type 0} (d j : ℕ) (xs : List A)
    → eqb j d ≡ false
    → get_elem? (remove_at d xs) (shifted d j) ≡ get_elem? xs j
unfolding remove_at
get_elem?-remove_at d j [] h = refl
get_elem?-remove_at zero zero (x ∷ xs) h = ground arith
get_elem?-remove_at zero (suc j) (x ∷ xs) h = ground arith
get_elem?-remove_at (suc d) zero (x ∷ xs) h = ground arith
get_elem?-remove_at (suc d) (suc zero) (x ∷ xs) h = ground (arith, get_elem?-remove_at d 0 xs)
get_elem?-remove_at (suc d) (suc (suc j)) (x ∷ xs) h =
    ground (arith, get_elem?-remove_at d (suc j) xs)

pub length-remove_at :
    {A : Type 0} (d : ℕ) (xs : List A) → d < length xs → suc (length (remove_at d xs)) ≡ length xs
unfolding remove_at
length-remove_at d [] h = omega arith
length-remove_at zero (x ∷ xs) h = refl
length-remove_at (suc d) (x ∷ xs) h = omega (arith, length-remove_at d xs)

-- Removing an item and inserting it elsewhere permutes the list.
pub insert_at-perm : {A : Type 0} (i : ℕ) (x : A) (xs : List A) → Perm (insert_at i x xs) (x ∷ xs)
unfolding insert_at
insert_at-perm zero x xs = Perm.refl _
insert_at-perm (suc i) x [] = Perm.refl _
insert_at-perm (suc i) x (y ∷ ys) =
    Perm.trans (Perm.cons y (insert_at-perm i x ys)) (Perm.swap x y ys)

pub remove_at-perm :
    {A : Type 0} (i : ℕ) (x : A) (xs : List A)
    → get_elem? xs i ≡ some x
    → Perm (x ∷ remove_at i xs) xs
unfolding remove_at
remove_at-perm i x [] h = cc
remove_at-perm zero x (y ∷ ys) h = Perm.cons' (the_head h) (Perm.refl ys)
  where
    the_head : some y ≡ some x → x ≡ y
    the_head e = cc
remove_at-perm (suc i) x (y ∷ ys) h =
    Perm.trans (Perm.swap y x (remove_at i ys)) (Perm.cons y (remove_at-perm i x ys h))

get_elem?-map_fixed :
    (f : SessionEvent → SessionEvent) (j : ℕ) (evs : List SessionEvent) (ev : SessionEvent)
    → get_elem? evs j ≡ some ev
    → f ev ≡ ev
    → get_elem? (map f evs) j ≡ some ev
get_elem?-map_fixed f j [] ev h e = h
get_elem?-map_fixed f zero (x ∷ xs) ev h e = cc
get_elem?-map_fixed f (suc j) (x ∷ xs) ev h e = get_elem?-map_fixed f j xs ev h e

-- An event that is no child of the dropped one stays as it is.
pub get_elem?-relink :
    (old new : String) (j : ℕ) (evs : List SessionEvent) (ev : SessionEvent)
    → get_elem? evs j ≡ some ev
    → (old == "" || not (has_parent old ev)) ≡ true
    → get_elem? (relink old new evs) j ≡ some ev
unfolding relink
get_elem?-relink old new j evs ev h child =
    elim (Bool-cases (old == "" || new == "" || new == old)) [
      | inl e ↦ rw e h
      | inr e ↦
          let named = (or-false (old == "") (new == "") (or-false _ (new == old) e).0).0 in
          let apart : has_parent old ev ≡ false = ground arith in
          rw e (get_elem?-map_fixed (relinked old new) j evs ev h (fixed apart))
    ]
  where
    fixed : has_parent old ev ≡ false → relinked old new ev ≡ ev
    fixed e = rw e refl

get_elem?-map_at :
    (f : SessionEvent → SessionEvent) (j : ℕ) (evs : List SessionEvent) (ev : SessionEvent)
    → get_elem? evs j ≡ some ev
    → get_elem? (map f evs) j ≡ some (f ev)
get_elem?-map_at f j [] ev h = cc
get_elem?-map_at f zero (x ∷ xs) ev h = cc
get_elem?-map_at f (suc j) (x ∷ xs) ev h = get_elem?-map_at f j xs ev h

-- An event that differs at most in its parent, which then was the one and is the other.
pub data IsRelinked (old new : String) (ev : SessionEvent) : SessionEvent → Type 0 where
  kept : IsRelinked old new ev ev
  redirected : ev.parent_id ≡ some old → IsRelinked old new ev (record ev { parent_id = some new })

relinked-IsRelinked :
    (old new : String) (ev : SessionEvent) → IsRelinked old new ev (relinked old new ev)
relinked-IsRelinked old new ev = elim (Bool-cases (has_parent old ev)) [
  | inl e ↦ rw e (IsRelinked.redirected (by_parent ev.parent_id e))
  | inr e ↦ rw e IsRelinked.kept
]
  where
    by_parent :
        (o : Option String) → (elim o [ none ↦ false | some p ↦ p == old ]) ≡ true → o ≡ some old
    by_parent none e = cc
    by_parent (some p) e = ap some ((eq_iff p old).0 e)

pub relink-IsRelinked :
    (old new : String) (j : ℕ) (evs : List SessionEvent) (ev : SessionEvent)
    → get_elem? evs j ≡ some ev
    → (ev' : SessionEvent) × (get_elem? (relink old new evs) j ≡ some ev')
      × IsRelinked old new ev ev'
unfolding relink
relink-IsRelinked old new j evs ev h = elim (Bool-cases (old == "" || new == "" || new == old)) [
  | inl e ↦ (ev, rw e h, IsRelinked.kept)
  | inr e ↦ (
    relinked old new ev,
    rw e (get_elem?-map_at (relinked old new) j evs ev h),
    relinked-IsRelinked old new ev,
  )
]

pub length-relink :
    (old new : String) (evs : List SessionEvent) → length (relink old new evs) ≡ length evs
unfolding relink
length-relink old new evs = elim (Bool-cases (old == "" || new == "" || new == old)) [
  | inl e ↦ rw e refl
  | inr e ↦ rw e (length-map (relinked old new) evs)
]

-- The positions hold every event that passes the test.
pub positions-mem :
    (p : SessionEvent → Bool) (i j : ℕ) (evs : List SessionEvent) (ev : SessionEvent)
    → At i evs j ev
    → p ev ≡ true
    → mem_ℕ j (positions p i evs) ≡ true
unfolding positions
positions-mem p i j [] ev h e = elim h [ ]
positions-mem p i j (x ∷ xs) ev (inl (at, same)) e = rw (same, e) (ground arith)
positions-mem p i j (x ∷ xs) ev (inr h) e = ground (arith, positions-mem p (suc i) j xs ev h e)

pub mem_ℤ-map_pos : (j : ℕ) (is : List ℕ) → mem_ℤ (pos j) (map pos is) ≡ mem_ℕ j is
mem_ℤ-map_pos j [] = refl
mem_ℤ-map_pos j (i ∷ is) = ground (arith, mem_ℤ-map_pos j is)
