-- ===== src/Checks/Graph/Cycles/Sound.antt =====
-- The cycles that `check_cycles` (checks/graph.py) reports.
use mathlib.Core.List.{append_assoc, append-nil}
use mathlib.Core.Path.{subst}
use sesslint.Prelude.{
  ℕ, zero, suc, String, ◌≡◌, ◌≢◌, refl, sym, ap, ◌∙◌, ◌⊎◌, inl, inr, true, Option, none, some, List,
  [], ◌∷◌, ◌++◌, if◌then◌else◌, mem_text, mem_text-append, arith, Bool-cases, eq_iff, eq_refl, All,
  All-append, length, any,
}
use sesslint.Prelude.Text.{le_text, le_text-total, le_text_trans}
use sesslint.Session.{SessionEvent}
use sesslint.Checks.Graph.Occurrence.{Graph, Node, next_of, occurrence_graph}
use sesslint.Checks.Graph.Cycles.{
  gray, black, Colors, color_of, blacken, Walk, walk, Search, note_cycle, explore, visit, visit_all,
  find_cycles, close_cycle, same_members, from_node, before_node, min_text,
}
use sesslint.Checks.Graph.Cycles.Links.{Linked, Linked-turn, Linked-right, split_at}
use sesslint.Checks.Graph.Cycles.Complete.{
  walk-white, walk-gray, walk-black, Color-cases, color_of-cons, Visit, visit-Visit,
}

-- A list of ids that a cycle joins.
Loop : Graph → List String → Type 0
Loop g raw = (k : String) × (ks : List String) × (raw ≡ k ∷ ks) × Linked g (raw ++ k ∷ [])

-- A reported cycle: an id, its ancestors one after the other, and the id again, which is none of
-- them greater than.
pub record IsCycle (g : Graph) (c : List String) : Type 0 where
  pub first : String
  pub rest : List String
  pub closed : c ≡ (first ∷ rest) ++ first ∷ []
  pub linked : Linked g c
  pub least : All (λ s. le_text first s ≡ true) rest

-- The end of a path as the next id.
abbrev ending : Option String → List String
ending none = []
ending (some k) = k ∷ []

some_inj : (x y : List String) → some x ≡ some y → x ≡ y
some_inj x y e = cc

no_cycle : (raw : List String) → none ≡ some raw → ⊥
no_cycle raw e = cc

pub grays-step :
    (path : List String) (c : String) (colors : Colors)
    → ((k : String) → color_of colors k ≡ gray → mem_text k path ≡ true)
    → (k : String) → color_of ((c, gray) ∷ colors) k ≡ gray
    → mem_text k (path ++ c ∷ []) ≡ true
grays-step path c colors grays k h = ground (
  arith,
  grays k,
  mem_text-append k path (c ∷ []),
  color_of-cons c gray colors k,
  eq_iff c k,
  eq_iff k c,
)

no_gray_blackened :
    (path : List String) (colors : Colors)
    → ((k : String) → color_of colors k ≡ gray → mem_text k path ≡ true)
    → (k : String) → color_of (blacken path colors) k ≢ gray
unfolding blacken
no_gray_blackened [] colors grays k h = cc (grays k h)
no_gray_blackened (x ∷ xs) colors grays k h =
    no_gray_blackened xs ((x, black) ∷ colors)
      (λ j e. ground (arith, grays j, color_of-cons x black colors j, eq_iff x j, eq_iff j x)) k h

-- The smallest of some texts is one of them, and is at most each.
min_text-cons :
    (s k : String) (ks : List String)
    → (le_text s k ≡ true) × (min_text s (k ∷ ks) ≡ min_text s ks)
      ⊎ (le_text k s ≡ true) × (min_text s (k ∷ ks) ≡ min_text k ks)
unfolding min_text
min_text-cons s k ks = elim (Bool-cases (le_text s k)) [
  | inl e ↦ inl (e, ap (λ b. min_text (if b then s else k) ks) e)
  | inr e ↦ inr (
    elim (le_text-total s k) [ inl h ↦ cc | inr h ↦ h ],
    ap (λ b. min_text (if b then s else k) ks) e,
  )
]

min_text-mem : (s : String) (ks : List String) → mem_text (min_text s ks) (s ∷ ks) ≡ true
min_text-mem s [] = unfold min_text in ground (arith, eq_refl s)
min_text-mem s (k ∷ ks) = elim (min_text-cons s k ks) [
  | inl e ↦
      subst (λ w. mem_text w (s ∷ k ∷ ks) ≡ true) (sym e.1) (ground (arith, min_text-mem s ks))
  | inr e ↦
      subst (λ w. mem_text w (s ∷ k ∷ ks) ≡ true) (sym e.1) (ground (arith, min_text-mem k ks))
]

min_text-le_start : (s : String) (ks : List String) → le_text (min_text s ks) s ≡ true
min_text-le_start s [] = unfold min_text in elim (le_text-total s s) [ inl h ↦ h | inr h ↦ h ]
min_text-le_start s (k ∷ ks) = elim (min_text-cons s k ks) [
  | inl e ↦ rw e.1 (min_text-le_start s ks)
  | inr e ↦ rw e.1 (le_text_trans _ k s (min_text-le_start k ks) e.0)
]

min_text-All : (s : String) (ks : List String) → All (λ t. le_text (min_text s ks) t ≡ true) ks
min_text-All s [] = tt
min_text-All s (k ∷ ks) = elim (min_text-cons s k ks) [
  | inl e ↦
      subst (λ w. All (λ t. le_text w t ≡ true) (k ∷ ks)) (sym e.1)
        (le_text_trans _ s k (min_text-le_start s ks) e.0, min_text-All s ks)
  | inr e ↦
      subst (λ w. All (λ t. le_text w t ≡ true) (k ∷ ks)) (sym e.1)
        (min_text-le_start k ks, min_text-All k ks)
]

abbrev head_or : String → List String → String
head_or k [] = k
head_or k (x ∷ xs) = x

All-split : (P : String → Type 0) (xs ys : List String) → All P (xs ++ ys) → All P xs × All P ys
All-split P [] ys h = (tt, h)
All-split P (x ∷ xs) ys h = let r = All-split P xs ys h.1 in ((h.0, r.0), r.1)

module _ (g : Graph) where
  Linked-snoc :
      (path : List String) (c : String) (o : Option String)
      → next_of g c ≡ o
      → Linked g (path ++ c ∷ [])
      → Linked g ((path ++ c ∷ []) ++ ending o)
  Linked-snoc path c none e h = subst (Linked g) (sym (append-nil (path ++ c ∷ []))) h
  Linked-snoc [] c (some p) e h = (e, tt)
  Linked-snoc (x ∷ []) c (some p) e h = (h.0, (e, tt))
  Linked-snoc (x ∷ y ∷ path) c (some p) e h = (h.0, Linked-snoc (y ∷ path) c (some p) e h.1)

  -- What a walk runs into is a cycle of the path.
  walk-Loop :
      (fuel : ℕ) (curr : Option String) (path : List String) (colors : Colors)
      → ((k : String) → color_of colors k ≡ gray → mem_text k path ≡ true)
      → Linked g (path ++ ending curr)
      → (raw : List String) → (walk g fuel curr path colors).cycle ≡ some raw
      → Loop g raw
  unfolding Loop
  walk-Loop zero curr path colors grays linked raw h = absurd (no_cycle raw (unfold walk in h))
  walk-Loop (suc fuel) none path colors grays linked raw h =
      absurd (no_cycle raw (unfold walk in h))
  walk-Loop (suc fuel) (some c) path colors grays linked raw h =
      elim (Color-cases (color_of colors c)) [
        | inl w ↦
            walk-Loop fuel (next_of g c) (path ++ c ∷ []) ((c, gray) ∷ colors)
              (λ k. grays-step path c colors grays k) (Linked-snoc path c (next_of g c) refl linked)
              raw (rw (walk-white g fuel c path colors w) at h)
        | inr (inl w) ↦
            let (ys, p, q) = split_at c path (grays c w) in
            let found : some (from_node c path) ≡ some raw =
              rw (walk-gray g fuel c path colors w) at h in
            let same : raw ≡ c ∷ ys = sym (some_inj _ _ found) ∙ p in
            let flat = subst (λ xs. Linked g (xs ++ c ∷ [])) q linked in
            let tail =
              Linked-right g (before_node c path) ((c ∷ ys) ++ c ∷ [])
                (subst (Linked g) (append_assoc (before_node c path) (c ∷ ys) (c ∷ [])) flat) in
            (c, ys, same, subst (λ xs. Linked g (xs ++ c ∷ [])) (sym same) tail)
        | inr (inr w) ↦ cc (rw (walk-black g fuel c path colors w) at h)
      ]

  -- After a walk the gray ids stand on its path, so none is gray once the path is black.
  pub walk-grays :
      (fuel : ℕ) (curr : Option String) (path : List String) (colors : Colors)
      → ((k : String) → color_of colors k ≡ gray → mem_text k path ≡ true)
      → (k : String) → color_of (walk g fuel curr path colors).colors k ≡ gray
      → mem_text k (walk g fuel curr path colors).path ≡ true
  walk-grays zero curr path colors grays k h = unfold walk in grays k h
  walk-grays (suc fuel) none path colors grays k h = unfold walk in grays k h
  walk-grays (suc fuel) (some c) path colors grays k h = elim (Color-cases (color_of colors c)) [
    | inl w ↦ rw (walk-white g fuel c path colors w) (
        walk-grays fuel (next_of g c) (path ++ c ∷ []) ((c, gray) ∷ colors)
          (λ j. grays-step path c colors grays j) k (rw (walk-white g fuel c path colors w) at h))
    | inr (inl w) ↦
        rw (walk-gray g fuel c path colors w) (grays k (rw (walk-gray g fuel c path colors w) at h))
    | inr (inr w) ↦
        rw (walk-black g fuel c path colors w)
          (grays k (rw (walk-black g fuel c path colors w) at h))
  ]

  turn_at :
      (k : String) (ks : List String) (before : List String) (m : String) (ys : List String)
      → k ∷ ks ≡ before ++ m ∷ ys
      → Linked g ((k ∷ ks) ++ k ∷ [])
      → Linked g ((m ∷ ys ++ before) ++ m ∷ [])
  turn_at k ks [] m ys e h =
      subst (λ zs. Linked g (zs ++ m ∷ [])) (sym (append-nil (m ∷ ys)))
        (subst (λ zs. Linked g (zs ++ head_or k zs ∷ [])) e h)
  turn_at k ks (x ∷ xs) m ys e h =
      Linked-turn g x xs m ys (subst (λ zs. Linked g (zs ++ head_or k zs ∷ [])) e h)

  -- A cycle turned to start at its smallest id, and closed.
  close_cycle-IsCycle : (raw : List String) → Loop g raw → IsCycle g (close_cycle raw)
  unfolding Loop
  close_cycle-IsCycle raw (k, ks, same, linked) =
      let m = min_text k ks in
      let (ys, p, q) = split_at m (k ∷ ks) (min_text-mem k ks) in
      let shape : close_cycle raw ≡ (m ∷ ys ++ before_node m (k ∷ ks)) ++ m ∷ [] =
        ap close_cycle same
        ∙ (unfold close_cycle in ap (λ zs. (zs ++ before_node m (k ∷ ks)) ++ m ∷ []) p) in
      let turned =
        turn_at k ks (before_node m (k ∷ ks)) m ys q
          (subst (λ zs. Linked g (zs ++ k ∷ [])) same linked) in
      let low : All (λ t. le_text m t ≡ true) (k ∷ ks) =
        (min_text-le_start k ks, min_text-All k ks) in
      let parts =
        All-split (λ t. le_text m t ≡ true) (before_node m (k ∷ ks)) (m ∷ ys)
          (subst (All (λ t. le_text m t ≡ true)) q low) in
      record {
        first = m;
        rest = ys ++ before_node m (k ∷ ks);
        closed = shape;
        linked = subst (Linked g) (sym shape) turned;
        least = All-append (λ t. le_text m t ≡ true) ys (before_node m (k ∷ ks)) parts.1.1 parts.0;
      }

  -- What the search keeps: no id is gray between two walks, and the noted cycles are cycles.
  pub record IsSound (s : Search) : Type 0 where
    pub no_gray : (k : String) → color_of s.colors k ≢ gray
    pub cycles : All (IsCycle g) s.cycles

  blackened-no_gray :
      (start : String) (s : Search)
      → IsSound s
      → (k : String) → color_of ((start, black) ∷ s.colors) k ≢ gray
  blackened-no_gray start s h k e =
      h.no_gray k (ground (arith, color_of-cons start black s.colors k))

  note_cycle-All :
      (c : Option (List String)) (s : Search)
      → ((raw : List String) → c ≡ some raw → Loop g raw)
      → All (IsCycle g) s.cycles
      → All (IsCycle g) (note_cycle c s).cycles
  unfolding note_cycle
  note_cycle-All none s f h = h
  note_cycle-All (some raw) s f h = elim (Bool-cases (any (λ c. same_members raw c) s.seen)) [
    | inl e ↦ rw e h
    | inr e ↦ rw e (
        All-append (IsCycle g) s.cycles (close_cycle raw ∷ []) h
          (close_cycle-IsCycle raw (f raw refl), tt))
  ]

  pub note_cycle-colors :
      (c : Option (List String)) (s : Search) → (note_cycle c s).colors ≡ s.colors
  unfolding note_cycle
  note_cycle-colors none s = refl
  note_cycle-colors (some raw) s = elim (Bool-cases (any (λ c. same_members raw c) s.seen)) [
    | inl e ↦ rw e refl
    | inr e ↦ rw e refl
  ]

  explore-IsSound : (start : String) (s : Search) → IsSound s → IsSound (explore g start s)
  unfolding explore
  explore-IsSound start s h =
      let w : Walk = walk g (suc (length g)) (some start) [] s.colors in
      let t : Search = record s { colors = blacken w.path w.colors } in
      let grays = λ (k : String) (e : color_of s.colors k ≡ gray).
        absurd {A = mem_text k [] ≡ true} (h.no_gray k e) in
      record {
        no_gray = λ k e.
            no_gray_blackened w.path w.colors
              (walk-grays (suc (length g)) (some start) [] s.colors grays) k
              (sym (ap (λ c. color_of c k) (note_cycle-colors w.cycle t)) ∙ e);
        cycles =
            note_cycle-All w.cycle t (walk-Loop (suc (length g)) (some start) [] s.colors grays tt)
              h.cycles;
      }

  pub Visit-IsSound : (start : String) (s t : Search) → IsSound s → Visit g start s t → IsSound t
  Visit-IsSound start s t h (Visit.done b e) = subst IsSound (sym e) h
  Visit-IsSound start s t h (Visit.rooted n e) =
      subst IsSound (sym e) (record { no_gray = blackened-no_gray start s h; cycles = h.cycles })
  Visit-IsSound start s t h (Visit.settled p n b e) =
      subst IsSound (sym e) (record { no_gray = blackened-no_gray start s h; cycles = h.cycles })
  Visit-IsSound start s t h (Visit.explored e) = subst IsSound (sym e) (explore-IsSound start s h)

  visit_all-IsSound : (ns : List Node) (s : Search) → IsSound s → IsSound (visit_all g ns s)
  unfolding visit_all
  visit_all-IsSound [] s h = h
  visit_all-IsSound (n ∷ ns) s h =
      visit_all-IsSound ns (visit g n.id s) (Visit-IsSound n.id s _ h (visit-Visit g n.id s))

-- Each reported cycle starts at an id, goes on from each id to its parent among the session's ids,
-- and comes back to that id, which no id on it is before in the order of texts.
pub find_cycles-All-IsCycle :
    (evs : List SessionEvent) → All (IsCycle (occurrence_graph evs)) (find_cycles evs)
unfolding find_cycles
find_cycles-All-IsCycle evs =
    (visit_all-IsSound (occurrence_graph evs) (occurrence_graph evs)
      (record { colors = []; cycles = []; seen = [] })
      (record { no_gray = λ k e. unfold color_of in cc; cycles = tt })).cycles
