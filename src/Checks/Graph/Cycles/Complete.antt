-- ===== src/Checks/Graph/Cycles/Complete.antt =====
-- One round of the search of `check_cycles` (checks/graph.py), its colours, and what a visit does.
use mathlib.Core.Path.{subst}
use sesslint.Prelude.{
  ℕ, zero, suc, ◌+◌, ◌≤◌, ◌<◌, String, ◌==◌, ◌≡◌, refl, ap, ◌⊎◌, inl, inr, Bool, true, false,
  Option, none, some, List, [], ◌∷◌, ◌++◌, if◌then◌else◌, arith, Bool-cases, Option-cases, eq_iff,
  eq_refl, All, length,
}
use sesslint.Checks.Graph.Occurrence.{Graph, Node, next_of, parent_of, has_id}
use sesslint.Checks.Graph.Cycles.{
  Color, white, gray, black, Colors, color_of, blacken, walk, from_node, Search, explore, visit,
  is_black,
}

-- The nodes that are white.
abbrev pub is_white : Color → Bool
is_white white = true
is_white gray = false
is_white black = false

abbrev pub whites : Colors → Graph → ℕ
whites colors [] = 0
whites colors (n ∷ g) = (if is_white (color_of colors n.id) then 1 else 0) + whites colors g

pub Color-cases : (c : Color) → (c ≡ white) ⊎ ((c ≡ gray) ⊎ (c ≡ black))
Color-cases white = inl refl
Color-cases gray = inr (inl refl)
Color-cases black = inr (inr refl)

pub color_of-cons :
    (k : String) (c : Color) (colors : Colors) (s : String)
    → color_of ((k, c) ∷ colors) s ≡ (if k == s then c else color_of colors s)
unfolding color_of
color_of-cons k c colors s = refl

pub whites-le : (colors : Colors) (g : Graph) → whites colors g ≤ length g
whites-le colors [] = omega arith
whites-le colors (n ∷ g) = ground (arith, whites-le colors g)

whites-gray_le :
    (colors : Colors) (k : String) (g : Graph) → whites ((k, gray) ∷ colors) g ≤ whites colors g
whites-gray_le colors k [] = omega arith
whites-gray_le colors k (n ∷ g) =
    ground (arith, whites-gray_le colors k g, color_of-cons k gray colors n.id)

pub whites-gray :
    (colors : Colors) (k : String) (g : Graph)
    → has_id g k ≡ true
    → color_of colors k ≡ white
    → whites ((k, gray) ∷ colors) g < whites colors g
unfolding has_id
whites-gray colors k [] h e = cc
whites-gray colors k (n ∷ g) h e = elim (Bool-cases (n.id == k)) [
  | inl p ↦
      let same = (eq_iff n.id k).0 p in
      ground (
        arith,
        whites-gray_le colors k g,
        color_of-cons k gray colors n.id,
        eq_refl k,
        ap (color_of colors) same,
        ap (λ w. k == w) same,
      )
  | inr p ↦ ground (arith, whites-gray colors k g, color_of-cons k gray colors n.id)
]

module _ (g : Graph) (fuel : ℕ) (c : String) (path : List String) (colors : Colors) where
  pub walk-white :
      color_of colors c ≡ white
      → walk g (suc fuel) (some c) path colors
        ≡ walk g fuel (next_of g c) (path ++ c ∷ []) ((c, gray) ∷ colors)
  unfolding walk
  walk-white e = rw (e, walk) refl

  pub walk-gray :
      color_of colors c ≡ gray
      → walk g (suc fuel) (some c) path colors
        ≡ record { path = path; colors = colors; cycle = some (from_node c path) }
  unfolding walk
  walk-gray e = rw (e, walk) refl

  pub walk-black :
      color_of colors c ≡ black
      → walk g (suc fuel) (some c) path colors
        ≡ record { path = path; colors = colors; cycle = none }
  unfolding walk
  walk-black e = rw (e, walk) refl

module _ (g : Graph) where
  pub next_of-has_id : (k p : String) → next_of g k ≡ some p → has_id g p ≡ true
  unfolding next_of
  next_of-has_id k p e = elim (Option-cases (parent_of g k)) [
    | inl n ↦ cc (rw (n, next_of) at e)
    | inr (q, n) ↦ elim (Bool-cases (has_id g q)) [
      | inl h ↦ cc (rw h at (rw (n, next_of) at e))
      | inr h ↦ cc (rw h at (rw (n, next_of) at e))
    ]
  ]

  some_inj : (c k : String) → some c ≡ some k → c ≡ k
  some_inj c k e = cc

  pub gray_black :
      (colors : Colors) (c s : String)
      → color_of ((c, gray) ∷ colors) s ≡ black
      → color_of colors s ≡ black
  gray_black colors c s b = ground (arith, color_of-cons c gray colors s)

  pub walk-blackness :
      (fuel : ℕ) (curr : Option String) (path : List String) (colors : Colors) (s : String)
      → color_of (walk g fuel curr path colors).colors s ≡ black
      → color_of colors s ≡ black
  walk-blackness zero curr path colors s b = unfold walk in b
  walk-blackness (suc fuel) none path colors s b = unfold walk in b
  walk-blackness (suc fuel) (some c) path colors s b = elim (Color-cases (color_of colors c)) [
    | inl w ↦ gray_black colors c s (
        walk-blackness fuel (next_of g c) (path ++ c ∷ []) ((c, gray) ∷ colors) s
          (rw (walk-white g fuel c path colors w) at b))
    | inr (inl w) ↦ rw (walk-gray g fuel c path colors w) at b
    | inr (inr w) ↦ rw (walk-black g fuel c path colors w) at b
  ]

  -- What is black after a path is blackened.
  pub blacken-black :
      (P : String → Type 0) (path : List String) (colors : Colors)
      → All P path
      → ((s : String) → color_of colors s ≡ black → P s)
      → (s : String) → color_of (blacken path colors) s ≡ black
      → P s
  unfolding blacken
  blacken-black P [] colors h k s b = k s b
  blacken-black P (x ∷ xs) colors h k s b =
      blacken-black P xs ((x, black) ∷ colors) h.1
        (λ t c. elim (Bool-cases (x == t)) [
          | inl e ↦ subst P ((eq_iff x t).0 e) h.0
          | inr e ↦ k t (ground (arith, color_of-cons x black colors t))
        ])
        s b

  -- The three things that a visit does.
  pub data Visit (start : String) (s : Search) : Search → Type 0 where
    done : {t : Search} → color_of s.colors start ≡ black → t ≡ s → Visit start s t
    rooted :
        {t : Search}
        → next_of g start ≡ none
        → t ≡ record s { colors = (start, black) ∷ s.colors }
        → Visit start s t
    settled :
        {t : Search} (p : String)
        → next_of g start ≡ some p
        → color_of s.colors p ≡ black
        → t ≡ record s { colors = (start, black) ∷ s.colors }
        → Visit start s t
    explored : {t : Search} → t ≡ explore g start s → Visit start s t

  is_black-black : (c : Color) → is_black c ≡ true → c ≡ black
  is_black-black white h = cc
  is_black-black gray h = cc
  is_black-black black h = refl

  pub visit-Visit : (start : String) (s : Search) → Visit start s (visit g start s)
  unfolding visit
  visit-Visit start s = elim (Bool-cases (is_black (color_of s.colors start))) [
    | inl e ↦ Visit.done (is_black-black _ e) (rw (e, visit) refl)
    | inr e ↦ elim (Option-cases (next_of g start)) [
      | inl n ↦ Visit.rooted n (rw (e, visit) (rw (n, visit) refl))
      | inr (p, n) ↦ elim (Bool-cases (is_black (color_of s.colors p))) [
        | inl b ↦ Visit.settled p n (is_black-black _ b) (rw (e, visit) (rw (n, visit) (rw b refl)))
        | inr b ↦ Visit.explored (rw (e, visit) (rw (n, visit) (rw b refl)))
      ]
    ]
  ]

pub has_id-All :
    (g h : Graph)
    → ((s : String) → has_id h s ≡ true → has_id g s ≡ true)
    → All (λ (n : Node). has_id g n.id ≡ true) h
unfolding has_id
has_id-All g [] f = tt
has_id-All g (n ∷ ns) f =
    (f n.id (ground (arith, eq_refl n.id)), has_id-All g ns (λ s m. f s (ground arith)))

pub All-has_id :
    (P : String → Type 0) (g : Graph) (s : String)
    → All (λ (n : Node). P n.id) g
    → has_id g s ≡ true
    → P s
unfolding has_id
All-has_id P [] s h m = cc
All-has_id P (n ∷ g) s h m = elim (Bool-cases (n.id == s)) [
  | inl e ↦ subst P ((eq_iff n.id s).0 e) h.0
  | inr e ↦ All-has_id P g s h.1 (rw e at m)
]

absent-parent_of : (g : Graph) (s : String) → has_id g s ≡ false → parent_of g s ≡ none
unfolding has_id parent_of
absent-parent_of [] s h = refl
absent-parent_of (n ∷ g) s h = ground (arith, absent-parent_of g s)

pub absent-next_of : (g : Graph) (s : String) → has_id g s ≡ false → next_of g s ≡ none
unfolding next_of
absent-next_of g s h = rw (absent-parent_of g s h, next_of) refl
