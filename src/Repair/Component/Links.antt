-- ===== src/Repair/Component/Links.antt =====
-- The links of the events of a session by position, against the lists of neighbours that
-- `_find_component_indices` of repair/preconditions.py builds.
use sesslint.Prelude.{
  ℕ, suc, ◌+◌, ◌<◌, ◌≡◌, refl, sym, ap, ◌∙◌, ◌⊎◌, inl, inr, String, At, At-lt_length, Bool, true,
  false, ◌&&◌, ◌||◌, Option, none, some, List, [], ◌∷◌, ◌++◌, length, if◌then◌else◌, mem_ℕ, eqb,
  eqb_iff, arith, Option-cases, or-true,
}
use mathlib.Core.Path.{subst}
use sesslint.Session.{SessionEvent}
use sesslint.Repair.Component.{last_index, parent_index, links_from, neighbours}
use sesslint.Repair.Component.Enqueue.{Below}

-- A link between positions: one event is the other's parent, by the dictionary of ids.
pub data Link (all evs : List SessionEvent) (i : ℕ) : ℕ → ℕ → Type 0 where
  to_parent :
      {k j : ℕ} (ev : SessionEvent)
      → At i evs k ev
      → parent_index all ev ≡ some j
      → Link all evs i k j
  to_child :
      {k j : ℕ} (ev : SessionEvent)
      → At i evs j ev
      → parent_index all ev ≡ some k
      → Link all evs i k j

Link-cons :
    (all : List SessionEvent) (ev : SessionEvent) (evs : List SessionEvent) (i k j : ℕ)
    → Link all evs (suc i) k j
    → Link all (ev ∷ evs) i k j
Link-cons all ev evs i k j (Link.to_parent x a p) = Link.to_parent x (inr a) p
Link-cons all ev evs i k j (Link.to_child x a p) = Link.to_child x (inr a) p

mem_optional :
    (a b : Bool) (p i : ℕ) (xs : List ℕ) (j : ℕ)
    → mem_ℕ j ((if a then p ∷ [] else []) ++ (if b then i ∷ [] else []) ++ xs)
      ≡ (a && eqb j p || (b && eqb j i || mem_ℕ j xs))
mem_optional true true p i xs j = ground arith
mem_optional true false p i xs j = ground arith
mem_optional false true p i xs j = ground arith
mem_optional false false p i xs j = refl

-- The neighbours by a list of links with one more in front.
mem-neighbours_cons :
    (i p : ℕ) (ls : List (ℕ × ℕ)) (k j : ℕ)
    → mem_ℕ j (neighbours ((i, p) ∷ ls) k)
      ≡ (eqb i k && eqb j p || (eqb p k && eqb j i || mem_ℕ j (neighbours ls k)))
unfolding neighbours
mem-neighbours_cons i p ls k j = mem_optional (eqb i k) (eqb p k) p i (neighbours ls k) j

-- The neighbours by the links of events with one more in front.
adds : Option ℕ → ℕ → ℕ → ℕ → Bool
adds none i k j = false
adds (some p) i k j = eqb i k && eqb j p || eqb p k && eqb j i

mem-neighbours :
    (all : List SessionEvent) (i : ℕ) (ev : SessionEvent) (evs : List SessionEvent) (k j : ℕ)
    → mem_ℕ j (neighbours (links_from all i (ev ∷ evs)) k)
      ≡ (adds (parent_index all ev) i k j || mem_ℕ j (neighbours (links_from all (suc i) evs) k))
unfolding links_from adds
mem-neighbours all i ev evs k j = elim (Option-cases (parent_index all ev)) [
  | inl e ↦ rw (e, links_from) refl
  | inr (p, e) ↦
      rw (e, links_from) (ground (arith, mem-neighbours_cons i p (links_from all (suc i) evs) k j))
]

adds-cases :
    (o : Option ℕ) (i k j : ℕ)
    → adds o i k j ≡ true
    → ((i ≡ k) × (o ≡ some j)) ⊎ ((i ≡ j) × (o ≡ some k))
unfolding adds
adds-cases none i k j h = cc
adds-cases (some p) i k j h = elim (or-true (eqb i k && eqb j p) _ h) [
  | inl a ↦ inl (ground arith, ground arith)
  | inr b ↦ inr (ground arith, ground arith)
]

adds-up : (o : Option ℕ) (i j : ℕ) → o ≡ some j → adds o i i j ≡ true
unfolding adds
adds-up none i j h = cc
adds-up (some p) i j h = ground arith

adds-down : (o : Option ℕ) (i k : ℕ) → o ≡ some k → adds o i k i ≡ true
unfolding adds
adds-down none i k h = cc
adds-down (some p) i k h = ground arith

pub neighbours-Link :
    (all : List SessionEvent) (i : ℕ) (evs : List SessionEvent) (k j : ℕ)
    → mem_ℕ j (neighbours (links_from all i evs) k) ≡ true
    → Link all evs i k j
neighbours-Link all i [] k j h = absurd (unfold links_from neighbours in cc)
neighbours-Link all i (ev ∷ evs) k j h =
    elim (or-true _ _ (sym (mem-neighbours all i ev evs k j) ∙ h)) [
      | inl a ↦ elim (adds-cases (parent_index all ev) i k j a) [
        | inl (p, q) ↦ Link.to_parent ev (inl (p, refl)) q
        | inr (p, q) ↦ Link.to_child ev (inl (p, refl)) q
      ]
      | inr b ↦ Link-cons all ev evs i k j (neighbours-Link all (suc i) evs k j b)
    ]

pub Link-neighbours :
    (all : List SessionEvent) (i : ℕ) (evs : List SessionEvent) (k j : ℕ)
    → Link all evs i k j
    → mem_ℕ j (neighbours (links_from all i evs) k) ≡ true
Link-neighbours all i [] k j (Link.to_parent x a p) = elim a [ ]
Link-neighbours all i [] k j (Link.to_child x a p) = elim a [ ]
Link-neighbours all i (ev ∷ evs) k j (Link.to_parent x (inl (a, b)) p) =
    subst (λ w. mem_ℕ j (neighbours (links_from all i (ev ∷ evs)) w) ≡ true) a
      (mem-neighbours all i ev evs i j
        ∙ rw (adds-up (parent_index all ev) i j (ap (parent_index all) b ∙ p)) refl)
Link-neighbours all i (ev ∷ evs) k j (Link.to_parent x (inr a) p) = ground (
  arith,
  mem-neighbours all i ev evs k j,
  Link-neighbours all (suc i) evs k j (Link.to_parent x a p),
)
Link-neighbours all i (ev ∷ evs) k j (Link.to_child x (inl (a, b)) p) =
    subst (λ w. mem_ℕ w (neighbours (links_from all i (ev ∷ evs)) k) ≡ true) a
      (mem-neighbours all i ev evs k i
        ∙ rw (adds-down (parent_index all ev) i k (ap (parent_index all) b ∙ p)) refl)
Link-neighbours all i (ev ∷ evs) k j (Link.to_child x (inr a) p) = ground (
  arith,
  mem-neighbours all i ev evs k j,
  Link-neighbours all (suc i) evs k j (Link.to_child x a p),
)

last_index-lt :
    (s : String) (i : ℕ) (evs : List SessionEvent) (k : ℕ)
    → last_index s i evs ≡ some k
    → k < i + length evs
unfolding last_index
last_index-lt s i [] k h = cc
last_index-lt s i (ev ∷ evs) k h = elim (Option-cases (last_index s (suc i) evs)) [
  | inl e ↦ ground (arith)
  | inr (p, e) ↦ ground (arith, last_index-lt s (suc i) evs p e)
]

parent_index-lt :
    (evs : List SessionEvent) (ev : SessionEvent) (k : ℕ)
    → parent_index evs ev ≡ some k
    → k < length evs
unfolding parent_index
parent_index-lt evs ev k h = elim (Option-cases ev.parent_id) [
  | inl e ↦ cc (rw e at h)
  | inr (p, e) ↦ omega (arith, last_index-lt p 0 evs k (rw e at h))
]

pub Below-of : (n : ℕ) (ks : List ℕ) → ((j : ℕ) → mem_ℕ j ks ≡ true → j < n) → Below n ks
Below-of n [] h = tt
Below-of n (k ∷ ks) h =
    (h k (ground (arith, eqb_iff k k)), Below-of n ks (λ j m. h j (ground arith)))

pub Link-lt : (evs : List SessionEvent) (k j : ℕ) → Link evs evs 0 k j → j < length evs
Link-lt evs k j (Link.to_parent ev a p) = parent_index-lt evs ev j p
Link-lt evs k j (Link.to_child ev a p) = omega (arith, At-lt_length 0 evs j ev a)
