-- ===== src/Checks/Graph/Cycles/Starts.antt =====
-- A walk of `check_cycles` (checks/graph.py), and what passes from the ids that it meets to the id where it
-- starts.
use mathlib.Core.Path.{subst}
use sesslint.Prelude.{
  ℕ, zero, suc, ◌<◌, String, ◌≡◌, refl, inl, inr, true, Option, none, some, List, [], ◌∷◌, ◌++◌,
  arith, Option-cases, eq_refl, All, All-append, mem_text,
}
use sesslint.Checks.Graph.Occurrence.{Graph, next_of, has_id}
use sesslint.Checks.Graph.Cycles.{gray, black, Colors, color_of, walk, from_node}
use sesslint.Checks.Graph.Cycles.Links.{split_at}
use sesslint.Checks.Graph.Cycles.Complete.{
  whites, whites-gray, walk-white, walk-gray, walk-black, Color-cases, next_of-has_id, gray_black,
}
use sesslint.Checks.Graph.Cycles.Sound.{grays-step}

pub some_inj : (c k : String) → some c ≡ some k → c ≡ k
some_inj c k e = cc

module _ (g : Graph) (P : String → Type 0) (root : (c : String) → next_of g c ≡ none → P c)
    (child : (c p : String) → next_of g c ≡ some p → P p → P c) where
  by_parent : (c : String) → ((p : String) → next_of g c ≡ some p → P p) → P c
  by_parent c later = elim (Option-cases (next_of g c)) [
    | inl n ↦ root c n
    | inr (p, n) ↦ child c p n (later p n)
  ]

  -- What holds of black ids and of the ids of a cycle that the walk runs into, and passes from a parent
  -- to its children, holds where the walk starts.
  pub walk-start :
      (fuel : ℕ) (curr : Option String) (path : List String) (colors : Colors)
      → ((k : String) → color_of colors k ≡ black → P k)
      → ((k : String) → color_of colors k ≡ gray → mem_text k path ≡ true)
      → whites colors g < fuel
      → ((k : String) → curr ≡ some k → has_id g k ≡ true)
      → ((raw : List String)
          → (walk g fuel curr path colors).cycle ≡ some raw
          → (k : String) → mem_text k raw ≡ true
          → P k)
      → (k : String) → curr ≡ some k
      → P k
  walk-start zero curr path colors known grays enough inside met k e = absurd (omega arith)
  walk-start (suc fuel) none path colors known grays enough inside met k e = cc
  walk-start (suc fuel) (some c) path colors known grays enough inside met k e =
      subst P (some_inj c k e) (elim (Color-cases (color_of colors c)) [
        | inl w ↦ by_parent c (
            walk-start fuel (next_of g c) (path ++ c ∷ []) ((c, gray) ∷ colors)
              (λ s b. known s (gray_black g colors c s b)) (grays-step path c colors grays)
              (omega (arith, whites-gray colors c g (inside c refl) w))
              (λ s n. next_of-has_id g c s n)
              (λ raw r. met raw (rw (walk-white g fuel c path colors w) r)))
        | inr (inl w) ↦
            let (ys, p, _) = split_at c path (grays c w) in
            met (from_node c path) (rw (walk-gray g fuel c path colors w) refl) c
              (rw (p, eq_refl c) refl)
        | inr (inr w) ↦ known c w
      ])

  -- And it holds along the path, if it does before.
  pub walk-path :
      (fuel : ℕ) (curr : Option String) (path : List String) (colors : Colors)
      → ((k : String) → color_of colors k ≡ black → P k)
      → ((k : String) → color_of colors k ≡ gray → mem_text k path ≡ true)
      → whites colors g < fuel
      → ((k : String) → curr ≡ some k → has_id g k ≡ true)
      → ((raw : List String)
          → (walk g fuel curr path colors).cycle ≡ some raw
          → (k : String) → mem_text k raw ≡ true
          → P k)
      → (((k : String) → curr ≡ some k → P k) → All P path)
      → All P (walk g fuel curr path colors).path
  walk-path zero curr path colors known grays enough inside met f = absurd (omega arith)
  walk-path (suc fuel) none path colors known grays enough inside met f =
      unfold walk in f (λ k e. cc)
  walk-path (suc fuel) (some c) path colors known grays enough inside met f =
      let here = walk-start (suc fuel) (some c) path colors known grays enough inside met in
      elim (Color-cases (color_of colors c)) [
        | inl w ↦ rw (walk-white g fuel c path colors w) (
            walk-path fuel (next_of g c) (path ++ c ∷ []) ((c, gray) ∷ colors)
              (λ s b. known s (gray_black g colors c s b)) (grays-step path c colors grays)
              (omega (arith, whites-gray colors c g (inside c refl) w))
              (λ s n. next_of-has_id g c s n)
              (λ raw r. met raw (rw (walk-white g fuel c path colors w) r))
              (λ later. All-append P path (c ∷ []) (f here) (here c refl, tt)))
        | inr (inl w) ↦ rw (walk-gray g fuel c path colors w) (f here)
        | inr (inr w) ↦ rw (walk-black g fuel c path colors w) (f here)
      ]
