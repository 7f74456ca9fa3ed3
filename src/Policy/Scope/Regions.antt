-- ===== src/Policy/Scope/Regions.antt =====
-- Which positions a region covers: `all_indices` against the meaning of its indices and ranges.
use sesslint.Prelude.{
  ℕ, zero, suc, ◌+◌, ◌-◌, ◌≡◌, refl, Bool, false, ◌&&◌, ◌||◌, some, List, [], ◌∷◌, ◌++◌, arith, ℤ,
  pos, ltb, leb, pos_part, neg_part, ◌+ℤ◌, clamp_zero,
}
use sesslint.Policy.Scope.{
  AffectedRegion, mem_ℤ, span, stop_within, range_indices, ranges_indices, all_indices,
}

abbrev pub leb_ℤ : ℤ → ℤ → Bool
leb_ℤ a b = leb (pos_part a + neg_part b) (pos_part b + neg_part a)

-- The position lies between the ends of one of the ranges.
abbrev pub in_ranges : ℕ → List (ℤ × ℤ) → Bool
in_ranges j [] = false
in_ranges j ((start, end) ∷ rs) = leb_ℤ start (pos j) && leb_ℤ (pos j) end || in_ranges j rs

-- The position is named by the region, or lies in one of its ranges.
abbrev pub in_region : AffectedRegion → ℕ → Bool
in_region region j = mem_ℤ (pos j) region.indices || in_ranges j region.ranges

mem_ℤ-append : (z : ℤ) (xs ys : List ℤ) → mem_ℤ z (xs ++ ys) ≡ (mem_ℤ z xs || mem_ℤ z ys)
mem_ℤ-append z [] ys = refl
mem_ℤ-append z (x ∷ xs) ys = ground (arith, mem_ℤ-append z xs ys)

next_pos : (s : ℕ) → pos s +ℤ pos 1 ≡ pos (s + 1)
next_pos s = ground arith

mem_ℤ-span : (j s n : ℕ) → mem_ℤ (pos j) (span (pos s) n) ≡ (leb s j && ltb j (s + n))
unfolding span
mem_ℤ-span j s zero = ground arith
mem_ℤ-span j s (suc n) = rw (next_pos s) (ground (arith, mem_ℤ-span j (s + 1) n))

mem_ℤ-range :
    (j n : ℕ) (start end : ℤ)
    → mem_ℤ (pos j) (range_indices (some n) (start, end))
      ≡ (ltb j n && (leb_ℤ start (pos j) && leb_ℤ (pos j) end))
unfolding range_indices
mem_ℤ-range j n start end =
    ground (arith, mem_ℤ-span j (clamp_zero start) (stop_within n end - clamp_zero start))

mem_ℤ-ranges :
    (j n : ℕ) (rs : List (ℤ × ℤ))
    → mem_ℤ (pos j) (ranges_indices (some n) rs) ≡ (ltb j n && in_ranges j rs)
unfolding ranges_indices
mem_ℤ-ranges j n [] = ground arith
mem_ℤ-ranges j n ((start, end) ∷ rs) = ground (
  arith,
  mem_ℤ-append (pos j) (range_indices (some n) (start, end)) (ranges_indices (some n) rs),
  mem_ℤ-range j n start end,
  mem_ℤ-ranges j n rs,
)

-- `all_indices` with the session's length has exactly the named positions, and those positions of
-- the session that lie in a range.
pub mem_ℤ-all_indices :
    (region : AffectedRegion) (n j : ℕ)
    → mem_ℤ (pos j) (all_indices region (some n))
      ≡ (mem_ℤ (pos j) region.indices || ltb j n && in_ranges j region.ranges)
unfolding all_indices
mem_ℤ-all_indices region n j = ground (
  arith,
  mem_ℤ-append (pos j) region.indices (ranges_indices (some n) region.ranges),
  mem_ℤ-ranges j n region.ranges,
)
