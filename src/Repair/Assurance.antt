-- ===== src/Repair/Assurance.antt =====
-- repair/assurance.py: the lattice of assurance levels, the cap that a plan's steps put on a level, and the
-- ceiling by policy. `str.strip`, `str.upper` and `str.lower` are parameters.
use sesslint.Prelude.{
  ap, ◌∙◌, ℕ, ◌≡◌, ◌≤◌, min, refl, ◌⊎◌, inl, inr, String, ◌==◌, true, false, Option, none, some,
  List, [], ◌∷◌, if◌then◌else◌, ltb, any, mem_text, arith, Bool-cases, Option-cases, eq_iff,
}
use sesslint.Repair.Steps.{PlanStep}

-- `_LATTICE_RANK.get(level)`, of `ASSURANCE_LATTICE` in its order.
unfoldable pub lattice_rank : String → Option ℕ
lattice_rank level =
    if level == "unrepairable"
    then some 0
    else if level == "salvaged"
    then some 1
    else if level == "repaired-lossless"
    then some 2
    else if level == "clean"
    then some 3
    else none

-- `cap_assurance` for a plan with its steps; `none` is the `ValueError`.
unfoldable pub cap_assurance : String → List PlanStep → Option String
unfolding lattice_rank
cap_assurance base steps = elim (lattice_rank base) [
  | none ↦ none
  | some base_rank ↦ elim steps [
    | [] ↦ some base
    | s ∷ ss ↦
        if any (λ (t : PlanStep). t.lossy) (s ∷ ss)
        then some (if ltb base_rank 1 then base else "salvaged")
        else some (if ltb base_rank 2 then base else "repaired-lossless")
  ]
]

-- The level that the steps allow: a lossy step allows no more than "salvaged", other steps no more
-- than "repaired-lossless", and no step at all allows any.
abbrev pub allowed_rank : List PlanStep → ℕ
allowed_rank [] = 3
allowed_rank (s ∷ ss) = if any (λ (t : PlanStep). t.lossy) (s ∷ ss) then 1 else 2

rank-le : (base : String) (r : ℕ) → lattice_rank base ≡ some r → r ≤ 3
unfolding lattice_rank
rank-le base r h = ground arith

lower :
    (base name : String) (r k : ℕ)
    → lattice_rank base ≡ some r
    → lattice_rank name ≡ some k
    → lattice_rank (if ltb r k then base else name) ≡ some (min r k)
lower base name r k h n = elim (Bool-cases (ltb r k)) [
  | inl e ↦ rw e (h ∙ ap some (ground arith))
  | inr e ↦ rw e (n ∙ ap some (ground arith))
]

module _ (base : String) (s : PlanStep) (ss : List PlanStep) (r : ℕ)
    (h : lattice_rank base ≡ some r) where
  cap-lossy :
      any (λ (t : PlanStep). t.lossy) (s ∷ ss) ≡ true
      → cap_assurance base (s ∷ ss) ≡ some (if ltb r 1 then base else "salvaged")
  unfolding cap_assurance
  cap-lossy e = rw (h, cap_assurance) (rw e refl)

  cap-lossless :
      any (λ (t : PlanStep). t.lossy) (s ∷ ss) ≡ false
      → cap_assurance base (s ∷ ss) ≡ some (if ltb r 2 then base else "repaired-lossless")
  unfolding cap_assurance
  cap-lossless e = rw (h, cap_assurance) (rw e refl)

-- The cap of a level of the lattice is a level of the lattice, and its rank is the smaller of the
-- level's rank and of the rank that the steps allow.
pub cap_assurance-min :
    (base : String) (steps : List PlanStep) (r : ℕ)
    → lattice_rank base ≡ some r
    → (level : String) × (cap_assurance base steps ≡ some level)
      × (lattice_rank level ≡ some (min r (allowed_rank steps)))
cap_assurance-min base [] r h =
    (base, unfold cap_assurance in ground (arith, h), h ∙ ap some (omega (arith, rank-le base r h)))
cap_assurance-min base (s ∷ ss) r h = elim (Bool-cases (any (λ (t : PlanStep). t.lossy) (s ∷ ss))) [
  | inl e ↦ (
    if ltb r 1 then base else "salvaged",
    cap-lossy base s ss r h e,
    rw e (lower base "salvaged" r 1 h (unfold lattice_rank in refl)),
  )
  | inr e ↦ (
    if ltb r 2 then base else "repaired-lossless",
    cap-lossless base s ss r h e,
    rw e (lower base "repaired-lossless" r 2 h (unfold lattice_rank in refl)),
  )
]

pub record TextOps : Type 0 where
  pub strip : String → String
  pub upper : String → String
  pub lower : String → String

-- The place of an A-level among "A0" to "A4".
unfoldable pub a_rank : String → Option ℕ
a_rank level =
    if level == "A0"
    then some 0
    else if level == "A1"
    then some 1
    else if level == "A2"
    then some 2
    else if level == "A3"
    then some 3
    else if level == "A4"
    then some 4
    else none

-- The row of `ASSURANCE_CEILING_TABLE` for a policy or a pedigree, as the rank of its ceiling.
unfoldable pub ceiling_rank : String → Option ℕ
ceiling_rank policy =
    if mem_text policy ("conservative" ∷ "repaired-lossless" ∷ "clean" ∷ [])
    then some 4
    else if mem_text policy ("salvage" ∷ "salvaged" ∷ [])
    then some 2
    else none

-- The entry of the row with that ceiling for an A-level.
unfoldable pub ceiling_entry : ℕ → String → String
ceiling_entry ceiling level =
    if ltb ceiling 4
    then if level == "A3" then "A2" else if level == "A4" then "A2" else level
    else level

-- `none` is a `ValueError`.
unfoldable pub compute_assurance_ceiling : TextOps → String → String → Option String
unfolding a_rank ceiling_rank ceiling_entry
compute_assurance_ceiling ops revalidation policy =
    let level = ops.upper (ops.strip revalidation) in
    elim (a_rank level) [
      | none ↦ none
      | some r ↦ elim (ceiling_rank (ops.lower (ops.strip policy))) [
        | none ↦ none
        | some ceiling ↦ some (ceiling_entry ceiling level)
      ]
    ]

-- The row of a salvage policy or pedigree, and its entries.
salvage_row :
    (policy : String)
    → mem_text policy ("salvage" ∷ "salvaged" ∷ []) ≡ true
    → ceiling_rank policy ≡ some 2
unfolding ceiling_rank
salvage_row policy h = elim (Bool-cases (policy == "salvage")) [
  | inl e ↦ rw ((eq_iff policy "salvage").0 e) refl
  | inr e ↦
      let named : policy == "salvaged" ≡ true = ground arith in
      rw ((eq_iff policy "salvaged").0 named) refl
]

salvage_high :
    (level : String) → mem_text level ("A3" ∷ "A4" ∷ []) ≡ true → ceiling_entry 2 level ≡ "A2"
unfolding ceiling_entry
salvage_high level h = ground arith

salvage_low :
    (level : String)
    → mem_text level ("A0" ∷ "A1" ∷ "A2" ∷ []) ≡ true
    → ceiling_entry 2 level ≡ level
unfolding ceiling_entry
salvage_low level h = elim (Bool-cases (level == "A0")) [
  | inl e ↦ rw ((eq_iff level "A0").0 e) refl
  | inr e ↦ elim (Bool-cases (level == "A1")) [
    | inl f ↦ rw ((eq_iff level "A1").0 f) refl
    | inr f ↦
        let named : level == "A2" ≡ true = ground arith in rw ((eq_iff level "A2").0 named) refl
  ]
]

module _ (ops : TextOps) (revalidation policy : String) where
  abbrev given_level : String
  given_level = ops.upper (ops.strip revalidation)

  abbrev given_policy : String
  given_policy = ops.lower (ops.strip policy)

  ceiling-none :
      a_rank given_level ≡ none ⊎ ceiling_rank given_policy ≡ none
      → compute_assurance_ceiling ops revalidation policy ≡ none
  unfolding compute_assurance_ceiling
  ceiling-none (inl h) = rw (h, compute_assurance_ceiling) refl
  ceiling-none (inr k) = elim (Option-cases (a_rank given_level)) [
    | inl h ↦ rw (h, compute_assurance_ceiling) refl
    | inr (r, h) ↦ rw (h, compute_assurance_ceiling) (rw (k, ceiling_rank) refl)
  ]

  ceiling-some :
      (c : ℕ)
      → mem_text given_level ("A0" ∷ "A1" ∷ "A2" ∷ "A3" ∷ "A4" ∷ []) ≡ true
      → ceiling_rank given_policy ≡ some c
      → compute_assurance_ceiling ops revalidation policy ≡ some (ceiling_entry c given_level)
  unfolding compute_assurance_ceiling
  ceiling-some c known k = elim (Option-cases (a_rank given_level)) [
    | inl h ↦ absurd (a_rank-none given_level known h)
    | inr (r, h) ↦ rw (h, compute_assurance_ceiling) (rw (k, ceiling_rank) refl)
  ]
    where
      a_rank-none :
          (level : String)
          → mem_text level ("A0" ∷ "A1" ∷ "A2" ∷ "A3" ∷ "A4" ∷ []) ≡ true
          → a_rank level ≡ none
          → ⊥
      a_rank-none level known h = unfold a_rank in ground (arith, h)

  -- The ceiling of an A-level ("A0" to "A4"): under a conservative or lossless policy, and for a clean
  -- pedigree, the level itself; under a salvage policy or pedigree "A2" for "A3" and "A4", and the level
  -- itself for the others; an error for any other level and any other policy.
  pub compute_assurance_ceiling_lem :
      (mem_text given_level ("A0" ∷ "A1" ∷ "A2" ∷ "A3" ∷ "A4" ∷ []) ≡ true
        → mem_text given_policy ("conservative" ∷ "repaired-lossless" ∷ "clean" ∷ []) ≡ true
        → compute_assurance_ceiling ops revalidation policy ≡ some given_level)
      × (mem_text given_level ("A3" ∷ "A4" ∷ []) ≡ true
          → mem_text given_policy ("salvage" ∷ "salvaged" ∷ []) ≡ true
          → compute_assurance_ceiling ops revalidation policy ≡ some "A2")
      × (mem_text given_level ("A0" ∷ "A1" ∷ "A2" ∷ []) ≡ true
          → mem_text given_policy ("salvage" ∷ "salvaged" ∷ []) ≡ true
          → compute_assurance_ceiling ops revalidation policy ≡ some given_level)
      × (mem_text given_level ("A0" ∷ "A1" ∷ "A2" ∷ "A3" ∷ "A4" ∷ []) ≡ false
          → compute_assurance_ceiling ops revalidation policy ≡ none)
      × (mem_text given_policy
              ("conservative" ∷ "repaired-lossless" ∷ "clean" ∷ "salvage" ∷ "salvaged" ∷ [])
            ≡ false
          → compute_assurance_ceiling ops revalidation policy ≡ none)
  unfolding ceiling_entry ceiling_rank
  compute_assurance_ceiling_lem = (
    λ known high. ceiling-some 4 known (rw high refl),
    λ known low.
        ceiling-some 2 (ground arith) (salvage_row given_policy low)
        ∙ ap some (salvage_high given_level known),
    λ known low.
        ceiling-some 2 (ground arith) (salvage_row given_policy low)
        ∙ ap some (salvage_low given_level known),
    λ unknown. ceiling-none (inl (unfold a_rank in ground arith)),
    λ unknown. ceiling-none (inr (ground arith)),
  )
