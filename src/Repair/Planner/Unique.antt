-- ===== src/Repair/Planner/Unique.antt =====
-- The findings that a plan is about: one for each fingerprint, in the order of the fingerprints.
use sesslint.Prelude.{
  ◌≡◌, refl, sym, String, ◌==◌, true, false, List, [], ◌∷◌, map, Bool-cases, inl, inr, mem_text,
  eq_iff, eq_refl, arith,
}
use sesslint.Prelude.Sort.{sort, sort-perm, IsSorted, sort-IsSorted}
use sesslint.Prelude.Text.{le_text-total}
use mathlib.Core.Path.{subst}
use mathlib.Core.Logic.{◌↔◌}
use mathlib.Core.Logic.Or
use mathlib.Core.HLevel.{⊥_prop}
use mathlib.Core.List.{
  Mem, Mem-prop, eq-or-mem_of_mem-cons, mem-cons_self, mem-cons_of_mem, not-mem-nil, Nodup, Perm,
  Nodup-nil, Nodup-cons,
}
use mathlib.Core.List.Perm
use sesslint.Finding.{Finding}
use sesslint.Repair.Planner.Plan.{first_by_fingerprint, unique_findings, le_fingerprint}

abbrev fingerprints : List Finding → List String
fingerprints fs = map (λ f. f.fingerprint) fs

-- Fingerprints that were seen do not come out.
unseen :
    (seen : List String) (fs : List Finding) (s : String)
    → mem_text s seen ≡ true
    → ¬ Mem s (fingerprints (first_by_fingerprint seen fs))
unfolding first_by_fingerprint
unseen seen [] s h m = not-mem-nil m
unseen seen (f ∷ fs) s h m = elim (Bool-cases (mem_text f.fingerprint seen)) [
  | inl e ↦ unseen seen fs s h (rw e at m)
  | inr e ↦
      Or.elim ⊥_prop (eq-or-mem_of_mem-cons (rw e at m)) (λ same. ground arith)
        (λ later. unseen (f.fingerprint ∷ seen) fs s (ground arith) later)
]

first_by_fingerprint-Nodup :
    (seen : List String) (fs : List Finding) → Nodup (fingerprints (first_by_fingerprint seen fs))
unfolding first_by_fingerprint
first_by_fingerprint-Nodup seen [] = Nodup-nil
first_by_fingerprint-Nodup seen (f ∷ fs) = elim (Bool-cases (mem_text f.fingerprint seen)) [
  | inl e ↦ rw e (first_by_fingerprint-Nodup seen fs)
  | inr e ↦ rw e (
      Nodup-cons.1 (
        unseen (f.fingerprint ∷ seen) fs f.fingerprint (ground (arith, eq_refl f.fingerprint)),
        first_by_fingerprint-Nodup (f.fingerprint ∷ seen) fs,
      ))
]

first_by_fingerprint-sound :
    (seen : List String) (fs : List Finding) (s : String)
    → Mem s (fingerprints (first_by_fingerprint seen fs))
    → Mem s (fingerprints fs)
unfolding first_by_fingerprint
first_by_fingerprint-sound seen [] s m = m
first_by_fingerprint-sound seen (f ∷ fs) s m = elim (Bool-cases (mem_text f.fingerprint seen)) [
  | inl e ↦ mem-cons_of_mem f.fingerprint (first_by_fingerprint-sound seen fs s (rw e at m))
  | inr e ↦
      Or.elim Mem-prop (eq-or-mem_of_mem-cons (rw e at m))
        (λ same. subst (λ t. Mem t (fingerprints (f ∷ fs))) (sym same) mem-cons_self)
        (λ later.
          mem-cons_of_mem f.fingerprint
            (first_by_fingerprint-sound (f.fingerprint ∷ seen) fs s later))
]

first_by_fingerprint-complete :
    (seen : List String) (fs : List Finding) (s : String)
    → mem_text s seen ≡ false
    → Mem s (fingerprints fs)
    → Mem s (fingerprints (first_by_fingerprint seen fs))
unfolding first_by_fingerprint
first_by_fingerprint-complete seen [] s h m = m
first_by_fingerprint-complete seen (f ∷ fs) s h m =
    elim (Bool-cases (mem_text f.fingerprint seen)) [
      | inl e ↦ rw e (
          first_by_fingerprint-complete seen fs s h (
            Or.elim Mem-prop (eq-or-mem_of_mem-cons m) (λ same. absurd (ground arith))
              (λ later. later)))
      | inr e ↦
          let rest = fingerprints (first_by_fingerprint (f.fingerprint ∷ seen) fs) in
          let found : Mem s (f.fingerprint ∷ rest) = elim (Bool-cases (s == f.fingerprint)) [
            | inl q ↦
                subst (λ t. Mem t (f.fingerprint ∷ rest)) (sym ((eq_iff s f.fingerprint).0 q))
                  mem-cons_self
            | inr q ↦ mem-cons_of_mem f.fingerprint (
                first_by_fingerprint-complete (f.fingerprint ∷ seen) fs s (ground arith) (
                  Or.elim Mem-prop (eq-or-mem_of_mem-cons m)
                    (λ same. absurd (ground (arith, eq_refl f.fingerprint))) (λ later. later)))
          ] in
          rw e found
    ]

-- The unique findings stand in the order of their fingerprints; no fingerprint stands twice among them; and
-- the fingerprints are those of the given findings.
pub unique_findings-Nodup :
    (fs : List Finding)
    → IsSorted le_fingerprint (unique_findings fs)
      × Nodup (map (λ f. f.fingerprint) (unique_findings fs))
      × ((s : String)
          → Mem s (map (λ f. f.fingerprint) (unique_findings fs))
            ↔ Mem s (map (λ f. f.fingerprint) fs))
unfolding unique_findings
unique_findings-Nodup fs = (
  sort-IsSorted le_fingerprint (λ f g. le_text-total f.fingerprint g.fingerprint) _,
  Perm.nodup (Perm.symm same) (first_by_fingerprint-Nodup [] fs),
  λ s. (
    λ m. first_by_fingerprint-sound [] fs s ((Perm.mem_iff same).0 m),
    λ m. (Perm.mem_iff same).1 (first_by_fingerprint-complete [] fs s refl m),
  ),
)
  where
    same :
        Perm
          (fingerprints (sort le_fingerprint (first_by_fingerprint [] fs)))
          (fingerprints (first_by_fingerprint [] fs))
    same = Perm.map (λ f. f.fingerprint) (sort-perm le_fingerprint (first_by_fingerprint [] fs))
