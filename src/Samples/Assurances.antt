-- ===== src/Samples/Assurances.antt =====
-- Vetting a plan, and the assurance levels, at work.
use sesslint.Prelude.{mem_text, true, false}
use sesslint.Prelude.{min, String, ◌≡◌, ◌↔◌, ◌⊎◌, refl, false, none, some, [], ◌∷◌, map}
use sesslint.Prelude.Sort.{sort}
use sesslint.Values.{Fields, get, end}
use sesslint.Session.{str_of}
use sesslint.Repair.Result.{ok}
use sesslint.Repair.Planner.Data.{RepairPlan}
use sesslint.Repair.Planner.Plan.{plan}
use sesslint.Repair.Assurance.{
  TextOps, lattice_rank, cap_assurance, allowed_rank, cap_assurance-min, compute_assurance_ceiling,
  compute_assurance_ceiling_lem,
}
use sesslint.Repair.Vetting.{vet_plan, step_identity, request_for, le_seq}
use sesslint.Repair.Vetting.Subsequence.{Within, vet_plan_iff}
use sesslint.Samples.Data.{host, env, repeated, step_at, finding}

abbrev dumps : Fields → String
dumps body = str_of host (get body "recipe")

abbrev supplied : RepairPlan
supplied = record {
  body = record {
    source_hash = "hash";
    profile = "default";
    steps = step_at "identical-duplicate-collapse" (some 0) end ∷ [];
    blocked = [];
    loss_accounting = record { preview = []; total_lost = 0; total_kept = 4 };
    policy = "conservative";
  };
  fingerprint = "plan";
}

vet_example :
    (vet_plan env dumps supplied (finding "SL003" "f1" ∷ []) repeated "file" false "canonical"
      ≡ none)
    ↔ (((supplied.source_hash ≡ "file") ⊎ (supplied.source_hash ≡ env.events_digest repeated))
        × ((expected : RepairPlan) × (plan env
                (request_for supplied false "canonical")
                (finding "SL003" "f1" ∷ [])
                repeated
              ≡ ok expected)
            × Within
                (map (step_identity env dumps) (sort le_seq supplied.steps))
                (map (step_identity env dumps) expected.steps)))
vet_example =
    vet_plan_iff env dumps supplied (finding "SL003" "f1" ∷ []) repeated "file" false "canonical"

clean_rank : lattice_rank "clean" ≡ some 3
unfolding lattice_rank
clean_rank = refl

cap_example :
    (level : String) × (cap_assurance "clean" (step_at "seq-renumber" none end ∷ []) ≡ some level)
    × (lattice_rank level ≡ some (min 3 (allowed_rank (step_at "seq-renumber" none end ∷ []))))
cap_example = cap_assurance-min "clean" (step_at "seq-renumber" none end ∷ []) 3 clean_rank

abbrev ops : TextOps
ops = record { strip = λ s. s; upper = λ s. s; lower = λ s. s }

ceiling_example :
    (mem_text "A4" ("A0" ∷ "A1" ∷ "A2" ∷ "A3" ∷ "A4" ∷ []) ≡ true
      → mem_text "salvage" ("conservative" ∷ "repaired-lossless" ∷ "clean" ∷ []) ≡ true
      → compute_assurance_ceiling ops "A4" "salvage" ≡ some "A4")
    × (mem_text "A4" ("A3" ∷ "A4" ∷ []) ≡ true
        → mem_text "salvage" ("salvage" ∷ "salvaged" ∷ []) ≡ true
        → compute_assurance_ceiling ops "A4" "salvage" ≡ some "A2")
    × (mem_text "A4" ("A0" ∷ "A1" ∷ "A2" ∷ []) ≡ true
        → mem_text "salvage" ("salvage" ∷ "salvaged" ∷ []) ≡ true
        → compute_assurance_ceiling ops "A4" "salvage" ≡ some "A4")
    × (mem_text "A4" ("A0" ∷ "A1" ∷ "A2" ∷ "A3" ∷ "A4" ∷ []) ≡ false
        → compute_assurance_ceiling ops "A4" "salvage" ≡ none)
    × (mem_text "salvage"
            ("conservative" ∷ "repaired-lossless" ∷ "clean" ∷ "salvage" ∷ "salvaged" ∷ [])
          ≡ false
        → compute_assurance_ceiling ops "A4" "salvage" ≡ none)
ceiling_example = compute_assurance_ceiling_lem ops "A4" "salvage"
