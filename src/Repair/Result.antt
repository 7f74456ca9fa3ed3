-- ===== src/Repair/Result.antt =====
-- Errors of the repair package as values: each constructor is one `raise`.
use sesslint.Prelude.{ℕ, ℤ, ◌≡◌, refl, String}

-- The reasons of `PreconditionFailed`, one for each `raise` of the recipes.
pub data Refused : Type 0 where
  missing_cut empties_session cut_past_end : Refused
  checkpoint_in_suffix : ℕ → Refused
  too_few_events target_out_of_bounds kind_mismatch boundary_kind content_differs no_pair : Refused
  missing_correlation not_one_pair boundary_at_endpoint not_one_boundary : Refused
  too_few_results : Refused
  invalid_target missing_parent_id no_candidate ambiguous_candidates empty_candidate : Refused
  wrong_variant missing_indexes too_few_indexes index_out_of_bounds id_drift : Refused

pub data RepairError : Type 0 where
  invalid_policy : String → RepairError
  unknown_precondition : String → RepairError
  duplicate_recipe : String → RepairError
  type_error : RepairError
  lossy_conservative_step : String → RepairError
  precondition_failed : Refused → RepairError
  reserved_field : RepairError
  duplicated_event : ℤ → RepairError
  removed_target : ℕ → String → ℕ → RepairError

-- A value, or the error that was raised.
pub data Result {ℓ} (A : Type ℓ) : Type ℓ where
  err : RepairError → Result A
  ok : A → Result A

-- The next part runs on a value, and an error ends the whole.
infixl 5 ◌>>=◌
abbrev pub ◌>>=◌ {ℓ κ} : {A : Type ℓ} {B : Type κ} → Result A → (A → Result B) → Result B
err reason >>= next = err reason
ok value >>= next = next value

-- Inversion of a bind that succeeded.
pub >>=-eq-ok {ℓ κ} :
    {A : Type ℓ} {B : Type κ} (first : Result A) (next : A → Result B) {out : B}
    → (first >>= next) ≡ ok out
    → (value : A) × (first ≡ ok value) × (next value ≡ ok out)
>>=-eq-ok (err reason) next made = cc
>>=-eq-ok (ok value) next made = (value, refl, made)
