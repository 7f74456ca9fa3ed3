-- ===== src/Repair/Planner/Data.antt =====
-- The data of repair/planner.py: `Blocked`, `Loss`, `RepairPlan`, and the tuple of a candidate step.
use sesslint.Prelude.{ℕ, String, Bool, Option, List, [], ◌∷◌}
use sesslint.Values.{Fields}
use sesslint.Session.{SessionEvent, Host}
use sesslint.Repair.Steps.{PlanStep, Registry, Predicates}

pub record Blocked : Type 0 where
  pub finding_fp : String
  pub code : String
  pub reason : String

pub record Loss : Type 0 where
  pub preview : List (String × ℕ)
  pub total_lost : ℕ
  pub total_kept : ℕ

-- The fields of a plan but its fingerprint; the version is a constant.
pub record PlanBody : Type 0 where
  pub source_hash : String
  pub profile : String
  pub steps : List PlanStep
  pub blocked : List Blocked
  pub loss_accounting : Loss
  pub policy : String

pub record RepairPlan : Type 0 where
  pub body : PlanBody
  pub open body use *
  pub fingerprint : String

-- The tuple that the planner keeps for a step before numbering.
pub record Candidate : Type 0 where
  pub target_index : Option ℕ
  pub recipe : String
  pub finding_fp : String
  pub code : String
  pub params : Fields
  pub lossy : Bool
  pub loss : List (String × ℕ)
  pub min_policy : String
  pub version : String

-- What the planner calls or reads and does not contain: the interpreter, the table of predicates,
-- the registry that the recipe modules fill, and the SHA-256 digests of the events and of a plan.
pub record Env : Type 0 where
  pub host : Host
  pub predicates : Predicates
  pub registry : Registry
  pub events_digest : List SessionEvent → String
  pub plan_digest : PlanBody → String

-- The arguments of `plan`, and the hash of its source.
pub record Request : Type 0 where
  pub policy : String
  pub acknowledged : Bool
  pub profile : String
  pub source_hash : Option String
  pub input_format : Option String

abbrev pub max_steps : ℕ
max_steps = 256

abbrev pub event_drop_recipes : List String
event_drop_recipes =
    "duplicate-projection-removal" ∷ "identical-duplicate-collapse" ∷ "identical-duplicate-drop"
    ∷ "orphan-result-drop" ∷ "side-effect-unknown-truncate" ∷ "terminal-suffix-discard"
    ∷ "torn-compaction-project" ∷ "torn-terminal-record-discard" ∷ "unresolvable-branch-amputate"
    ∷ []

-- Every loss class that a step of `plan` can have is allowed, so the check of the classes never fails
-- and is not repeated in the model.
abbrev pub allowed_loss_classes : List String
allowed_loss_classes =
    "amputated-branch" ∷ "discarded-suffix" ∷ "none" ∷ "orphan-result" ∷ "projected-orphans"
    ∷ "torn-record" ∷ "truncated-projection" ∷ "truncated-side-effects" ∷ []

abbrev pub non_event_loss_classes : List String
non_event_loss_classes = "torn-record" ∷ []
