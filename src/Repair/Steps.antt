-- ===== src/Repair/Steps.antt =====
-- `PlanStep` of repair/planner.py, the registry of repair/registry.py, and `check_preconditions` of
-- repair/preconditions.py over any table of predicates, since the table grows by `register_precondition`.
use sesslint.Prelude.{
  ℕ, String, ◌==◌, Bool, true, false, not, ◌&&◌, ◌||◌, Option, none, some, List, [], ◌∷◌, ◌++◌, any,
  keep, if◌then◌else◌, mem_text,
}
use sesslint.Prelude.Sort.{sort}
use sesslint.Prelude.Text.{le_text}
use sesslint.Values.{Fields}
use sesslint.Session.{SessionEvent}
use sesslint.Finding.{Finding}
use sesslint.Policy.Scope.{AffectedRegion}
use sesslint.Repair.Result.{Result, ok, err, unknown_precondition, duplicate_recipe}

pub record PlanStep : Type 0 where
  pub seq : ℕ
  pub recipe : String
  pub target_finding_fp : String
  pub target_index : Option ℕ
  pub params : Fields
  pub lossy : Bool
  pub loss : List (String × ℕ)
  pub min_policy : String
  pub recipe_version : String

abbrev pub RegionFn : Type 0
RegionFn = PlanStep → List SessionEvent → Option AffectedRegion

-- The function that applies the recipe is not a field here: the planner does not call it.
pub record Recipe : Type 0 where
  pub name : String
  pub handles : List String
  pub preconditions : List String
  pub lossy : Bool
  pub salvage_only : Bool
  pub min_policy : String
  pub version : String
  pub affected_region : Option RegionFn
  pub excludes_execution_dependence : Bool

-- `Recipe.__post_init__`: sorted codes, a salvage policy for lossy or salvage-only recipes, and
-- every lossy recipe is salvage-only.
unfoldable pub normalized : Recipe → Recipe
normalized r = record r {
  handles = sort le_text r.handles;
  min_policy =
      if (r.salvage_only || r.lossy) && r.min_policy == "conservative"
      then "salvage"
      else r.min_policy;
  salvage_only = if r.lossy && not r.salvage_only then true else r.salvage_only;
}

pub record PreconditionContext : Type 0 where
  pub findings : List Finding
  pub events : List SessionEvent
  pub profile : String
  pub source_hash : String
  pub finding : Option Finding
  pub policy : String
  pub acknowledge_side_effects : Bool

-- `PRECONDITION_FUNCS`.
abbrev pub Predicates : Type 0
Predicates = String → Option (PreconditionContext → Bool)

abbrev pub Registry : Type 0
Registry = List Recipe

abbrev pub is_registered : Registry → String → Bool
is_registered registry name = any (λ r. r.name == name) registry

-- The first name that the table does not have.
unfoldable pub missing_precondition : Predicates → List String → Option String
missing_precondition table [] = none
missing_precondition table (p ∷ ps) = elim (table p) [
  | none ↦ some p
  | some fn ↦ missing_precondition table ps
]

-- `register_recipe`: the registry is in registration order.
unfoldable pub register_recipe : Predicates → Registry → Recipe → Result Registry
unfolding missing_precondition
register_recipe table registry recipe =
    if is_registered registry recipe.name
    then err (duplicate_recipe recipe.name)
    else elim (missing_precondition table recipe.preconditions) [
      | some p ↦ err (unknown_precondition p)
      | none ↦ ok (registry ++ recipe ∷ [])
    ]

unfoldable pub recipes_for : Registry → String → List Recipe
recipes_for registry code = keep (λ r. mem_text code r.handles) registry

-- `(True, None)`, or `(False, name)` for the first predicate that fails.
unfoldable pub check_preconditions :
    Predicates → List String → PreconditionContext → Result (Bool × Option String)
check_preconditions table [] ctx = ok (true, none)
check_preconditions table (name ∷ names) ctx =
    let rest = check_preconditions table names ctx in
    elim (table name) [
      | none ↦ err (unknown_precondition name)
      | some fn ↦ if fn ctx then rest else ok (false, some name)
    ]
