-- ===== src/Samples/Data.antt =====
-- A session with a call, its result and a copy of the result, and what the modelled code needs around it.
use sesslint.Prelude.{ℕ, String, false, Option, none, some, List, [], ◌∷◌, ℤ, pos}
use sesslint.Values.{Fields, end, field, int}
use sesslint.Session.{SessionEvent, Host}
use sesslint.Finding.{Finding, error, deterministic}
use sesslint.Policy.Scope.{AffectedRegion}
use sesslint.Repair.Steps.{PlanStep, Recipe, RegionFn}
use sesslint.Repair.Planner.Data.{Env, Request}

abbrev pub host : Host
host = record { text_of = λ v. "value"; payload_digest = λ p. "digest"; float_int = λ s. none }

abbrev pub event : String → String → Option String → SessionEvent
event id kind corr = record {
  id = id;
  parent_id = none;
  seq = pos 0;
  ts = "";
  actor = "agent";
  kind = kind;
  payload = end;
  content_hash = some kind;
  correlation_id = corr;
  branch_id = none;
  interaction_id = none;
  agent_id = none;
  execution_state = some "completed";
  source_line = none;
  source_record_hash = none;
  original_id = none;
  source_adapter = none;
  source_location = none;
  side_effects = some "none";
  extra_fields = end;
}

abbrev pub question : SessionEvent
question = event "m1" "message" none

abbrev pub call : SessionEvent
call = event "c1" "tool_call" (some "k")

abbrev pub answer : SessionEvent
answer = event "r1" "tool_result" (some "k")

abbrev pub copy : SessionEvent
copy = event "r2" "tool_result" (some "k")

abbrev pub boundary : SessionEvent
boundary = event "b1" "compaction_boundary" none

-- A message stands twice, then a call and its result.
abbrev pub repeated : List SessionEvent
repeated = question ∷ question ∷ call ∷ answer ∷ []

-- The result stands twice.
abbrev pub answered_twice : List SessionEvent
answered_twice = question ∷ call ∷ answer ∷ copy ∷ []

-- A boundary stands between a call and its result.
abbrev pub split : List SessionEvent
split = question ∷ call ∷ boundary ∷ answer ∷ []

abbrev pub step_at : String → Option ℕ → Fields → PlanStep
step_at recipe target params = record {
  seq = 0;
  recipe = recipe;
  target_finding_fp = "f1";
  target_index = target;
  params = params;
  lossy = false;
  loss = [];
  min_policy = "conservative";
  recipe_version = "1.0.0";
}

abbrev pub region_at : ℤ → AffectedRegion
region_at z = record { indices = z ∷ []; ids = []; ranges = []; unproven = false }

abbrev pub region_fn : RegionFn
region_fn step evs = some (region_at (pos 0))

abbrev pub finding : String → String → Finding
finding code fp = record {
  code = code;
  severity = error;
  repairability = deterministic;
  message = "";
  source = record { path = "s.jsonl"; line = none; record_id = none };
  related_ids = [];
  fingerprint = fp;
  evidence = some (field "index" (int (pos 0)) end);
}

abbrev pub recipe : Recipe
recipe = record {
  name = "identical-duplicate-collapse";
  handles = "SL003" ∷ [];
  preconditions = [];
  lossy = false;
  salvage_only = false;
  min_policy = "conservative";
  version = "1.0.0";
  affected_region = some region_fn;
  excludes_execution_dependence = false;
}

abbrev pub env : Env
env = record {
  host = host;
  predicates = λ name. none;
  registry = recipe ∷ [];
  events_digest = λ evs. "hash";
  plan_digest = λ body. "plan";
}

abbrev pub request : Request
request = record {
  policy = "conservative";
  acknowledged = false;
  profile = "default";
  source_hash = none;
  input_format = some "canonical";
}

-- Two findings, one of them twice, and one without a recipe.
abbrev pub findings : List Finding
findings = finding "SL003" "f1" ∷ finding "SL003" "f1" ∷ finding "SL900" "f2" ∷ []

-- An event with a parent.
abbrev pub child_event : String → String → String → SessionEvent
child_event id kind parent = record (event id kind none) { parent_id = some parent }

-- A chain of three events.
abbrev pub chain : List SessionEvent
chain =
    event "m1" "message" none
    ∷ child_event "c1" "tool_call" "m1"
    ∷ child_event "r1" "tool_result" "c1"
    ∷ []

-- Two events that are each other's parents, and one whose parent is not there.
abbrev pub tangled : List SessionEvent
tangled =
    child_event "x2" "message" "x1"
    ∷ child_event "x1" "message" "x2"
    ∷ child_event "o1" "message" "gone"
    ∷ []
