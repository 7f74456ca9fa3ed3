-- ===== src/Lib.antt =====
-- sesslint: the decision logic of automated repair, the graph checks and the structural diff,
-- modelled and proved.
--
-- sesslint checks agent session logs, and plans repairs of what the checks found. A wrong repair of a
-- session whose tool calls may have run is worse than none, so the program proves for each step
-- that it touches no event of unknown execution. This library models that chain, from the events to the
-- plan, its vetting and what the recipes do; and beside it the checks on the parent graph, and the
-- comparison of two sessions.
--
-- Parts and files:
-- - Values, Session, Finding: the JSON values, the canonical event (src/sesslint/canonical.py,
--   `SessionEvent`, and the accessors of src/sesslint/_events.py) and the finding
--   (src/sesslint/finding.py, src/sesslint/codes.py). Finding/ContentFree is
--   `enforce_content_free_text`.
-- - Checks/Graph: src/sesslint/checks/graph.py: Occurrence (`_OccurrenceGraph` and the search of
--   `check_missing_parent`), Cycles (the search of `check_cycles`), Candidates
--   (`find_qualifying_parent_candidates`).
-- - Policy: src/sesslint/policy/abstention.py. Policy/SideEffects is `_extract_side_effects`;
--   Policy/Ambiguity is `find_ambiguous_events`, in the order of its loops (Subjects, Pairing, Find);
--   Policy/Scope is `AffectedRegion` and `check_step_scope`; Policy/Gates is
--   `should_abstain_from_repair` and `must_abstain`.
-- - Repair/Steps: `PlanStep` of src/sesslint/repair/planner.py, the registry of
--   src/sesslint/repair/registry.py and `check_preconditions` of src/sesslint/repair/preconditions.py.
-- - Repair/Component, Repair/Torn: `_find_component_indices` and
--   `_find_torn_compaction_dropped_indices` of src/sesslint/repair/preconditions.py. Component/Links
--   says what the first one walks over.
-- - Repair/Planner: `plan` of src/sesslint/repair/planner.py: Targets (`_resolve_target_index`), Params
--   (parameters and losses), Classify (the loop over the findings), Plan (the rest).
-- - Repair/Recipes: src/sesslint/repair/recipes_conservative.py: Suffix, Collapse, Reunion, Projection
--   and Renumber, the latter four with the region that the recipe declares, and Restore without it;
--   Safety joins the regions to the scope check.
-- - Repair/Vetting: `vet_plan` of src/sesslint/repair/vetting.py. Repair/Assurance: the levels of
--   src/sesslint/repair/assurance.py.
-- - Repair/Positions: src/sesslint/repair/positions.py, which addresses steps again after earlier drops.
-- - Diff: `diff_events` of src/sesslint/diff.py: Data (the deltas), Pairing (its two passes), Emit.
-- - Prelude: tests, lists, integers, sets, stable sorting and texts. Samples: small sessions.
--
-- How the parts interact: `plan` drops repeated findings, refuses on SL203, and for each finding picks
-- the first registered recipe whose preconditions pass. Under the conservative policy the recipe's
-- region function goes through `check_step_scope` against the events that `find_ambiguous_events`
-- marks; a recipe without one is held to `must_abstain`. The steps are sorted, capped, numbered and
-- guarded. A recipe's function applies a step to the events; that of
-- `proven-unique-parent-restore` asks the graph checks for the candidates. `vet_plan` runs the planner
-- again and admits a supplied plan by what it derives.
--
-- State and errors: the code is pure but for the registry, which is a list in registration order.
-- Each `raise` is a constructor of `RepairError`, and the functions return a `Result`. A region
-- function that raises or answers nothing is one that returns `none`.
--
-- Parameters: `Host` (Python's `str` of other values, the payload digest, the integer that a float
-- equals), `Env` (the host, the table of predicates, the registry, the digests of events and
-- plans), `Codec` (the content hash of an event and the content-free test of a text), `Python` (the
-- search of `re` and the categories of `unicodedata`), `TextOps` (`str.strip`, `str.upper`,
-- `str.lower`) and `dumps` (`json.dumps` of a step). What a theorem assumes of one of them stands among
-- its hypotheses.
--
-- Bounds: Python's integers are unbounded, so nothing wraps. All loops are structural but the
-- breadth-first walk of Repair/Component and the search of Checks/Graph/Cycles, which run on fuel. The
-- walk has one round for each event and two more, and each round takes from the queue a position that
-- was put there once. The search has one round for each node and one more, and each round but the
-- last colours a white node. So neither runs out.
--
-- Not modelled: the predicates of src/sesslint/repair/preconditions.py, the recipe
-- `identical-duplicate-drop`, the region of `proven-unique-parent-restore`, the salvage recipes, the
-- executor, the rules SL006 and SL007 and the checks outside of checks/graph.py, the construction and
-- the caps of findings, the vendor adapters, the JSON forms, and all I/O.
mod Prelude
pub mod Values
pub mod Session
pub mod Checks
pub mod Diff
pub mod Finding
pub mod Policy
pub mod Repair
pub mod Samples
