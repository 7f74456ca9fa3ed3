-- ===== src/Checks/Graph.antt =====
-- checks/graph.py: the parent-graph rules SL004 and SL005 over the first occurrence of each id, and the
-- candidates for a parent. Each rule is the part of its check that decides what is reported, up to the
-- building of the findings.
pub mod Occurrence
pub mod Cycles
pub mod Candidates
