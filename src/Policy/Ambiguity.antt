-- ===== src/Policy/Ambiguity.antt =====
-- `find_ambiguous_events` of policy/abstention.py. The dictionaries of calls and results by
-- correlation id are the lists that they hold at an id, and a set is a list read by membership.
-- `Entries` has the data, `Subjects` the events that findings name, `Pairing` the verdict on the
-- calls and results of one correlation id, and `Find` the whole function.
pub mod Entries
pub mod Subjects
pub mod Pairing
pub mod Find
pub mod Settled
pub mod Covers
pub mod Closure
