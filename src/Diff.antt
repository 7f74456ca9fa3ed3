-- ===== src/Diff.antt =====
-- diff.py: `diff_events`, the alignment of two sessions and the differences that it emits. An index of
-- the source carries its event here; the content hash of events and the content-free test of texts
-- are parameters of the alignment. Loading and rendering are not modelled.
pub mod Data
pub mod Pairing
pub mod Emit
pub mod Sorted
pub mod Buckets
pub mod Matching
pub mod Passes
pub mod Aligned
pub mod Itself
mod Ranges
pub mod Same
