-- ===== src/Checks.antt =====
-- checks/: the detectors, as far as what they detect. That a detected item becomes a finding
-- (`make_finding`, the caps of a family) is not modelled here.
pub mod Graph
