-- ===== src/Finding.antt =====
-- finding.py and codes.py: the finding envelope, with the fields that the checks, the policy and the
-- planner read. The limits that `Finding.__post_init__` puts on its texts are not modelled.
pub mod ContentFree
use sesslint.Prelude.{String, ◌==◌, Bool, Option, List, any, ℤ}
use sesslint.Values.{Fields}

pub data Severity : Type 0 where
  info warning error fatal : Severity

pub data Repairability : Type 0 where
  deterministic lossy_explicit manual unsupported : Repairability

-- `repairability.value`.
unfoldable pub repairability_value : Repairability → String
repairability_value deterministic = "deterministic"
repairability_value lossy_explicit = "lossy-explicit"
repairability_value manual = "manual"
repairability_value unsupported = "unsupported"

pub record SourceRef : Type 0 where
  pub path : String
  pub line : Option ℤ
  pub record_id : Option String

pub record Finding : Type 0 where
  pub code : String
  pub severity : Severity
  pub repairability : Repairability
  pub message : String
  pub source : SourceRef
  pub related_ids : List String
  pub fingerprint : String
  pub evidence : Option Fields

-- `any(f.code == "SL203" for f in findings)`.
abbrev pub has_sl203 : List Finding → Bool
has_sl203 fs = any (λ f. f.code == "SL203") fs
