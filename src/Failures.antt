-- ===== src/Failures.antt =====
-- direct_pi/failures.py: the failure contracts that are safe to persist and to send to browsers.
pub mod Table
pub mod Classify
pub mod Payload
use fomo_demo.Prelude.{ℕ, String, Bool, Option, List}

pub data FailureStage : Type 0 where
  initializing planning building repairing verifying publishing : FailureStage

pub data FailureCategory : Type 0 where
  runtime_failed product_failed infrastructure_failed workspace_rejected : FailureCategory

pub data FailureOutcome : Type 0 where
  blocked rejected nonzero_exit timed_out protocol_invalid unavailable : FailureOutcome

-- Python's `int`: `negsuc n` is `-(n + 1)`.
pub data ℤ : Type 0 where
  pos negsuc : ℕ → ℤ

pub record SafeRunDiagnostic : Type 0 where
  pub stage : FailureStage
  pub component : String
  pub check : String
  pub category : FailureCategory
  pub reason_code : String
  pub outcome : FailureOutcome
  pub retryable : Bool
  pub frames : List String
  pub exit_code : Option ℤ
  pub timed_out : Option Bool
  pub affected_files : List String

pub record PlanningViolationDiagnostic : Type 0 where
  pub violation_code : String
  pub route_ids : List String
  pub goal_ids : List String
  pub test_ids : List String
  pub fingerprint : String
  pub repeated_from : Option String

pub record PublicRunFailure : Type 0 where
  pub code : String
  pub message : String
