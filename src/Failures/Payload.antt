-- ===== src/Failures/Payload.antt =====
-- The payloads of events that failures carry; a dictionary of fixed keys is a record.
pub mod Bounds
use Prim.Native.Char.{code}
use Prim.Native.String.{count}
use fomo_demo.Prelude.{
  ℕ, suc, String, Bool, true, false, not, ◌&&◌, ◌||◌, Option, none, some, List, [], ◌∷◌, Result, ok,
  err, guard, ◌>>=◌, ◌>>◌, leb, ltb, eqb, all, length, is_blank,
}
use fomo_demo.Contracts.Syntax.{all_chars, matches_identifier, matches_local_path}
use fomo_demo.Failures.{
  SafeRunDiagnostic, PlanningViolationDiagnostic, PublicRunFailure, FailureStage, FailureCategory,
  FailureOutcome, ℤ, pos, negsuc,
}

pub data PayloadError : Type 0 where
  frame_count frame_bounds file_count exit_code_range : PayloadError
  invalid_code invalid_routes invalid_goals invalid_tests : PayloadError
  invalid_fingerprint invalid_repeat : PayloadError

abbrev pub stage_value : FailureStage → String
stage_value FailureStage.initializing = "initializing"
stage_value FailureStage.planning = "planning"
stage_value FailureStage.building = "building"
stage_value FailureStage.repairing = "repairing"
stage_value FailureStage.verifying = "verifying"
stage_value FailureStage.publishing = "publishing"

abbrev category_value : FailureCategory → String
category_value FailureCategory.runtime_failed = "runtime_failed"
category_value FailureCategory.product_failed = "product_failed"
category_value FailureCategory.infrastructure_failed = "infrastructure_failed"
category_value FailureCategory.workspace_rejected = "workspace_rejected"

abbrev outcome_value : FailureOutcome → String
outcome_value FailureOutcome.blocked = "blocked"
outcome_value FailureOutcome.rejected = "rejected"
outcome_value FailureOutcome.nonzero_exit = "nonzero_exit"
outcome_value FailureOutcome.timed_out = "timed_out"
outcome_value FailureOutcome.protocol_invalid = "protocol_invalid"
outcome_value FailureOutcome.unavailable = "unavailable"

-- An absent key is `none`, or the empty list for `affectedFiles`.
pub record DiagnosticPayload : Type 0 where
  pub version : ℕ
  pub stage : String
  pub component : String
  pub check : String
  pub category : String
  pub reason_code : String
  pub outcome : String
  pub retryable : Bool
  pub frames : List String
  pub exit_code : Option ℤ
  pub timed_out : Option Bool
  pub affected_files : List String

-- -255 <= exit_code <= 255
abbrev exit_code_in_range : Option ℤ → Bool
exit_code_in_range none = true
exit_code_in_range (some (pos n)) = leb n 255
exit_code_in_range (some (negsuc n)) = leb (suc n) 255

abbrev pub is_safe_frame : String → Bool
is_safe_frame frame = not (is_blank frame || ltb 240 (count frame))

abbrev pub diagnostic_payload : SafeRunDiagnostic → DiagnosticPayload
diagnostic_payload d = record {
  version = 1;
  stage = stage_value d.stage;
  component = d.component;
  check = d.check;
  category = category_value d.category;
  reason_code = d.reason_code;
  outcome = outcome_value d.outcome;
  retryable = d.retryable;
  frames = d.frames;
  exit_code = d.exit_code;
  timed_out = d.timed_out;
  affected_files = d.affected_files;
}

-- `SafeRunDiagnostic.event_payload`
pub event_payload : SafeRunDiagnostic → Result PayloadError DiagnosticPayload
event_payload d = do
  guard (leb 1 (length d.frames) && leb (length d.frames) 4) frame_count
  guard (all is_safe_frame d.frames) frame_bounds
  guard (leb (length d.affected_files) 8) file_count
  guard (exit_code_in_range d.exit_code) exit_code_range
  ok (diagnostic_payload d)

-- [a-z]
abbrev is_lower : ℕ → Bool
is_lower c = leb b'a' c && leb c b'z'

abbrev is_digit : ℕ → Bool
is_digit c = leb b'0' c && leb c b'9'

-- ^[a-z][a-z0-9_]{2,63}$
is_safe_code : String → Bool
unfolding all_chars
is_safe_code String.[] = false
is_safe_code (String.◌∷◌ c s) =
    is_lower (code c)
    && all_chars (λ d. is_lower d || is_digit d || eqb d b'_') s
    && leb 2 (count s)
    && leb (count s) 63

-- ^[A-Za-z0-9][A-Za-z0-9_-]{0,63}$
pub is_safe_identifier : String → Bool
unfolding matches_identifier
is_safe_identifier s = matches_identifier s && leb (count s) 64

-- ^[a-f0-9]{64}$
is_fingerprint : String → Bool
unfolding all_chars
is_fingerprint s = all_chars (λ d. leb b'a' d && leb d b'f' || is_digit d) s && eqb (count s) 64

pub record PlanningPayload : Type 0 where
  pub version : ℕ
  pub violation_code : String
  pub route_ids : List String
  pub goal_ids : List String
  pub test_ids : List String
  pub fingerprint : String
  pub repeated_from : Option String

is_optional_fingerprint : Option String → Bool
unfolding is_fingerprint
is_optional_fingerprint none = true
is_optional_fingerprint (some s) = is_fingerprint s

is_safe_route : String → Bool
unfolding matches_local_path
is_safe_route s = not (ltb 200 (count s)) && matches_local_path s

-- `PlanningViolationDiagnostic.event_payload`
unfoldable pub planning_event_payload :
    PlanningViolationDiagnostic → Result PayloadError PlanningPayload
unfolding is_safe_code is_safe_identifier is_fingerprint is_optional_fingerprint is_safe_route
planning_event_payload d = do
  guard (is_safe_code d.violation_code) invalid_code
  guard (leb (length d.route_ids) 8 && all is_safe_route d.route_ids) invalid_routes
  guard (leb (length d.goal_ids) 8 && all is_safe_identifier d.goal_ids) invalid_goals
  guard (leb (length d.test_ids) 8 && all is_safe_identifier d.test_ids) invalid_tests
  guard (is_fingerprint d.fingerprint) invalid_fingerprint
  guard (is_optional_fingerprint d.repeated_from) invalid_repeat
  ok (record {
    version = 1;
    violation_code = d.violation_code;
    route_ids = d.route_ids;
    goal_ids = d.goal_ids;
    test_ids = d.test_ids;
    fingerprint = d.fingerprint;
    repeated_from = d.repeated_from;
  })

pub record FailurePayload : Type 0 where
  pub code : String
  pub message : String
  pub goal_id : Option String
  pub diagnostic : Option DiagnosticPayload

-- `PublicRunFailure.event_payload`
unfoldable pub failure_event_payload :
    PublicRunFailure → Option String → Option SafeRunDiagnostic → Result PayloadError FailurePayload
unfolding event_payload
failure_event_payload f goal_id none =
    ok (record { code = f.code; message = f.message; goal_id = goal_id; diagnostic = none })
failure_event_payload f goal_id (some d) = do
  p ← event_payload d
  ok (record { code = f.code; message = f.message; goal_id = goal_id; diagnostic = some p })
