-- ===== src/Failures/Classify.antt =====
-- The classification of an exception by its chain of causes, and the maps from codes. Exceptions
-- are objects of a store, which are compared by identity.
pub mod Closed
pub mod Chain
use fomo_demo.Prelude.{
  ℕ, zero, suc, String, Bool, true, false, ◌||◌, Option, none, some, List, [], ◌∷◌, ◌==◌, eqb,
  if◌then◌else◌,
}
use fomo_demo.Failures.{
  SafeRunDiagnostic, PublicRunFailure, FailureStage, FailureCategory, FailureOutcome,
}
use fomo_demo.Failures.Table.{
  public_failures, session_failures, orchestration_failures, bridge_failures,
  inference_gateway_unavailable, workspace_contract_failed, planning_contract_failed,
  agent_capability_unavailable, agent_no_effect, model_runtime_protocol_failed, coding_agent_failed,
}

-- `WorkspaceRepairCode` and `WorkspaceRepairDiagnostic` of direct_pi/workspace.py
pub data WorkspaceRepairCode : Type 0 where
  protected_file_changed protected_file_missing rejected_secret_file : WorkspaceRepairCode
  unsupported_source_type invalid_source_encoding : WorkspaceRepairCode

pub record WorkspaceRepairDiagnostic : Type 0 where
  pub code : WorkspaceRepairCode
  pub affected_files : List String

-- The most specific class that the code asks about. The payload of a `PiBridgeFailed` has a code or
-- none; a `WorkspaceContractError` has a repair or none.
pub data ErrorClass : Type 0 where
  inference_gateway planning_contract capability_unavailable no_effect : ErrorClass
  bridge_protocol session orchestration other_error : ErrorClass
  bridge_failed : Option String → ErrorClass
  workspace_contract : Option WorkspaceRepairDiagnostic → ErrorClass

pub data Argument : Type 0 where
  text : String → Argument
  other : Argument

-- `diagnostic` is the attribute of that name, if it is a `SafeRunDiagnostic`.
pub record ErrorObject : Type 0 where
  pub class : ErrorClass
  pub args : List Argument
  pub diagnostic : Option SafeRunDiagnostic
  pub cause : Option ℕ
  pub context : Option ℕ

abbrev pub Store : Type 0
Store = ℕ → ErrorObject

-- `a or b` on optional values
abbrev pub or_else {ℓ} : {A : Type ℓ} → Option A → Option A → Option A
or_else none o = o
or_else (some a) o = some a

abbrev pub get_or {ℓ} : {A : Type ℓ} → Option A → A → A
get_or none a = a
get_or (some b) a = b

-- `table.get(key)`
pub lookup : List (String × PublicRunFailure) → String → Option PublicRunFailure
lookup [] key = none
lookup (r ∷ table) key = if r.0 == key then some r.1 else lookup table key

-- `PUBLIC_FAILURES_BY_CODE.get(code)`
pub by_code : List PublicRunFailure → String → Option PublicRunFailure
by_code [] key = none
by_code (f ∷ table) key = if f.code == key then some f else by_code table key

pub single_string_argument : List Argument → Option String
single_string_argument (text s ∷ []) = some s
single_string_argument _ = none

pub lookup_optional : List (String × PublicRunFailure) → Option String → Option PublicRunFailure
unfolding lookup
lookup_optional table none = none
lookup_optional table (some key) = lookup table key

-- one turn of the loop of `classify_direct_pi_failure`: the failure that it returns, if it returns
pub classify_one : ErrorClass → List Argument → Option PublicRunFailure
unfolding lookup_optional single_string_argument
classify_one inference_gateway args = some inference_gateway_unavailable
classify_one (workspace_contract repair) args = some workspace_contract_failed
classify_one planning_contract args = some planning_contract_failed
classify_one capability_unavailable args = some agent_capability_unavailable
classify_one no_effect args = some agent_no_effect
classify_one bridge_protocol args = some model_runtime_protocol_failed
classify_one (bridge_failed code) args = lookup_optional bridge_failures code
classify_one session args = lookup_optional session_failures (single_string_argument args)
classify_one orchestration args =
    lookup_optional orchestration_failures (single_string_argument args)
classify_one other_error args = none

abbrev pub next_error : ErrorObject → Option ℕ
next_error e = or_else e.cause e.context

abbrev pub was_seen : List ℕ → ℕ → Bool
was_seen [] i = false
was_seen (j ∷ seen) i = eqb j i || was_seen seen i

-- The loop of both functions: `n` turns are left, and `f` gives the value that a turn returns.
pub walk {ℓ} : {A : Type ℓ} → (ErrorObject → Option A) → Store → ℕ → List ℕ → Option ℕ → Option A
walk f store zero seen current = none
walk f store (suc n) seen none = none
walk f store (suc n) seen (some i) =
    let rest = walk f store n (i ∷ seen) (next_error (store i)) in
    if was_seen seen i then none else or_else (f (store i)) rest

abbrev pub classify_object : ErrorObject → Option PublicRunFailure
classify_object e = classify_one e.class e.args

unfoldable pub classify_direct_pi_failure : Store → ℕ → PublicRunFailure
unfolding walk classify_one
classify_direct_pi_failure store error =
    get_or (walk classify_object store 8 [] (some error)) coding_agent_failed

abbrev pub repair_code_value : WorkspaceRepairCode → String
repair_code_value protected_file_changed = "protected_file_changed"
repair_code_value protected_file_missing = "protected_file_missing"
repair_code_value rejected_secret_file = "rejected_secret_file"
repair_code_value unsupported_source_type = "unsupported_source_type"
repair_code_value invalid_source_encoding = "invalid_source_encoding"

-- `workspace_frames`
abbrev pub workspace_frame : WorkspaceRepairCode → String
workspace_frame protected_file_changed = "A FOMO-owned validation file was modified."
workspace_frame protected_file_missing = "A FOMO-owned validation file is missing."
workspace_frame rejected_secret_file = "A forbidden environment or secret file was created."
workspace_frame unsupported_source_type = "A symlink or unsupported source entry was created."
workspace_frame invalid_source_encoding = "A candidate file is not complete UTF-8 text."

abbrev pub workspace_diagnostic : String → String → Bool → List String → SafeRunDiagnostic
workspace_diagnostic reason_code frame retryable affected_files = record {
  stage = FailureStage.building;
  component = "workspace_auditor";
  check = "workspace_contract";
  category = FailureCategory.workspace_rejected;
  reason_code = reason_code;
  outcome = FailureOutcome.rejected;
  retryable = retryable;
  frames = frame ∷ "The candidate was rejected before publication." ∷ [];
  exit_code = none;
  timed_out = none;
  affected_files = affected_files;
}

unfoldable pub diagnose_workspace : ErrorClass → Option SafeRunDiagnostic
diagnose_workspace (workspace_contract none) = some (
    workspace_diagnostic "workspace_contract_rejected"
      "The candidate failed a server-owned workspace integrity check." false [])
diagnose_workspace (workspace_contract (some repair)) = some (
    workspace_diagnostic (repair_code_value repair.code) (workspace_frame repair.code) true
      repair.affected_files)
diagnose_workspace _ = none

abbrev diagnose_object : ErrorObject → Option SafeRunDiagnostic
diagnose_object e = or_else e.diagnostic (diagnose_workspace e.class)

unfoldable pub safe_diagnostic_for_error : Store → ℕ → Option SafeRunDiagnostic
unfolding walk diagnose_workspace
safe_diagnostic_for_error store error = walk diagnose_object store 8 [] (some error)

-- `public_bridge_failure` and `public_failure_for_code`; the argument is `none` where it is no text.
pub public_bridge_failure : Option String → PublicRunFailure
unfolding by_code lookup
public_bridge_failure none = coding_agent_failed
public_bridge_failure (some code) =
    get_or (or_else (by_code public_failures code) (lookup bridge_failures code))
      coding_agent_failed

pub public_failure_for_code : Option String → PublicRunFailure
unfolding by_code
public_failure_for_code none = coding_agent_failed
public_failure_for_code (some code) = get_or (by_code public_failures code) coding_agent_failed
