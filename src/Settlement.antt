-- ===== src/Settlement.antt =====
-- direct_pi/settlement.py: the admission of a finished turn of the coding runtime. `str` prints a
-- number, as Python does.
pub mod Turn
use Prim.Native.String.{◌++◌}
use fomo_demo.Prelude.{
  ℕ, String, Bool, true, false, not, ◌&&◌, ◌||◌, Option, none, some, List, [], ◌∷◌, ◌==◌, Result,
  ok, err, guard, ◌>>=◌, ◌>>◌, is_empty, if◌then◌else◌, contains, unique, length, eqb, subset,
}
use fomo_demo.Contracts.Order.{sorted_set}
use fomo_demo.Failures.{SafeRunDiagnostic, FailureStage, FailureCategory, FailureOutcome}
use fomo_demo.Failures.Payload.{stage_value}

pub data TurnEffectPolicy : Type 0 where
  must_change may_noop verify_only : TurnEffectPolicy

pub record RuntimeCapabilityAttestation : Type 0 where
  pub structured_output : Bool
  pub repo_read : Bool
  pub repo_mutate : Bool
  pub command_exec : Bool
  pub session_resume : Bool
  pub session_cancel : Bool

pub record RuntimeTurnReceipt : Type 0 where
  pub request_id : String
  pub framework : String
  pub stage : String
  pub session_id : String
  pub tool_calls : ℕ
  pub attestation : Option RuntimeCapabilityAttestation

pub record TurnSettlement : Type 0 where
  pub effect_policy : TurnEffectPolicy
  pub changed_paths : List String
  pub tool_calls : ℕ
  pub no_op : Bool

-- the two exceptions, with their diagnostics
pub data SettlementError : Type 0 where
  capability_unavailable no_effect : SafeRunDiagnostic → SettlementError

-- `FailureStage(stage)`, or building
abbrev failure_stage : String → FailureStage
failure_stage stage =
    if stage == "initializing"
    then FailureStage.initializing
    else if stage == "planning"
    then FailureStage.planning
    else if stage == "building"
    then FailureStage.building
    else if stage == "repairing"
    then FailureStage.repairing
    else if stage == "verifying"
    then FailureStage.verifying
    else if stage == "publishing"
    then FailureStage.publishing
    else FailureStage.building

abbrev missing_one : String → Bool → List String → List String
missing_one name available rest = if available then rest else name ∷ rest

pub missing_capabilities : RuntimeCapabilityAttestation → String → Bool → List String
missing_capabilities a stage structured =
    if structured
    then missing_one "structured_output" a.structured_output []
    else if stage == "building" || stage == "repairing"
    then missing_one "repo.read" a.repo_read
        (missing_one "repo.mutate" a.repo_mutate (missing_one "command.exec" a.command_exec []))
    else []

-- ', '.join(names)
join_names : List String → String
join_names [] = ""
join_names (n ∷ []) = n
join_names (n ∷ m ∷ ns) = n ++ ", " ++ join_names (m ∷ ns)

pub capability_diagnostic : String → String → List String → SafeRunDiagnostic
unfolding join_names
capability_diagnostic framework stage missing = record {
  stage = failure_stage stage;
  component = framework ++ "_adapter";
  check = "runtime_capability_binding";
  category = FailureCategory.runtime_failed;
  reason_code = "repository_tools_unavailable";
  outcome = FailureOutcome.unavailable;
  retryable = true;
  frames =
      (framework
        ++ " "
        ++ stage_value (failure_stage stage)
        ++ " session is missing required capabilities.")
      ∷ ("Missing capability: " ++ join_names missing ++ ".")
      ∷ "The model turn was not admitted to workspace verification."
      ∷ [];
  exit_code = none;
  timed_out = none;
  affected_files = [];
}

-- `RuntimeCapabilityAttestation.assert_stage_ready`
pub assert_stage_ready :
    RuntimeCapabilityAttestation → String → String → Bool → Result SettlementError (Unit {0})
unfolding missing_capabilities capability_diagnostic
assert_stage_ready a framework stage structured =
    guard (is_empty (missing_capabilities a stage structured)) (
      capability_unavailable
        (capability_diagnostic framework stage (missing_capabilities a stage structured)))

abbrev pub is_must_change : TurnEffectPolicy → Bool
is_must_change must_change = true
is_must_change _ = false

module _ (str : ℕ → String) where
  pub no_effect_diagnostic : RuntimeTurnReceipt → SafeRunDiagnostic
  no_effect_diagnostic receipt = record {
    stage = failure_stage receipt.stage;
    component = "settlement_engine";
    check = "candidate_manifest_delta";
    category = FailureCategory.runtime_failed;
    reason_code = "agent_no_effect";
    outcome = FailureOutcome.rejected;
    retryable = true;
    frames =
        "The Coding Runtime transport finished without a candidate change."
        ∷ ("Server-observed changed files: 0; tool calls: " ++ str receipt.tool_calls ++ ".")
        ∷ "Verification admission was rejected before typecheck or browser QA."
        ∷ [];
    exit_code = none;
    timed_out = none;
    affected_files = [];
  }

  unfoldable pub settle_workspace_turn :
      RuntimeTurnReceipt → List String → TurnEffectPolicy → Result SettlementError TurnSettlement
  unfolding no_effect_diagnostic sorted_set
  settle_workspace_turn receipt changed_paths policy = do
    guard (not (is_must_change policy && is_empty (sorted_set changed_paths)))
        (no_effect (no_effect_diagnostic receipt))
    ok (record {
      effect_policy = policy;
      changed_paths = sorted_set changed_paths;
      tool_calls = receipt.tool_calls;
      no_op = is_empty (sorted_set changed_paths);
    })
