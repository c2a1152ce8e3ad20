-- ===== src/Runs/Fork.antt =====
-- A new run that recovers one that did not succeed: `create_recovery_message_and_run`. What the call
-- reads of the checkpoints of the source is an argument; `str` prints a number.
use Prim.Native.String.{◌++◌}
use fomo_demo.Prelude.{
  ℕ, String, Bool, true, false, not, ◌&&◌, Option, none, some, List, [], ◌∷◌, append, ◌==◌, Result,
  ok, err, guard, ◌>>=◌, ◌>>◌, contains, if◌then◌else◌, is_some,
}
use fomo_demo.Runtime.Frameworks.{agent_frameworks, validate_agent_framework_runtime}
use fomo_demo.Runtime.Contract.{RuntimeContract, runtime_contract_from_storage}
use fomo_demo.Runs.{
  RunRecord, ProjectRecord, MessageRecord, VersionRecord, Value, text, flag, Database,
  RepositoryError, conflict, invalid, inconsistent, duplicate_key,
}
use fomo_demo.Runs.Access.{require_project}
use fomo_demo.Runs.Store.{find_run, run_ids, append_event, optional_text, or_raise, locked_run}
use fomo_demo.Runs.Answer.{find_message}
use fomo_demo.Runs.Create.{
  Submission, lift_runtime, runtime_differs, new_run, new_message, with_run, insert_run,
  created_payload,
}
use fomo_demo.Runs.Publish.{find_version}
use fomo_demo.Runs.Sandbox.{is_unsuccessful}
use fomo_demo.Runs.Lineage.{run_prompt_lineage, assemble_run_prompt, with_content}

pub record RecoveryRequest : Type 0 where
  pub source_run_id : String
  pub session_id : String
  pub client_id : String
  pub content : String
  pub agent_framework : Option String
  pub runtime_contract : Option RuntimeContract
  pub enforce_runtime : Bool
  pub enforce_framework : Bool

-- The goal and the id of a checkpoint.
pub record InheritedCheckpoint : Type 0 where
  pub goal_id : String
  pub id : String

-- What the checkpoints of the source say: they are corrupt, there is none, or one can be inherited.
pub data CheckpointView : Type 0 where
  corrupt : CheckpointView
  valid : Option InheritedCheckpoint → CheckpointView

-- The message and the run, whether the run is new, its mode and whether it inherits a checkpoint.
pub record Recovery : Type 0 where
  pub message : MessageRecord
  pub run : RunRecord
  pub is_new : Bool
  pub mode : String
  pub has_checkpoint : Bool
  pub tables : Database

-- A `ManifestIntegrityError` is a conflict; the other errors pass.
abbrev pub as_conflict : {A : Type 0} → String → Result RepositoryError A → Result RepositoryError A
as_conflict message (ok a) = ok a
as_conflict message (err (inconsistent m)) = err (conflict message)
as_conflict message (err e) = err e

unfoldable pub recoverable_checkpoint :
    CheckpointView → Result RepositoryError (Option InheritedCheckpoint)
recoverable_checkpoint corrupt =
    err (conflict "the source recovery checkpoint failed integrity validation")
recoverable_checkpoint (valid c) = ok c

-- `_verified_base_version_in_session`
abbrev pub if_verified : RunRecord → Option VersionRecord → Option VersionRecord
if_verified r none = none
if_verified r (some v) =
    if v.project_id == r.project_id && v.qa_status == "passed" then some v else none

unfoldable pub verified_base_version : Database → RunRecord → Option VersionRecord
verified_base_version db r = if_verified r (find_version db.versions r.base_version_id)

abbrev pub recovery_mode_of : Option InheritedCheckpoint → Option VersionRecord → String
recovery_mode_of (some c) v = "verified_checkpoint"
recovery_mode_of none (some v) = "verified_version"
recovery_mode_of none none = "base_restart"

abbrev pub checkpoint_id_of : Option InheritedCheckpoint → Option String
checkpoint_id_of none = none
checkpoint_id_of (some c) = some c.id

abbrev pub checkpoint_goal_of : Option InheritedCheckpoint → Option String
checkpoint_goal_of none = none
checkpoint_goal_of (some c) = some c.goal_id

abbrev pub version_id_of : Option VersionRecord → Option String
version_id_of none = none
version_id_of (some v) = some v.id

-- The request as a submission to the source's project, with the framework that was chosen.
abbrev pub submission_of : RecoveryRequest → RunRecord → String → Submission
submission_of q source framework = record {
  project_id = source.project_id;
  session_id = q.session_id;
  client_id = q.client_id;
  content = q.content;
  base_version_id = none;
  agent_framework = framework;
  runtime_contract = q.runtime_contract;
  enforce_runtime = q.enforce_runtime;
  enforce_framework = q.enforce_framework;
}

-- `AgentFramework(value).value`
abbrev pub agent_framework_value : String → Result RepositoryError String
agent_framework_value value =
    if contains agent_frameworks value
    then ok value
    else err (invalid (value ++ " is not a valid AgentFramework"))

abbrev pub chosen : Option String → String → String
chosen none source = source
chosen (some f) source = f

-- `runtime_contract or _runtime_contract(source)`
abbrev pub chosen_runtime :
    Option RuntimeContract → RunRecord → Result RepositoryError RuntimeContract
chosen_runtime (some c) source = ok c
chosen_runtime none source = lift_runtime (runtime_contract_from_storage source.runtime)

-- Whether the run's framework differs, where the caller enforces one.
unfoldable pub framework_differs : Bool → Option String → RunRecord → Result RepositoryError Bool
framework_differs false f r = ok false
framework_differs true none r = ok false
framework_differs true (some f) r = do
  value ← agent_framework_value f
  ok (not (r.agent_framework == value))

abbrev pub is_named : Option String → String → Bool
is_named none id = false
is_named (some s) id = s == id

unfoldable pub existing_recovery :
    RecoveryRequest → RunRecord → MessageRecord → Database → Result RepositoryError Recovery
unfolding framework_differs
existing_recovery q source m db = do
  run_id ← or_raise m.run_id (inconsistent "idempotent recovery message is missing its run")
  r ←
      or_raise (find_run db.runs run_id)
        (inconsistent "idempotent recovery message points to a missing run")
  guard (m.content == q.content && is_named r.recovered_from_run_id source.id)
      (conflict "Idempotency-Key was already used with a different request")
  other_runtime ← runtime_differs q.enforce_runtime q.runtime_contract r
  guard (not other_runtime) (conflict "Idempotency-Key was already used with a different request")
  other_framework ← framework_differs q.enforce_framework q.agent_framework r
  guard (not other_framework) (conflict "Idempotency-Key was already used with a different request")
  mode ←
      or_raise r.recovery_mode
        (conflict "Idempotency-Key was already used with a different request")
  ok (record {
    message = m;
    run = r;
    is_new = false;
    mode = mode;
    has_checkpoint = is_some r.recovered_from_checkpoint_id;
    tables = db;
  })

-- The new run names its source and has nothing else of it but the base version and the runtime.
abbrev pub recovery_run :
    ℕ
    → String
    → Submission
    → ProjectRecord
    → RuntimeContract
    → RunRecord
    → Option InheritedCheckpoint
    → Option VersionRecord
    → RunRecord
recovery_run now id s project c source checkpoint version = record (new_run now id s project c) {
  base_version_id = version_id_of version;
  recovered_from_run_id = some source.id;
  recovered_from_goal_id = checkpoint_goal_of checkpoint;
  recovered_from_checkpoint_id = checkpoint_id_of checkpoint;
  recovery_mode = some (recovery_mode_of checkpoint version);
}

abbrev pub recovery_payload :
    String → Submission → RuntimeContract → RunRecord → RunRecord → Bool → List (String × Value)
recovery_payload message_id s c r source has_checkpoint =
    append (created_payload message_id s c r) (
      ("recoveredFromRunId", text source.id)
      ∷ ("recoveredFromGoalId", optional_text r.recovered_from_goal_id)
      ∷ ("recoveredFromCheckpointId", optional_text r.recovered_from_checkpoint_id)
      ∷ ("recoveryMode", optional_text r.recovery_mode)
      ∷ ("sourceCheckpointAvailable", flag has_checkpoint)
      ∷ [])

-- the prompt of the new run
unfoldable pub recovery_prompt :
    (ℕ → String) → Database → RunRecord → String → Result RepositoryError String
recovery_prompt str db source content =
    as_conflict "recovery history is invalid or too large; start a new project" (do
      contents ← run_prompt_lineage db source
      assemble_run_prompt str (with_content contents content))

module _ (normalized : String → String) (str : ℕ → String) where
  unfoldable pub fresh_recovery :
      ℕ
      → String
      → String
      → RecoveryRequest
      → CheckpointView
      → RunRecord
      → ProjectRecord
      → Database
      → Result RepositoryError Recovery
  unfolding recovery_prompt recoverable_checkpoint verified_base_version
  fresh_recovery now run_id message_id q checkpoints source project db = do
    guard (is_unsuccessful source.status)
        (conflict "only a failed, interrupted, or cancelled run can recover")
    prompt ← recovery_prompt str db source q.content
    checkpoint ← recoverable_checkpoint checkpoints
    framework ← agent_framework_value (chosen q.agent_framework source.agent_framework)
    c ← chosen_runtime q.runtime_contract source
    valid_runtime ←
        lift_runtime (validate_agent_framework_runtime normalized framework c.profile_id c.thinking)
    guard (not (contains (run_ids db.runs) run_id)) duplicate_key
    let version = verified_base_version db source
    let s = submission_of q source framework
    let r = recovery_run now run_id s project c source checkpoint version
    let m = new_message now message_id run_id s
    ok (record {
      message = m;
      run = r;
      is_new = true;
      mode = recovery_mode_of checkpoint version;
      has_checkpoint = is_some checkpoint;
      tables =
          append_event run_id "run.created" none
            (recovery_payload message_id s c r source (is_some checkpoint))
            (insert_run r m (with_run now run_id project) db);
    })

  unfoldable pub recovery_of :
      ℕ
      → String
      → String
      → RecoveryRequest
      → CheckpointView
      → RunRecord
      → ProjectRecord
      → Option MessageRecord
      → Database
      → Result RepositoryError Recovery
  unfolding existing_recovery fresh_recovery
  recovery_of now run_id message_id q checkpoints source project none db =
      fresh_recovery now run_id message_id q checkpoints source project db
  recovery_of now run_id message_id q checkpoints source project (some m) db =
      existing_recovery q source m db

  unfoldable pub create_recovery_message_and_run :
      ℕ
      → String
      → String
      → RecoveryRequest
      → CheckpointView
      → Database
      → Result RepositoryError Recovery
  unfolding recovery_of
  create_recovery_message_and_run now run_id message_id q checkpoints db = do
    source ← locked_run db q.source_run_id
    project ← require_project now db source.project_id q.session_id
    recovery_of now run_id message_id q checkpoints source project
        (find_message db.messages project.id q.client_id) db
