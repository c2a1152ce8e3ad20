-- ===== src/Runs.antt =====
-- persistence/models.py and persistence/repository.py: the rows of runs, projects, messages, input
-- requests, sandbox resources, versions and events, and the errors of the repository.
pub mod Store
pub mod Access
pub mod Lease
pub mod Ending
pub mod Input
pub mod Answer
pub mod Resume
pub mod Accounts
pub mod Phase
pub mod Sandbox
pub mod Create
pub mod Publish
pub mod Expired
pub mod Lineage
pub mod Fork
pub mod Moves
pub mod History
use fomo_demo.Runtime.Contract.{RuntimeColumns}
use fomo_demo.Prelude.{ℕ, String, Bool, true, false, Option, none, some, List}

pub data RunStatus : Type 0 where
  queued running waiting_for_user needs_attention succeeded failed cancelled : RunStatus

pub data RunPhase : Type 0 where
  queued preparing planning building verifying repairing ready : RunPhase
  product_analysis architecture implementation verification repair publishing : RunPhase

-- Times are in microseconds since the epoch.
pub record RunRecord : Type 0 where
  pub id : String
  pub project_id : String
  pub base_version_id : Option String
  pub status : RunStatus
  pub phase : RunPhase
  pub repair_round : ℕ
  pub cancel_requested_at : Option ℕ
  pub error_code : Option String
  pub agent_framework : String
  pub runtime : RuntimeColumns
  pub lease_owner : Option String
  pub lease_expires_at : Option ℕ
  pub sandbox_id : Option String
  pub pi_session_id : Option String
  pub continuation_request_id : Option String
  pub continuation_key : Option String
  pub continuation_stage : Option String
  pub continuation_goal_id : Option String
  pub continuation_context : Option String
  pub preview_url : Option String
  pub execution_started_at : Option ℕ
  pub recovered_from_run_id : Option String
  pub recovered_from_goal_id : Option String
  pub recovered_from_checkpoint_id : Option String
  pub recovery_mode : Option String
  pub created_at : ℕ
  pub updated_at : ℕ

pub record UserRecord : Type 0 where
  pub id : String
  pub email : String
  pub display_name : String
  pub password_hash : String
  pub created_at : ℕ
  pub updated_at : ℕ

pub data SessionKind : Type 0 where
  user other_kind : SessionKind

pub record SessionRecord : Type 0 where
  pub id : String
  pub kind : SessionKind
  pub user_id : Option String
  pub expires_at : ℕ
  pub revoked_at : Option ℕ

pub record ProjectRecord : Type 0 where
  pub id : String
  pub owner_session_id : String
  pub title : String
  pub head_version_id : Option String
  pub active_run_id : Option String
  pub status : String
  pub updated_at : ℕ

pub record MessageRecord : Type 0 where
  pub id : String
  pub project_id : String
  pub role : String
  pub content : String
  pub client_message_id : String
  pub run_id : Option String
  pub created_at : ℕ

pub data RequestStatus : Type 0 where
  pending answered cancelled expired : RequestStatus

pub record InputRequestRecord : Type 0 where
  pub id : String
  pub run_id : String
  pub question : String
  pub choices : List String
  pub allow_freeform : Bool
  pub status : RequestStatus
  pub stage : String
  pub goal_id : Option String
  pub answer_message_id : Option String
  pub created_at : ℕ
  pub answered_at : Option ℕ

pub data ResourceKind : Type 0 where
  generation verification : ResourceKind

pub record SandboxResource : Type 0 where
  pub id : String
  pub run_id : String
  pub sandbox_id : String
  pub kind : ResourceKind
  pub created_at : ℕ
  pub cleaned_at : Option ℕ

pub record VersionRecord : Type 0 where
  pub id : String
  pub project_id : String
  pub number : ℕ
  pub commit_sha : String
  pub parent_version_id : Option String
  pub snapshot_id : Option String
  pub qa_status : String

-- The rows of files and of links, without their own ids and the link's JSON column but for the goal.
pub record VersionFileRecord : Type 0 where
  pub version_id : String
  pub path : String
  pub sha256 : String
  pub size : ℕ
  pub mime : String
  pub content_text : Option String
  pub object_key : Option String

pub record TraceLinkRecord : Type 0 where
  pub id : String
  pub run_id : String
  pub source_kind : String
  pub source_ref : String
  pub relation : String
  pub target_kind : String
  pub target_ref : String
  pub goal_id : Option String

-- A value of an event's payload.
pub data Value : Type 0 where
  null : Value
  text : String → Value
  number : ℕ → Value
  flag : Bool → Value
  texts : List String → Value

pub record EventRecord : Type 0 where
  pub run_id : String
  pub seq : ℕ
  pub kind : String
  pub role : Option String
  pub payload : List (String × Value)

-- The tables.
pub record Database : Type 0 where
  pub users : List UserRecord
  pub sessions : List SessionRecord
  pub runs : List RunRecord
  pub projects : List ProjectRecord
  pub messages : List MessageRecord
  pub requests : List InputRequestRecord
  pub resources : List SandboxResource
  pub events : List EventRecord
  pub versions : List VersionRecord
  pub version_files : List VersionFileRecord
  pub traces : List TraceLinkRecord

-- `NotFoundError`, `ConflictError`, `ValueError`, `RuntimeError`, `AuthenticationError`,
-- `OwnershipError` and `RunLeaseLost`, and SQLAlchemy's `IntegrityError` on a primary key
pub data RepositoryError : Type 0 where
  not_found conflict invalid inconsistent authentication ownership : String → RepositoryError
  lease_lost : RepositoryError
  duplicate_key : RepositoryError

abbrev pub is_running : RunStatus → Bool
is_running RunStatus.running = true
is_running _ = false

abbrev pub is_queued : RunStatus → Bool
is_queued RunStatus.queued = true
is_queued _ = false

abbrev pub is_waiting : RunStatus → Bool
is_waiting RunStatus.waiting_for_user = true
is_waiting _ = false

-- `TERMINAL_STATUSES`
abbrev pub is_terminal : RunStatus → Bool
is_terminal RunStatus.succeeded = true
is_terminal RunStatus.failed = true
is_terminal RunStatus.cancelled = true
is_terminal RunStatus.needs_attention = true
is_terminal _ = false

abbrev pub status_value : RunStatus → String
status_value RunStatus.queued = "queued"
status_value RunStatus.running = "running"
status_value RunStatus.waiting_for_user = "waiting_for_user"
status_value RunStatus.needs_attention = "needs_attention"
status_value RunStatus.succeeded = "succeeded"
status_value RunStatus.failed = "failed"
status_value RunStatus.cancelled = "cancelled"

abbrev pub phase_value : RunPhase → String
phase_value RunPhase.queued = "queued"
phase_value RunPhase.preparing = "preparing"
phase_value RunPhase.planning = "planning"
phase_value RunPhase.building = "building"
phase_value RunPhase.verifying = "verifying"
phase_value RunPhase.repairing = "repairing"
phase_value RunPhase.ready = "ready"
phase_value RunPhase.product_analysis = "product_analysis"
phase_value RunPhase.architecture = "architecture"
phase_value RunPhase.implementation = "implementation"
phase_value RunPhase.verification = "verification"
phase_value RunPhase.repair = "repair"
phase_value RunPhase.publishing = "publishing"
