-- ===== src/Runs/Create.antt =====
-- A message and its run: `create_message_and_run`. A key that `uuid7()` gives and a table has already
-- is refused by the table.
use Prim.Native.String.{◌++◌}
use fomo_demo.Prelude.{
  ℕ, String, Bool, true, false, not, ◌&&◌, ◌||◌, Option, none, some, List, [], ◌∷◌, ◌==◌, Result,
  ok, err, guard, ◌>>=◌, ◌>>◌, contains, if◌then◌else◌, is_some, is_blank,
}
use fomo_demo.Runtime.{RuntimeError, contract_error, value_error, default_profile_id}
use fomo_demo.Runtime.Frameworks.{agent_frameworks, validate_agent_framework_runtime}
use fomo_demo.Runtime.Contract.{
  RuntimeContract, columns_of, same_contract, resolve_runtime_contract,
  runtime_contract_from_storage,
}
use fomo_demo.Runs.{
  RunRecord, RunStatus, RunPhase, ProjectRecord, MessageRecord, Value, text, number, Database,
  RepositoryError, conflict, invalid, inconsistent, duplicate_key, is_waiting,
}
use fomo_demo.Runs.Access.{require_project}
use fomo_demo.Runs.Store.{find_run, run_ids, put_project, append_event, optional_text, or_raise}
use fomo_demo.Runs.Answer.{find_message}

-- The request of a caller; the flags are `enforce_runtime_match` and `enforce_agent_framework_match`.
pub record Submission : Type 0 where
  pub project_id : String
  pub session_id : String
  pub client_id : String
  pub content : String
  pub base_version_id : Option String
  pub agent_framework : String
  pub runtime_contract : Option RuntimeContract
  pub enforce_runtime : Bool
  pub enforce_framework : Bool

abbrev pub runtime_message : RuntimeError → String
runtime_message (contract_error m) = m
runtime_message (value_error m) = m

-- An error of the contract is a `ValueError`.
abbrev pub lift_runtime : {A : Type 0} → Result RuntimeError A → Result RepositoryError A
lift_runtime (ok a) = ok a
lift_runtime (err e) = err (invalid (runtime_message e))

-- `base_version_id or project.head_version_id`
abbrev pub base_or : Option String → Option String → Option String
base_or none head = head
base_or (some b) head = if is_blank b then head else some b

abbrev pub same_base : Option String → Option String → Bool
same_base none _ = true
same_base (some b) none = false
same_base (some b) (some c) = b == c

abbrev pub new_run : ℕ → String → Submission → ProjectRecord → RuntimeContract → RunRecord
new_run now id s project c = record {
  id = id;
  project_id = s.project_id;
  base_version_id = base_or s.base_version_id project.head_version_id;
  status = RunStatus.queued;
  phase = RunPhase.queued;
  repair_round = 0;
  cancel_requested_at = none;
  error_code = none;
  agent_framework = s.agent_framework;
  runtime = columns_of c;
  lease_owner = none;
  lease_expires_at = none;
  sandbox_id = none;
  pi_session_id = some ("fomo-" ++ id);
  continuation_request_id = none;
  continuation_key = none;
  continuation_stage = none;
  continuation_goal_id = none;
  continuation_context = none;
  preview_url = none;
  execution_started_at = none;
  recovered_from_run_id = none;
  recovered_from_goal_id = none;
  recovered_from_checkpoint_id = none;
  recovery_mode = none;
  created_at = now;
  updated_at = now;
}

abbrev pub new_message : ℕ → String → String → Submission → MessageRecord
new_message now id run_id s = record {
  id = id;
  project_id = s.project_id;
  role = "user";
  content = s.content;
  client_message_id = s.client_id;
  run_id = some run_id;
  created_at = now;
}

-- The project keeps the run that it has.
abbrev pub with_run : ℕ → String → ProjectRecord → ProjectRecord
with_run now id p = record p {
  active_run_id = if is_some p.active_run_id then p.active_run_id else some id;
  status = "queued";
  updated_at = now;
}

abbrev pub created_payload :
    String → Submission → RuntimeContract → RunRecord → List (String × Value)
created_payload message_id s c r =
    ("messageId", text message_id)
    ∷ ("baseVersionId", optional_text r.base_version_id)
    ∷ ("agentFramework", text s.agent_framework)
    ∷ ("profileId", text c.profile_id)
    ∷ ("thinking", text c.thinking)
    ∷ ("contextWindow", number c.context_window)
    ∷ ("runtimePolicy", text c.policy_version)
    ∷ []

abbrev pub insert_run : RunRecord → MessageRecord → ProjectRecord → Database → Database
insert_run r m p db = record db {
  runs = r ∷ db.runs;
  messages = m ∷ db.messages;
  projects = put_project p db.projects;
}

-- Whether the run's contract differs, where the caller enforces one.
unfoldable pub runtime_differs :
    Bool → Option RuntimeContract → RunRecord → Result RepositoryError Bool
runtime_differs false c r = ok false
runtime_differs true none r = ok false
runtime_differs true (some c) r = do
  stored ← lift_runtime (runtime_contract_from_storage r.runtime)
  ok (not (same_contract stored c))

-- A repeated call: the flag of the result says that the run is new.
unfoldable pub existing_run :
    Submission
    → MessageRecord
    → Database
    → Result RepositoryError (MessageRecord × RunRecord × Bool × Database)
unfolding runtime_differs
existing_run s m db = do
  run_id ← or_raise m.run_id (inconsistent "idempotent message is missing its run")
  r ← or_raise (find_run db.runs run_id) (inconsistent "idempotent message points to a missing run")
  guard (m.content == s.content && same_base s.base_version_id r.base_version_id)
      (conflict "Idempotency-Key was already used with a different request")
  differs ← runtime_differs s.enforce_runtime s.runtime_contract r
  guard (not (differs || s.enforce_framework && not (r.agent_framework == s.agent_framework)))
      (conflict "Idempotency-Key was already used with a different request")
  ok (m, r, false, db)

-- the run that the project names, where it waits
abbrev pub is_waiting_run : Option RunRecord → Bool
is_waiting_run none = false
is_waiting_run (some r) = is_waiting r.status

abbrev pub active_run : Database → Option String → Option RunRecord
active_run db none = none
active_run db (some id) = find_run db.runs id

-- `runtime_contract or resolve_runtime_contract()`
abbrev pub frozen_runtime : Option RuntimeContract → Result RepositoryError RuntimeContract
frozen_runtime none = lift_runtime (resolve_runtime_contract default_profile_id none none none)
frozen_runtime (some c) = ok c

module _ (normalized : String → String) where
  unfoldable pub fresh_run :
      ℕ
      → String
      → String
      → Submission
      → ProjectRecord
      → Database
      → Result RepositoryError (MessageRecord × RunRecord × Bool × Database)
  fresh_run now run_id message_id s project db = do
    guard (not (is_waiting_run (active_run db project.active_run_id)))
        (conflict "the active run is waiting for an answer; use its input-request endpoint")
    c ← frozen_runtime s.runtime_contract
    valid ←
        lift_runtime
          (validate_agent_framework_runtime normalized s.agent_framework c.profile_id c.thinking)
    guard (not (contains (run_ids db.runs) run_id)) duplicate_key
    let r = new_run now run_id s project c
    let m = new_message now message_id run_id s
    ok (
      m,
      r,
      true,
      append_event run_id "run.created" none (created_payload message_id s c r)
          (insert_run r m (with_run now run_id project) db),
    )

  unfoldable pub message_and_run :
      ℕ
      → String
      → String
      → Submission
      → ProjectRecord
      → Option MessageRecord
      → Database
      → Result RepositoryError (MessageRecord × RunRecord × Bool × Database)
  unfolding existing_run fresh_run
  message_and_run now run_id message_id s project none db =
      fresh_run now run_id message_id s project db
  message_and_run now run_id message_id s project (some m) db = existing_run s m db

  unfoldable pub create_message_and_run :
      ℕ
      → String
      → String
      → Submission
      → Database
      → Result RepositoryError (MessageRecord × RunRecord × Bool × Database)
  unfolding message_and_run
  create_message_and_run now run_id message_id s db = do
    guard (contains agent_frameworks s.agent_framework)
        (invalid ("unsupported agent framework: " ++ s.agent_framework))
    project ← require_project now db s.project_id s.session_id
    message_and_run now run_id message_id s project
        (find_message db.messages s.project_id s.client_id) db
