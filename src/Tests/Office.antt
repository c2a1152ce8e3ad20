-- ===== src/Tests/Office.antt =====
-- A project with a running, a queued and an ended run.
use fomo_demo.Prelude.{none, some, [], ◌∷◌}
use fomo_demo.Runtime.Contract.{columns_of, legacy_runtime_contract}
use fomo_demo.Runs.{RunRecord, RunStatus, RunPhase, SessionKind, ProjectRecord, Database}

abbrev pub queued_run : RunRecord
queued_run = record {
  id = "r2";
  project_id = "p1";
  base_version_id = none;
  status = RunStatus.queued;
  phase = RunPhase.queued;
  repair_round = 0;
  cancel_requested_at = none;
  error_code = none;
  agent_framework = "pi";
  runtime = columns_of legacy_runtime_contract;
  lease_owner = none;
  lease_expires_at = none;
  sandbox_id = none;
  pi_session_id = none;
  continuation_request_id = none;
  continuation_key = none;
  continuation_stage = none;
  continuation_goal_id = none;
  continuation_context = none;
  preview_url = none;
  execution_started_at = none;
  recovered_from_run_id = none;
  recovered_from_goal_id = none;
  recovered_from_checkpoint_id = none;
  recovery_mode = none;
  created_at = 5;
  updated_at = 5;
}

abbrev pub running_run : RunRecord
running_run = record queued_run {
  id = "r1";
  status = RunStatus.running;
  phase = RunPhase.building;
  lease_owner = some "t1";
  lease_expires_at = some 100;
  created_at = 3;
}

abbrev pub ended_run : RunRecord
ended_run = record queued_run { id = "r0"; status = RunStatus.failed; created_at = 1 }

abbrev pub garden : ProjectRecord
garden = record {
  id = "p1";
  owner_session_id = "s1";
  title = "Site";
  head_version_id = none;
  active_run_id = some "r1";
  status = "running";
  updated_at = 3;
}

abbrev pub office : Database
office = record {
  users =
      record {
        id = "u1";
        email = "a@example.org";
        display_name = "a";
        password_hash = "";
        created_at = 0;
        updated_at = 0;
      }
      ∷ [];
  sessions =
      record {
        id = "s1";
        kind = SessionKind.user;
        user_id = some "u1";
        expires_at = 1000;
        revoked_at = none;
      }
      ∷ [];
  runs = queued_run ∷ running_run ∷ ended_run ∷ [];
  projects = garden ∷ [];
  messages = [];
  requests = [];
  resources = [];
  events = [];
  versions = [];
  version_files = [];
  traces = [];
}

-- the project once its running run is gone
abbrev pub quiet_office : Database
quiet_office = record office { runs = queued_run ∷ ended_run ∷ [] }
