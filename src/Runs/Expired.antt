-- ===== src/Runs/Expired.antt =====
-- The recovery of runs whose lease has expired: `recover_expired_running_runs`. What the call reads
-- of the persisted goal graph of a run is an argument, and its writes there are left out.
pub mod Cleared
use Prim.Native.String.{◌++◌}
use fomo_demo.Prelude.{
  ℕ, String, Bool, true, not, ◌&&◌, ◌||◌, Option, none, some, List, [], ◌∷◌, map, append, ◌==◌,
  keep, any, if◌then◌else◌, leb, ltb, eqb, is_some, is_blank,
}
use fomo_demo.Runs.{
  RunRecord, RunStatus, RunPhase, SandboxResource, ResourceKind, Value, text, Database, is_running,
}
use fomo_demo.Runs.Store.{
  find_run, set_run, find_project, change_project, append_event, advance_project,
}
use fomo_demo.Runs.Lease.{is_live_of}
use fomo_demo.Runs.Ending.{is_cancelled, terminal_event_payload, event_kind, ended}

-- `lease_expires_at is None or lease_expires_at <= cutoff`
abbrev pub expired_at : ℕ → Option ℕ → Bool
expired_at cutoff none = true
expired_at cutoff (some at) = leb at cutoff

unfoldable pub is_abandoned : ℕ → RunRecord → Bool
is_abandoned cutoff r = is_running r.status && expired_at cutoff r.lease_expires_at

-- The goal, the checkpoint and the graph from which a fresh sandbox can go on.
pub record Resumption : Type 0 where
  pub graph_id : String
  pub goal_id : String
  pub checkpoint_id : String
  pub graph_status : String

-- What the goal tables say of a run: a resumption where the run has a valid checkpoint and a graph
-- that is verified or has a current goal, the id of an active graph, and the graph's projection after
-- the run has ended with a status.
pub record GoalView : Type 0 where
  pub resumption : Option Resumption
  pub active_graph : Option String
  pub projection : RunStatus → Value

pub record SandboxCleanupTarget : Type 0 where
  pub run_id : String
  pub project_id : String
  pub sandbox_id : String
  pub resource_id : Option String
  pub kind : Option ResourceKind

-- ordered by `updated_at`, then by `created_at`
abbrev pub changed_before : RunRecord → RunRecord → Bool
changed_before r x =
    ltb r.updated_at x.updated_at || eqb r.updated_at x.updated_at && leb r.created_at x.created_at

unfoldable pub insert_by_change : RunRecord → List RunRecord → List RunRecord
insert_by_change r [] = r ∷ []
insert_by_change r (x ∷ xs) = if changed_before r x then r ∷ x ∷ xs else x ∷ insert_by_change r xs

unfoldable pub by_change : List RunRecord → List RunRecord
unfolding insert_by_change
by_change [] = []
by_change (r ∷ rs) = insert_by_change r (by_change rs)

abbrev pub bare_target : RunRecord → String → SandboxCleanupTarget
bare_target r sandbox_id = record {
  run_id = r.id;
  project_id = r.project_id;
  sandbox_id = sandbox_id;
  resource_id = none;
  kind = none;
}

abbrev pub resource_target : RunRecord → SandboxResource → SandboxCleanupTarget
resource_target r s = record (bare_target r s.sandbox_id) {
  resource_id = some s.id;
  kind = some s.kind;
}

-- the sandbox of a run, where it has one and no resource names it
unfoldable pub legacy_target :
    RunRecord → List SandboxResource → Option String → List SandboxCleanupTarget
legacy_target r resources none = []
legacy_target r resources (some id) =
    if not (is_blank id) && not (any (λ (s : SandboxResource). s.sandbox_id == id) resources)
    then bare_target r id ∷ []
    else []

-- The run that a fresh sandbox resumes.
abbrev pub rescheduled : ℕ → RunRecord → RunRecord
rescheduled now r = record r {
  status = RunStatus.queued;
  phase = RunPhase.queued;
  error_code = none;
  lease_owner = none;
  lease_expires_at = none;
  sandbox_id = none;
  preview_url = none;
  updated_at = now;
}

unfoldable pub reschedule :
    ℕ → Resumption → RunRecord → Database → List SandboxCleanupTarget × Database
unfolding legacy_target
reschedule now s r db =
    let resources = keep (is_live_of r) db.resources in
    (
      append (map (resource_target r) resources) (legacy_target r resources r.sandbox_id),
      append_event r.id "goal.resume_scheduled" none
          (("graphId", text s.graph_id)
            ∷ ("goalId", text s.goal_id)
            ∷ ("checkpointId", text s.checkpoint_id)
            ∷ ("graphStatus", text s.graph_status)
            ∷ [])
          (change_project (find_project db.projects r.project_id) (some r.id) "queued" now
            (set_run (rescheduled now r) db)),
    )

-- A cancellation that was requested wins over the lost lease.
abbrev pub lost_status : RunRecord → RunStatus
lost_status r = if is_some r.cancel_requested_at then RunStatus.cancelled else RunStatus.failed

abbrev pub lost_code : RunRecord → Option String
lost_code r = if is_some r.cancel_requested_at then none else some "worker_lease_expired"

abbrev pub lost_summary : RunRecord → String
lost_summary r =
    if is_some r.cancel_requested_at
    then "Cancelled after the worker lease expired."
    else "The worker lease expired before the run completed."

abbrev pub graph_target : RunRecord → String
graph_target r = if is_some r.cancel_requested_at then "cancelled" else "failed"

unfoldable pub graph_ended : RunRecord → GoalView → Option String → Database → Database
graph_ended r v none db = db
graph_ended r v (some graph_id) db =
    append_event r.id ("goal_graph." ++ graph_target r) none
      (("graphId", text graph_id)
        ∷ ("status", text (graph_target r))
        ∷ ("reason", text "worker lease expired")
        ∷ ("goalGraph", v.projection (lost_status r))
        ∷ [])
      db

-- the sandbox that goes with the run: a failed run keeps one with a preview
unfoldable pub ended_target : RunRecord → RunStatus → Option String → List SandboxCleanupTarget
ended_target r status none = []
ended_target r status (some id) =
    if not (is_blank id) && (is_cancelled status || not (is_some r.preview_url))
    then bare_target r id ∷ []
    else []

unfoldable pub give_up : ℕ → GoalView → RunRecord → Database → List SandboxCleanupTarget × Database
unfolding graph_ended ended_target terminal_event_payload
give_up now v r db =
    let new = ended now (lost_status r) (lost_code r) r in
    (
      ended_target r (lost_status r) r.sandbox_id,
      advance_project now new (
          append_event r.id (event_kind (lost_status r)) none
            (terminal_event_payload (lost_status r) (lost_code r) (lost_summary r))
            (graph_ended r v v.active_graph (set_run new db))),
    )

-- where the run can be resumed and its cancellation is not requested
abbrev pub resumption_of : GoalView → RunRecord → Option Resumption
resumption_of v r = if is_some r.cancel_requested_at then none else v.resumption

unfoldable pub recover_by :
    ℕ → GoalView → Option Resumption → RunRecord → Database → List SandboxCleanupTarget × Database
unfolding reschedule give_up
recover_by now v none r db = give_up now v r db
recover_by now v (some s) r db = reschedule now s r db

-- A candidate whose row has changed since is passed over.
unfoldable pub recover_row :
    ℕ → ℕ → (String → GoalView) → Option RunRecord → Database → List SandboxCleanupTarget × Database
unfolding recover_by is_abandoned
recover_row now cutoff goals none db = ([], db)
recover_row now cutoff goals (some r) db =
    if is_abandoned cutoff r
    then recover_by now (goals r.id) (resumption_of (goals r.id) r) r db
    else ([], db)

unfoldable pub recover_each :
    ℕ → ℕ → (String → GoalView) → List RunRecord → Database → List SandboxCleanupTarget × Database
unfolding recover_row
recover_each now cutoff goals [] db = ([], db)
recover_each now cutoff goals (r ∷ rs) db =
    let one = recover_row now cutoff goals (find_run db.runs r.id) db in
    let others = recover_each now cutoff goals rs one.1 in (append one.0 others.0, others.1)

unfoldable pub recover_expired_running_runs :
    ℕ → ℕ → (String → GoalView) → Database → List SandboxCleanupTarget × Database
unfolding recover_each
recover_expired_running_runs now cutoff goals db =
    recover_each now cutoff goals (by_change (keep (is_abandoned cutoff) db.runs)) db
