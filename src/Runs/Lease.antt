-- ===== src/Runs/Lease.antt =====
-- The lease of a run: `claim_next_run`, `renew_lease` and the read-only checks.
pub mod Fairness
use fomo_demo.Prelude.{
  ◌*◌, ℕ, ◌+◌, String, Bool, true, false, not, ◌&&◌, ◌||◌, Option, none, some, List, ◌==◌, Result,
  ok, err, guard, ◌>>◌, keep, first, any, if◌then◌else◌, ltb, is_some, is_blank,
}
use fomo_demo.Runs.{
  RunRecord, RunStatus, RunPhase, SandboxResource, ResourceKind, Database, RepositoryError, invalid,
  lease_lost, is_running, is_waiting, is_queued,
}
use fomo_demo.Runs.Store.{
  find_run, set_run, find_project, change_project, status_changed, holds_lease, expires_after,
  by_age,
}

abbrev pub is_generation : ResourceKind → Bool
is_generation ResourceKind.generation = true
is_generation _ = false

abbrev pub is_live_of : RunRecord → SandboxResource → Bool
is_live_of r s = s.run_id == r.id && not (is_some s.cleaned_at)

-- `RunSandboxResourceRecord.sandbox_id == RunRecord.sandbox_id`
abbrev pub same_sandbox : Option String → String → Bool
same_sandbox none id = false
same_sandbox (some s) id = s == id

-- `exact_continuation_resource`
abbrev pub is_exact : RunRecord → SandboxResource → Bool
is_exact r s = is_live_of r s && is_generation s.kind && same_sandbox r.sandbox_id s.sandbox_id

-- `conflicting_continuation_resource`, of a run with a sandbox
abbrev pub is_conflicting : RunRecord → SandboxResource → Bool
is_conflicting r s =
    is_live_of r s && (not (is_generation s.kind) || not (same_sandbox r.sandbox_id s.sandbox_id))

unfoldable pub resumable_continuation : List SandboxResource → RunRecord → Bool
resumable_continuation resources r =
    is_some r.continuation_request_id
    && is_some r.sandbox_id
    && any (is_exact r) resources
    && not (any (is_conflicting r) resources)

-- the candidates of both queries
unfoldable pub is_candidate : List SandboxResource → RunRecord → Bool
unfolding resumable_continuation
is_candidate resources r =
    is_queued r.status && (not (any (is_live_of r) resources) || resumable_continuation resources r)

-- a run that counts in `active_writer_count`
abbrev pub is_other_writer : RunRecord → RunRecord → Bool
is_other_writer r w =
    w.project_id == r.project_id
    && not (w.id == r.id)
    && (is_running w.status || is_waiting w.status)

-- the first candidate whose project has no other writer
unfoldable pub next_claimable : Database → Option RunRecord
unfolding is_candidate
next_claimable db =
    first (λ (r : RunRecord). not (any (is_other_writer r) db.runs))
      (by_age (keep (is_candidate db.resources) db.runs))

unfoldable pub has_claimable_run : Database → Bool
unfolding next_claimable
has_claimable_run db = is_some (next_claimable db)

-- `execution_started_at`: reset on a continuation, else kept once set
abbrev pub execution_start : RunRecord → ℕ → Option ℕ
execution_start r now =
    if is_some r.continuation_request_id || not (is_some r.execution_started_at)
    then some now
    else r.execution_started_at

-- `timedelta(seconds=…)`
abbrev pub microseconds : ℕ → ℕ
microseconds seconds = seconds * 1000000

-- An UPDATE of a run also sets its `updated_at`.
abbrev pub claimed : ℕ → ℕ → String → RunRecord → RunRecord
claimed now lease_seconds token r = record r {
  status = RunStatus.running;
  phase = RunPhase.product_analysis;
  execution_started_at = execution_start r now;
  lease_owner = some token;
  lease_expires_at = some (now + microseconds lease_seconds);
  updated_at = now;
}

unfoldable pub claim_of : ℕ → ℕ → String → Option RunRecord → Database → Option RunRecord × Database
claim_of now lease_seconds token none db = (none, db)
claim_of now lease_seconds token (some r) db =
    let new = claimed now lease_seconds token r in
    (
      some new,
      status_changed new (
          change_project (find_project db.projects r.project_id) (some r.id) "running" now
            (set_run new db)),
    )

-- `token` is the lease token that `uuid7()` gives.
unfoldable pub claim_next_run : ℕ → ℕ → String → Database → Option RunRecord × Database
unfolding claim_of next_claimable
claim_next_run now lease_seconds token db = claim_of now lease_seconds token (next_claimable db) db

unfoldable pub renew_of : ℕ → ℕ → String → Option RunRecord → Database → Bool × Database
unfolding holds_lease
renew_of now lease_seconds token none db = (false, db)
renew_of now lease_seconds token (some r) db =
    if holds_lease now token r
    then (
      true,
      set_run
          (record r {
            lease_expires_at = some (now + microseconds lease_seconds);
            updated_at = now;
          })
          db,
    )
    else (false, db)

unfoldable pub renew_lease :
    ℕ → String → String → ℕ → Database → Result RepositoryError (Bool × Database)
unfolding renew_of
renew_lease now run_id token lease_seconds db = do
  guard (ltb 0 lease_seconds) (invalid "worker lease must be positive")
  ok (renew_of now lease_seconds token (find_run db.runs run_id) db)

unfoldable pub is_active_lease : ℕ → String → String → Database → Bool
unfolding holds_lease
is_active_lease now run_id token db =
    any (λ (r : RunRecord). r.id == run_id && holds_lease now token r) db.runs

active_token : ℕ → Option RunRecord → Result RepositoryError String
active_token now none = err lease_lost
active_token now (some r) = token_of r.lease_owner
  where
    token_of : Option String → Result RepositoryError String
    token_of none = err lease_lost
    token_of (some token) =
        if is_running r.status && not (is_blank token) && expires_after r.lease_expires_at now
        then ok token
        else err lease_lost

unfoldable pub get_active_lease_token : ℕ → String → Database → Result RepositoryError String
unfolding active_token
get_active_lease_token now run_id db = active_token now (find_run db.runs run_id)
