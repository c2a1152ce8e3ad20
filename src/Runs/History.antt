-- ===== src/Runs/History.antt =====
-- Sequences of calls of the repository, each a transaction that leaves the tables as they were where it
-- raises: the methods that change the status or the lease of a run, or create one, and those that
-- change its progress and its sandboxes. The calls that are left out change other tables, or of a
-- run only its preview and the time of its last change.
pub mod Steps
pub mod Guarantees
use fomo_demo.Prelude.{ℕ, String, Option, none, List, [], ◌∷◌, ◌++◌, Result, ok, err}
use fomo_demo.Runs.{RunStatus, RunPhase, ResourceKind, Database, RepositoryError}
use fomo_demo.Runs.Lease.{claim_next_run, renew_lease}
use fomo_demo.Runs.Ending.{request_cancel, mark_terminal}
use fomo_demo.Runs.Input.{RequestDraft, Continuation, wait_for_user_input}
use fomo_demo.Runs.Answer.{answer_user_input, complete_run_continuation}
use fomo_demo.Runs.Phase.{
  set_run_phase, increment_repair_round, set_sandbox_id, set_preview_url, ensure_pi_session_id,
}
use fomo_demo.Runs.Sandbox.{
  register_sandbox_resource, acknowledge_sandbox_cleanup, clear_sandbox_id,
}
use fomo_demo.Runs.Create.{Submission, create_message_and_run}
use fomo_demo.Runs.Publish.{Publication, finalize_verified_publish}
use fomo_demo.Runs.Expired.{GoalView, recover_expired_running_runs}
use fomo_demo.Runs.Fork.{RecoveryRequest, CheckpointView, Recovery, create_recovery_message_and_run}

-- A call at a time, with the ids that `uuid7()` gives during it.
pub data RepositoryCall : Type 0 where
  submit : ℕ → String → String → Submission → RepositoryCall
  claim : ℕ → ℕ → String → RepositoryCall
  renew : ℕ → String → String → ℕ → RepositoryCall
  cancel : ℕ → String → RepositoryCall
  finish : ℕ → String → RunStatus → Option String → Option String → Option String → RepositoryCall
  ask : ℕ → String → String → RequestDraft → Continuation → String → RepositoryCall
  answer : ℕ → String → String → String → String → String → String → RepositoryCall
  go_on : ℕ → String → String → String → RepositoryCall
  enter_phase : ℕ → String → RunPhase → Option String → RepositoryCall
  repair_again : ℕ → String → RunPhase → Option String → RepositoryCall
  use_sandbox : ℕ → String → String → Option String → RepositoryCall
  show_preview : ℕ → String → Option String → Option String → RepositoryCall
  use_session : ℕ → String → String → String → RepositoryCall
  add_sandbox : ℕ → String → String → String → ResourceKind → String → RepositoryCall
  clean_sandbox : ℕ → String → RepositoryCall
  drop_sandbox : ℕ → String → String → Option String → RepositoryCall
  publish : ℕ → String → String → Publication → RepositoryCall
  recover_expired : ℕ → ℕ → (String → GoalView) → RepositoryCall
  fork : ℕ → String → String → RecoveryRequest → CheckpointView → RepositoryCall

-- The lease tokens that a call and a sequence of calls issue.
abbrev pub token_of : RepositoryCall → List String
token_of (claim now lease_seconds token) = token ∷ []
token_of _ = []

abbrev pub tokens_of : List RepositoryCall → List String
tokens_of [] = []
tokens_of (c ∷ cs) = token_of c ++ tokens_of cs

abbrev pub committed :
    {A : Type 0} → (A → Database) → Database → Result RepositoryError A → Database
committed tables before (ok a) = tables a
committed tables before (err e) = before

module _ (byte_count : String → ℕ) (strip normalized : String → String) (str : ℕ → String) where
  unfoldable pub perform_call : RepositoryCall → Database → Database
  perform_call (submit now run_id message_id s) db =
      committed (λ r. r.3) db (create_message_and_run normalized now run_id message_id s db)
  perform_call (claim now lease_seconds token) db = (claim_next_run now lease_seconds token db).1
  perform_call (renew now id token lease_seconds) db =
      committed (λ r. r.1) db (renew_lease now id token lease_seconds db)
  perform_call (cancel now id) db = committed (λ r. r) db (request_cancel now id db)
  perform_call (finish now id status code summary token) db =
      committed (λ r. r) db (mark_terminal now id status code summary token db)
  perform_call (ask now request_id id draft c token) db =
      committed (λ r. r.1) db (wait_for_user_input byte_count now request_id id draft c token db)
  perform_call (answer now message_id id request_id session_id client_id text) db =
      committed (λ r. r.2) db
        (answer_user_input strip now message_id id request_id session_id client_id text db)
  perform_call (go_on now id request_id token) db =
      committed (λ r. r) db (complete_run_continuation now id request_id token db)
  perform_call (enter_phase now id phase token) db =
      committed (λ r. r) db (set_run_phase now id phase none token db)
  perform_call (repair_again now id phase token) db =
      committed (λ r. r.1) db (increment_repair_round now id phase token db)
  perform_call (use_sandbox now id sandbox_id token) db =
      committed (λ r. r) db (set_sandbox_id now id sandbox_id token db)
  perform_call (show_preview now id url token) db =
      committed (λ r. r) db (set_preview_url now id url token db)
  perform_call (use_session now id proposed token) db =
      committed (λ r. r.1) db (ensure_pi_session_id now id proposed token db)
  perform_call (add_sandbox now resource_id id sandbox_id kind token) db =
      committed (λ r. r.1) db
        (register_sandbox_resource strip now resource_id id sandbox_id kind token db)
  perform_call (clean_sandbox now resource_id) db =
      (acknowledge_sandbox_cleanup now resource_id db).1
  perform_call (drop_sandbox now id sandbox_id token) db =
      committed (λ r. r.1) db (clear_sandbox_id now id sandbox_id token db)
  perform_call (publish now id token p) db =
      committed (λ r. r.1) db (finalize_verified_publish str now id token p db)
  perform_call (recover_expired now cutoff goals) db =
      (recover_expired_running_runs now cutoff goals db).1
  perform_call (fork now run_id message_id q checkpoints) db =
      committed (λ r. r.tables) db
        (create_recovery_message_and_run normalized str now run_id message_id q checkpoints db)

  unfoldable pub perform_all : List RepositoryCall → Database → Database
  perform_all [] db = db
  perform_all (c ∷ cs) db = perform_all cs (perform_call c db)
