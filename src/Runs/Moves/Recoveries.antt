-- ===== src/Runs/Moves/Recoveries.antt =====
-- The run that recovers another as an allowed change of the table of runs.
use fomo_demo.Prelude.{
  ℕ, String, not, ◌&&◌, ◌≡◌, refl, sym, Option, none, some, List, contains, ok, ◌==◌, >>=-eq-ok,
  >>-eq-ok, ok_inj, not→false,
}
use fomo_demo.Runs.{RunRecord, Database, MessageRecord, ProjectRecord, conflict, inconsistent}
use fomo_demo.Runtime.Frameworks.{validate_agent_framework_runtime}
use fomo_demo.Runs.Access.{require_project}
use fomo_demo.Runs.Store.{find_run, run_ids, locked_run, or_raise}
use fomo_demo.Runs.Create.{lift_runtime, runtime_differs}
use fomo_demo.Runs.Sandbox.{is_unsuccessful}
use fomo_demo.Runs.Fork.{
  RecoveryRequest, CheckpointView, Recovery, existing_recovery, framework_differs, is_named,
  fresh_recovery, recovery_of, create_recovery_message_and_run, recovery_prompt,
  recoverable_checkpoint, verified_base_version, agent_framework_value, chosen, chosen_runtime,
  recovery_run, submission_of,
}
use fomo_demo.Runs.Moves.{Moves, done, create}

existing_recovery-tables :
    (q : RecoveryRequest) (source : RunRecord) (m : MessageRecord) (db : Database)
    (result : Recovery)
    → existing_recovery q source m db ≡ ok result
    → result.tables ≡ db
unfolding existing_recovery
existing_recovery-tables q source m db result h =
    let (run_id, a1, h1) =
      >>=-eq-ok (or_raise m.run_id (inconsistent "idempotent recovery message is missing its run"))
        _ h in
    let (r, a2, h2) =
      >>=-eq-ok
        (or_raise (find_run db.runs run_id)
          (inconsistent "idempotent recovery message points to a missing run"))
        _ h1 in
    let (a3, h3) =
      >>-eq-ok (m.content == q.content && is_named r.recovered_from_run_id source.id) _ _ h2 in
    let (other_runtime, a4, h4) =
      >>=-eq-ok (runtime_differs q.enforce_runtime q.runtime_contract r) _ h3 in
    let (a5, h5) = >>-eq-ok (not other_runtime) _ _ h4 in
    let (other_framework, a6, h6) =
      >>=-eq-ok (framework_differs q.enforce_framework q.agent_framework r) _ h5 in
    let (a7, h7) = >>-eq-ok (not other_framework) _ _ h6 in
    let (mode, a8, e) =
      >>=-eq-ok
        (or_raise r.recovery_mode
          (conflict "Idempotency-Key was already used with a different request"))
        _ h7 in
    rw (sym (ok_inj e)) refl

module _ (normalized : String → String) (str : ℕ → String) where
  fresh_recovery-Moves :
      (issued : List String) (now : ℕ) (run_id message_id : String) (q : RecoveryRequest)
      (checkpoints : CheckpointView) (source : RunRecord) (project : ProjectRecord) (db : Database)
      (result : Recovery)
      → fresh_recovery normalized str now run_id message_id q checkpoints source project db
        ≡ ok result
      → Moves issued db.runs result.tables.runs
  unfolding fresh_recovery
  fresh_recovery-Moves issued now run_id message_id q checkpoints source project db result h =
      let (a1, h1) = >>-eq-ok (is_unsuccessful source.status) _ _ h in
      let (prompt, a2, h2) = >>=-eq-ok (recovery_prompt str db source q.content) _ h1 in
      let (checkpoint, a3, h3) = >>=-eq-ok (recoverable_checkpoint checkpoints) _ h2 in
      let (framework, a4, h4) =
        >>=-eq-ok (agent_framework_value (chosen q.agent_framework source.agent_framework)) _ h3 in
      let (c, a5, h5) = >>=-eq-ok (chosen_runtime q.runtime_contract source) _ h4 in
      let (valid_runtime, a6, h6) =
        >>=-eq-ok
          (lift_runtime
            (validate_agent_framework_runtime normalized framework c.profile_id c.thinking))
          _ h5 in
      let (fresh, e) = >>-eq-ok (not (contains (run_ids db.runs) run_id)) _ _ h6 in
      let new : RunRecord =
        recovery_run now run_id (submission_of q source framework) project c source checkpoint
          (verified_base_version db source) in
      rw (sym (ok_inj e)) (create new (not→false _ fresh) refl refl refl (done _))

  recovery_of-Moves :
      (issued : List String) (now : ℕ) (run_id message_id : String) (q : RecoveryRequest)
      (checkpoints : CheckpointView) (source : RunRecord) (project : ProjectRecord)
      (m : Option MessageRecord) (db : Database) (result : Recovery)
      → recovery_of normalized str now run_id message_id q checkpoints source project m db
        ≡ ok result
      → Moves issued db.runs result.tables.runs
  unfolding recovery_of
  recovery_of-Moves issued now run_id message_id q checkpoints source project none db result h =
      fresh_recovery-Moves issued now run_id message_id q checkpoints source project db result h
  recovery_of-Moves issued now run_id message_id q checkpoints source project (some m) db result h =
      rw (existing_recovery-tables q source m db result h) (done db.runs)

  pub create_recovery_message_and_run-Moves :
      (issued : List String) (now : ℕ) (run_id message_id : String) (q : RecoveryRequest)
      (checkpoints : CheckpointView) (db : Database) (result : Recovery)
      → create_recovery_message_and_run normalized str now run_id message_id q checkpoints db
        ≡ ok result
      → Moves issued db.runs result.tables.runs
  unfolding create_recovery_message_and_run
  create_recovery_message_and_run-Moves issued now run_id message_id q checkpoints db result h =
      let (source, a1, h1) = >>=-eq-ok (locked_run db q.source_run_id) _ h in
      let (project, a2, h2) =
        >>=-eq-ok (require_project now db source.project_id q.session_id) _ h1 in
      recovery_of-Moves issued now run_id message_id q checkpoints source project _ db result h2
