-- ===== src/Runs/Moves/Submissions.antt =====
-- A new run and the sandboxes of a run as allowed changes of the table of runs.
use Prim.Native.String.{count}
use fomo_demo.Prelude.{
  ℕ, String, Bool, not, ◌&&◌, ◌||◌, ltb, is_blank, ◌≡◌, refl, sym, inl, inr, Option, none, some,
  List, contains, ok, ◌==◌, >>=-eq-ok, >>-eq-ok, ok_inj, Distinct, Bool-cases, not→false,
}
use fomo_demo.Runtime.Frameworks.{agent_frameworks, validate_agent_framework_runtime}
use fomo_demo.Runs.{
  RunRecord, Database, MessageRecord, ProjectRecord, ResourceKind, SandboxResource, inconsistent,
}
use fomo_demo.Runs.Access.{require_project}
use fomo_demo.Runs.Store.{find_run, run_ids, run_for_write, or_raise}
use fomo_demo.Runs.Create.{
  Submission, create_message_and_run, message_and_run, fresh_run, existing_run, runtime_differs,
  new_run, frozen_runtime, lift_runtime, is_waiting_run, active_run, same_base,
}
use fomo_demo.Runs.Sandbox.{
  acknowledged, register_sandbox_resource, registered, clear_sandbox_id, forget_sandbox,
  acknowledge_sandbox_cleanup, find_resource,
}
use fomo_demo.Runs.Lease.{same_sandbox}
use fomo_demo.Runs.Moves.{RespectsCancel-kept, keeps, Moves, done, change, create}
use fomo_demo.Runs.Moves.Rows.{find_run-In}
use fomo_demo.Runs.Moves.Fence.{write-Moves, Locked, unfenced, under, run_for_write-Locked}

existing_run-runs :
    (s : Submission) (m : MessageRecord) (db : Database)
    (result : MessageRecord × RunRecord × Bool × Database)
    → existing_run s m db ≡ ok result
    → result.3 ≡ db
unfolding existing_run
existing_run-runs s m db result h =
    let (run_id, a1, h1) =
      >>=-eq-ok (or_raise m.run_id (inconsistent "idempotent message is missing its run")) _ h in
    let (r, a2, h2) =
      >>=-eq-ok
        (or_raise (find_run db.runs run_id)
          (inconsistent "idempotent message points to a missing run"))
        _ h1 in
    let (a3, h3) =
      >>-eq-ok (m.content == s.content && same_base s.base_version_id r.base_version_id) _ _ h2 in
    let (differs, a4, h4) =
      >>=-eq-ok (runtime_differs s.enforce_runtime s.runtime_contract r) _ h3 in
    let (a5, e) =
      >>-eq-ok
        (not (differs || s.enforce_framework && not (r.agent_framework == s.agent_framework))) _ _
        h4 in
    rw (sym (ok_inj e)) refl

module _ (normalized : String → String) where
  fresh_run-Moves :
      (issued : List String) (now : ℕ) (run_id message_id : String) (s : Submission)
      (project : ProjectRecord) (db : Database)
      (result : MessageRecord × RunRecord × Bool × Database)
      → fresh_run normalized now run_id message_id s project db ≡ ok result
      → Moves issued db.runs result.3.runs
  unfolding fresh_run
  fresh_run-Moves issued now run_id message_id s project db result h =
      let (a1, h1) = >>-eq-ok (not (is_waiting_run (active_run db project.active_run_id))) _ _ h in
      let (c, a2, h2) = >>=-eq-ok (frozen_runtime s.runtime_contract) _ h1 in
      let (valid, a3, h3) =
        >>=-eq-ok
          (lift_runtime
            (validate_agent_framework_runtime normalized s.agent_framework c.profile_id c.thinking))
          _ h2 in
      let (fresh, e) = >>-eq-ok (not (contains (run_ids db.runs) run_id)) _ _ h3 in
      rw (sym (ok_inj e))
        (create (new_run now run_id s project c) (not→false _ fresh) refl refl refl (done _))

  message_and_run-Moves :
      (issued : List String) (now : ℕ) (run_id message_id : String) (s : Submission)
      (project : ProjectRecord) (m : Option MessageRecord) (db : Database)
      (result : MessageRecord × RunRecord × Bool × Database)
      → message_and_run normalized now run_id message_id s project m db ≡ ok result
      → Moves issued db.runs result.3.runs
  unfolding message_and_run
  message_and_run-Moves issued now run_id message_id s project none db result h =
      fresh_run-Moves issued now run_id message_id s project db result h
  message_and_run-Moves issued now run_id message_id s project (some m) db result h =
      rw (existing_run-runs s m db result h) (done db.runs)

  pub create_message_and_run-Moves :
      (issued : List String) (now : ℕ) (run_id message_id : String) (s : Submission) (db : Database)
      (result : MessageRecord × RunRecord × Bool × Database)
      → create_message_and_run normalized now run_id message_id s db ≡ ok result
      → Moves issued db.runs result.3.runs
  unfolding create_message_and_run
  create_message_and_run-Moves issued now run_id message_id s db result h =
      let (a1, h1) = >>-eq-ok (contains agent_frameworks s.agent_framework) _ _ h in
      let (project, a2, h2) = >>=-eq-ok (require_project now db s.project_id s.session_id) _ h1 in
      message_and_run-Moves issued now run_id message_id s project _ db result h2

-- The fence alone.
fence-Moves :
    (issued : List String) (now : ℕ) (id : String) (token : Option String) (db : Database)
    (locked : RunRecord × Database)
    → Locked now id db token locked
    → Moves issued db.runs locked.1.runs
fence-Moves issued now id _ db _ (unfenced r f) = done db.runs
fence-Moves issued now id _ db _ (under token old f held) =
    change old (record old { updated_at = now }) (find_run-In db.runs id old f).0 refl refl
      (RespectsCancel-kept _ _ refl refl) (keeps refl refl refl) (done _)

registered-runs :
    (now : ℕ) (id run_id sandbox_id : String) (kind : ResourceKind) (s : Option SandboxResource)
    (db : Database)
    → (registered now id run_id sandbox_id kind s db).1.runs ≡ db.runs
unfolding registered
registered-runs now id run_id sandbox_id kind none db = refl
registered-runs now id run_id sandbox_id kind (some s) db = refl

pub register_sandbox_resource-Moves :
    (strip : String → String) (issued : List String) (now : ℕ) (id run_id sandbox_id : String)
    (kind : ResourceKind) (token : String) (db : Database) (result : String × Database)
    → register_sandbox_resource strip now id run_id sandbox_id kind token db ≡ ok result
    → Moves issued db.runs result.1.runs
unfolding register_sandbox_resource
register_sandbox_resource-Moves strip issued now id run_id sandbox_id kind token db result h =
    let (a1, h1) =
      >>-eq-ok (not (is_blank (strip sandbox_id) || ltb 128 (count sandbox_id))) _ _ h in
    let (locked, w, e) = >>=-eq-ok (run_for_write now run_id (some token) db) _ h1 in
    rw
      (
        sym (ok_inj e),
        registered-runs now id run_id sandbox_id kind
            (find_resource db.resources run_id sandbox_id kind) locked.1,
      )
      (fence-Moves issued now run_id (some token) db locked
        (run_for_write-Locked now run_id (some token) db locked w))

forget_sandbox-Moves :
    (issued : List String) (now : ℕ) (sandbox_id id : String) (o : Option RunRecord) (db : Database)
    → find_run db.runs id ≡ o
    → Moves issued db.runs (forget_sandbox now sandbox_id o db).1.runs
unfolding forget_sandbox
forget_sandbox-Moves issued now sandbox_id id none db f = done db.runs
forget_sandbox-Moves issued now sandbox_id id (some r) db f =
    elim (Bool-cases (same_sandbox r.sandbox_id sandbox_id)) [
      | inr e ↦ rw e (done db.runs)
      | inl e ↦ rw e (
          change r (record r { sandbox_id = none; updated_at = now }) (find_run-In db.runs id r f).0
            refl refl (RespectsCancel-kept _ _ refl refl) (keeps refl refl refl) (done _))
    ]

forget_locked-Moves :
    (issued : List String) (now : ℕ) (sandbox_id id : String) (token : Option String)
    (db : Database) (locked : RunRecord × Database)
    → run_for_write now id token db ≡ ok locked
    → Distinct (run_ids db.runs)
    → Moves issued db.runs (forget_sandbox now sandbox_id (some locked.0) locked.1).1.runs
unfolding forget_sandbox
forget_locked-Moves issued now sandbox_id id token db locked w d =
    elim (Bool-cases (same_sandbox locked.0.sandbox_id sandbox_id)) [
      | inr e ↦ rw e (
          fence-Moves issued now id token db locked (run_for_write-Locked now id token db locked w))
      | inl e ↦ rw e (
          write-Moves issued now id token db locked
            (record locked.0 { sandbox_id = none; updated_at = now }) w d refl refl
            (RespectsCancel-kept _ _ refl refl) (keeps refl refl refl))
    ]

pub clear_sandbox_id-Moves :
    (issued : List String) (now : ℕ) (id sandbox_id : String) (token : Option String)
    (db : Database) (result : Bool × Database)
    → clear_sandbox_id now id sandbox_id token db ≡ ok result
    → Distinct (run_ids db.runs)
    → Moves issued db.runs result.1.runs
unfolding clear_sandbox_id
clear_sandbox_id-Moves issued now id sandbox_id none db result h d =
    rw (sym (ok_inj h))
      (forget_sandbox-Moves issued now sandbox_id id (find_run db.runs id) db refl)
clear_sandbox_id-Moves issued now id sandbox_id (some token) db result h d =
    let (locked, w, e) = >>=-eq-ok (run_for_write now id (some token) db) _ h in
    rw (sym (ok_inj e)) (forget_locked-Moves issued now sandbox_id id (some token) db locked w d)

acknowledged-runs :
    (now : ℕ) (o : Option SandboxResource) (db : Database)
    → (acknowledged now o db).1.runs ≡ db.runs
unfolding acknowledged
acknowledged-runs now none db = refl
acknowledged-runs now (some s) db = refl

pub acknowledge_sandbox_cleanup-runs :
    (now : ℕ) (id : String) (db : Database)
    → (acknowledge_sandbox_cleanup now id db).1.runs ≡ db.runs
unfolding acknowledge_sandbox_cleanup
acknowledge_sandbox_cleanup-runs now id db = acknowledged-runs now _ db
