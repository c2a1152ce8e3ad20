-- ===== src/Runs/Moves/Questions.antt =====
-- A question to the user, its answer and the resumption as allowed changes of the table of runs.
use Prim.Native.String.{count}
use fomo_demo.Prelude.{
  ℕ, String, Bool, true, not, ◌&&◌, ◌||◌, ltb, leb, is_blank, ◌≡◌, refl, sym, Option, none, some,
  List, [], ◌∷◌, contains, ok, >>=-eq-ok, >>-eq-ok, ok_inj, Distinct, is_some, ◌==◌, arith,
  and_left,
}
use fomo_demo.Runs.{
  RunRecord, RunStatus, Database, InputRequestRecord, MessageRecord, conflict, not_found,
  is_running, is_waiting,
}
use fomo_demo.Runs.Access.{require_project}
use fomo_demo.Runs.Store.{
  find_run, put_run, set_run, run_ids, run_for_write, locked_run, find_project, find_request,
  pending_request, or_raise, is_open_request, holds_lease, leased_under,
}
use fomo_demo.Runs.Input.{
  RequestDraft, Continuation, wait_for_user_input, suspend, new_request, waiting, add_request,
  is_bounded_goal, same_text, same_or_unset,
}
use fomo_demo.Runs.Answer.{
  answer_user_input, complete_run_continuation, resume, first_answer, answer_once, repeated,
  requeued, resumed, answer_content, answer_message, is_answered,
}
use fomo_demo.Runs.Moves.{
  RespectsCancel-kept, RespectsCancel-alive, keeps, leaves, Moves, done, change, may_leave,
}
use fomo_demo.Runs.Moves.Rows.{find_run-In}
use fomo_demo.Runs.Moves.Fence.{write-Moves, or_raise-eq-ok, Locked, under, run_for_write-Locked}
use fomo_demo.Runs.Moves.Operations.{change_project-runs}

-- Under a token the fence gives a running run.
pub Locked-running :
    (now : ℕ) (id token : String) (db : Database) (locked : RunRecord × Database)
    → Locked now id db (some token) locked
    → is_running locked.0.status ≡ true
unfolding holds_lease
Locked-running now id token db _ (under _ old f held) =
    and_left (is_running old.status) _
      (and_left (is_running old.status && leased_under old.lease_owner token) _ held)

running_may_wait :
    (s : RunStatus) → is_running s ≡ true → may_leave s RunStatus.waiting_for_user ≡ true
running_may_wait s h = ground arith

waiting_may_queue : (s : RunStatus) → is_waiting s ≡ true → may_leave s RunStatus.queued ≡ true
waiting_may_queue s h = ground arith

pub suspend-runs :
    (now : ℕ) (q : InputRequestRecord) (new : RunRecord) (db : Database)
    → (suspend now q new db).runs ≡ put_run new db.runs
unfolding suspend
suspend-runs now q new db =
    change_project-runs (find_project db.projects new.project_id) (some new.id) "waiting_for_user"
      now (set_run new (add_request q db))

pub wait_for_user_input-Moves :
    (byte_count : String → ℕ) (issued : List String) (now : ℕ) (request_id id : String)
    (draft : RequestDraft) (c : Continuation) (token : String) (db : Database)
    (result : InputRequestRecord × Database)
    → wait_for_user_input byte_count now request_id id draft c token db ≡ ok result
    → Distinct (run_ids db.runs)
    → Moves issued db.runs result.1.runs
unfolding wait_for_user_input
wait_for_user_input-Moves byte_count issued now request_id id draft c token db result h d =
    let (a1, h1) = >>-eq-ok (contains ("planning" ∷ "building" ∷ "repairing" ∷ []) c.stage) _ _ h in
    let (a2, h2) = >>-eq-ok (not (is_blank c.key || ltb 96 (count c.key))) _ _ h1 in
    let (a3, h3) = >>-eq-ok (is_bounded_goal c.goal_id) _ _ h2 in
    let (a4, h4) = >>-eq-ok (leb (byte_count c.context) 2097152) _ _ h3 in
    let (locked, w, h5) = >>=-eq-ok (run_for_write now id (some token) db) _ h4 in
    let (a6, h6) = >>-eq-ok (same_text locked.0.sandbox_id c.sandbox_id) _ _ h5 in
    let (a7, h7) = >>-eq-ok (same_or_unset locked.0.pi_session_id c.pi_session_id) _ _ h6 in
    let (a8, e) = >>-eq-ok (not (is_some (pending_request db.requests id))) _ _ h7 in
    let q : InputRequestRecord = new_request now request_id id draft c in
    let new : RunRecord = waiting now request_id c locked.0 in
    let running =
      Locked-running now id token db locked
        (run_for_write-Locked now id (some token) db locked w) in
    rw (sym (ok_inj e), suspend-runs now q new locked.1)
      (write-Moves issued now id (some token) db locked new w d refl refl
        (RespectsCancel-alive _ _ refl refl)
        (leaves (running_may_wait locked.0.status running) refl refl))

resume-Moves :
    (issued : List String) (now : ℕ) (id : String) (m : MessageRecord) (q : InputRequestRecord)
    (r : RunRecord) (db : Database)
    → find_run db.runs id ≡ some r
    → is_waiting r.status ≡ true
    → Moves issued db.runs (resume now m q r db).runs
unfolding resume
resume-Moves issued now id m q r db f h =
    rw (change_project-runs (find_project db.projects r.project_id) (some r.id) "queued" now _) (
      change r (requeued now r) (find_run-In db.runs id r f).0 refl refl
        (RespectsCancel-alive _ _ refl refl) (leaves (waiting_may_queue r.status h) refl refl)
        (done (put_run (requeued now r) db.runs)))

module _ (strip : String → String) where
  answer_once-Moves :
      (issued : List String) (now : ℕ) (message_id client_id answer id : String) (r : RunRecord)
      (q : InputRequestRecord) (m : Option MessageRecord) (db : Database)
      (result : MessageRecord × Bool × Database)
      → find_run db.runs id ≡ some r
      → answer_once strip now message_id client_id answer r q m db ≡ ok result
      → Moves issued db.runs result.2.runs
  unfolding answer_once first_answer repeated
  answer_once-Moves issued now message_id client_id answer id r q none db result f h =
      let (a1, h1) = >>-eq-ok (is_open_request q.status) _ _ h in
      let (a2, h2) = >>-eq-ok (is_waiting r.status) _ _ h1 in
      let (a3, h3) = >>-eq-ok (same_text r.continuation_request_id q.id) _ _ h2 in
      let (content, a4, e) = >>=-eq-ok (answer_content strip q answer) _ h3 in
      rw (sym (ok_inj e))
        (resume-Moves issued now id (answer_message now message_id client_id content r) q r db f a2)
  answer_once-Moves issued now message_id client_id answer id r q (some m) db result f h =
      let (a1, e) =
        >>-eq-ok (same_text m.run_id r.id && same_text q.answer_message_id m.id) _ _ h in
      rw (sym (ok_inj e)) (done db.runs)

  pub answer_user_input-Moves :
      (issued : List String) (now : ℕ)
      (message_id id request_id session_id client_id answer : String) (db : Database)
      (result : MessageRecord × Bool × Database)
      → answer_user_input strip now message_id id request_id session_id client_id answer db
        ≡ ok result
      → Moves issued db.runs result.2.runs
  unfolding answer_user_input
  answer_user_input-Moves issued now message_id id request_id session_id client_id answer db result
        h =
      let (a1, h1) = >>-eq-ok (not (is_blank (strip answer))) _ _ h in
      let (r, found, h2) = >>=-eq-ok (locked_run db id) _ h1 in
      let (project, a3, h3) = >>=-eq-ok (require_project now db r.project_id session_id) _ h2 in
      let (q, a4, h4) =
        >>=-eq-ok
          (or_raise (find_request db.requests request_id) (not_found "input request not found")) _
          h3 in
      let (a5, e) = >>-eq-ok (q.run_id == id) _ _ h4 in
      answer_once-Moves issued now message_id client_id answer id r q _ db result
        (or_raise-eq-ok _ (find_run db.runs id) found) e

pub complete_run_continuation-Moves :
    (issued : List String) (now : ℕ) (id request_id token : String) (db after : Database)
    → complete_run_continuation now id request_id token db ≡ ok after
    → Distinct (run_ids db.runs)
    → Moves issued db.runs after.runs
unfolding complete_run_continuation
complete_run_continuation-Moves issued now id request_id token db after h d =
    let (locked, w, h1) = >>=-eq-ok (run_for_write now id (some token) db) _ h in
    let (a2, h2) = >>-eq-ok (same_text locked.0.continuation_request_id request_id) _ _ h1 in
    let (q, a3, h3) =
      >>=-eq-ok
        (or_raise (find_request db.requests request_id)
          (conflict "run continuation has not been answered"))
        _ h2 in
    let (a4, e) = >>-eq-ok (is_answered q.status) _ _ h3 in
    rw (sym (ok_inj e)) (
      write-Moves issued now id (some token) db locked (resumed now locked.0) w d refl refl
        (RespectsCancel-kept _ _ refl refl) (keeps refl refl refl))
