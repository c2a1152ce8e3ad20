-- ===== src/Runs/Moves/Writes.antt =====
-- The writes of a run's worker and of its user as allowed changes of the table of runs.
use fomo_demo.Runs.Ending.{
  cancel_of, cancel_idle, cancel_busy, withdrawn, request_cancel, mark_terminal, final_status,
  final_code, ended, end_of,
}
use fomo_demo.Runs.Store.{pending_request, locked_run, find_run, put_run, run_ids, run_for_write}
use fomo_demo.Runs.{is_queued, is_waiting, is_terminal, RunStatus, RunRecord, RunPhase, Database}
use fomo_demo.Runs.Moves.{
  RespectsCancel, RespectsCancel-kept, change, done, leaves, keeps, may_leave, Moves,
}
use fomo_demo.Runs.Moves.Rows.{find_run-In}
use fomo_demo.Runs.Moves.Fence.{or_raise-eq-ok, write-Moves}
use fomo_demo.Runs.Moves.Operations.{advance_project-runs, withdraw_request-runs}
use fomo_demo.Prelude.{
  some, not, is_blank, ◌||◌, ltb, ℕ, String, true, false, ◌≡◌, refl, sym, inl, inr, Option, none,
  List, ok, >>=-eq-ok, >>-eq-ok, ok_inj, Distinct, Bool-cases, arith,
}
use Prim.Native.String.{count}
use fomo_demo.Runs.Phase.{
  set_run_phase, increment_repair_round, set_sandbox_id, set_preview_url, ensure_pi_session_id,
  keep_session,
}

pub set_run_phase-Moves :
    (issued : List String) (now : ℕ) (id : String) (phase : RunPhase) (token : Option String)
    (db after : Database)
    → set_run_phase now id phase none token db ≡ ok after
    → Distinct (run_ids db.runs)
    → Moves issued db.runs after.runs
unfolding set_run_phase
set_run_phase-Moves issued now id phase token db after h d =
    let (locked, w, e) = >>=-eq-ok (run_for_write now id token db) _ h in
    rw (sym (ok_inj e)) (
      write-Moves issued now id token db locked _ w d refl refl (RespectsCancel-kept _ _ refl refl)
        (keeps refl refl refl))

pub increment_repair_round-Moves :
    (issued : List String) (now : ℕ) (id : String) (phase : RunPhase) (token : Option String)
    (db : Database) (result : ℕ × Database)
    → increment_repair_round now id phase token db ≡ ok result
    → Distinct (run_ids db.runs)
    → Moves issued db.runs result.1.runs
unfolding increment_repair_round
increment_repair_round-Moves issued now id phase token db result h d =
    let (locked, w, e) = >>=-eq-ok (run_for_write now id token db) _ h in
    rw (sym (ok_inj e)) (
      write-Moves issued now id token db locked _ w d refl refl (RespectsCancel-kept _ _ refl refl)
        (keeps refl refl refl))

pub set_sandbox_id-Moves :
    (issued : List String) (now : ℕ) (id sandbox_id : String) (token : Option String)
    (db after : Database)
    → set_sandbox_id now id sandbox_id token db ≡ ok after
    → Distinct (run_ids db.runs)
    → Moves issued db.runs after.runs
unfolding set_sandbox_id
set_sandbox_id-Moves issued now id sandbox_id token db after h d =
    let (locked, w, e) = >>=-eq-ok (run_for_write now id token db) _ h in
    rw (sym (ok_inj e)) (
      write-Moves issued now id token db locked _ w d refl refl (RespectsCancel-kept _ _ refl refl)
        (keeps refl refl refl))

pub set_preview_url-Moves :
    (issued : List String) (now : ℕ) (id : String) (url : Option String) (token : Option String)
    (db after : Database)
    → set_preview_url now id url token db ≡ ok after
    → Distinct (run_ids db.runs)
    → Moves issued db.runs after.runs
unfolding set_preview_url
set_preview_url-Moves issued now id url token db after h d =
    let (locked, w, e) = >>=-eq-ok (run_for_write now id token db) _ h in
    rw (sym (ok_inj e)) (
      write-Moves issued now id token db locked _ w d refl refl (RespectsCancel-kept _ _ refl refl)
        (keeps refl refl refl))

keep_session-Moves :
    (issued : List String) (now : ℕ) (id proposed : String) (token : Option String)
    (s : Option String) (db : Database) (locked : RunRecord × Database)
    → run_for_write now id token db ≡ ok locked
    → Distinct (run_ids db.runs)
    → Moves issued db.runs (keep_session now proposed s locked.0 db locked.1).1.runs
unfolding keep_session
keep_session-Moves issued now id proposed token none db locked w d =
    write-Moves issued now id token db locked _ w d refl refl (RespectsCancel-kept _ _ refl refl)
      (keeps refl refl refl)
keep_session-Moves issued now id proposed token (some s) db locked w d = done db.runs

pub ensure_pi_session_id-Moves :
    (issued : List String) (now : ℕ) (id proposed token : String) (db : Database)
    (result : String × Database)
    → ensure_pi_session_id now id proposed token db ≡ ok result
    → Distinct (run_ids db.runs)
    → Moves issued db.runs result.1.runs
unfolding ensure_pi_session_id
ensure_pi_session_id-Moves issued now id proposed token db result h d =
    let (bounded, h1) = >>-eq-ok (not (is_blank proposed || ltb 128 (count proposed))) _ _ h in
    let (locked, w, e) = >>=-eq-ok (run_for_write now id (some token) db) _ h1 in
    rw (sym (ok_inj e))
      (keep_session-Moves issued now id proposed (some token) locked.0.pi_session_id db locked w d)

RespectsCancel-ended :
    (now : ℕ) (r : RunRecord) (status : RunStatus) (code : Option String)
    → RespectsCancel r (ended now (final_status r status) (final_code r status code) r)
RespectsCancel-ended now r status code = record { law = ground arith }

RespectsCancel-withdrawn : (now : ℕ) (r : RunRecord) → RespectsCancel r (withdrawn now r)
RespectsCancel-withdrawn now r = record { law = ground arith }

RespectsCancel-asked :
    (now : ℕ) (r : RunRecord)
    → is_terminal r.status ≡ false
    → RespectsCancel r (record r { cancel_requested_at = some now; updated_at = now })
RespectsCancel-asked now r h = record { law = ground arith }

may_end : (s t : RunStatus) → is_terminal s ≡ false → is_terminal t ≡ true → may_leave s t ≡ true
may_end s t h k = ground arith

final_status-is_terminal :
    (r : RunRecord) (s : RunStatus) → is_terminal s ≡ true → is_terminal (final_status r s) ≡ true
final_status-is_terminal r s h = ground arith

pub mark_terminal-Moves :
    (issued : List String) (now : ℕ) (id : String) (status : RunStatus)
    (code summary token : Option String) (db after : Database)
    → mark_terminal now id status code summary token db ≡ ok after
    → Distinct (run_ids db.runs)
    → Moves issued db.runs after.runs
unfolding mark_terminal end_of
mark_terminal-Moves issued now id status code summary token db after h d =
    let (t, h1) = >>-eq-ok (is_terminal status) _ _ h in
    let (locked, w, e) = >>=-eq-ok (run_for_write now id token db) _ h1 in
    elim (Bool-cases (is_terminal locked.0.status)) [
      | inl already ↦ rw (sym (ok_inj (rw already at e))) (done db.runs)
      | inr alive ↦
          let new : RunRecord =
            ended now (final_status locked.0 status) (final_code locked.0 status code) locked.0 in
          let moved =
            write-Moves issued now id token db locked new w d refl refl
              (RespectsCancel-ended now locked.0 status code)
              (leaves
                (may_end locked.0.status (final_status locked.0 status) alive
                  (final_status-is_terminal locked.0 status t))
                refl refl) in
          rw (sym (ok_inj (rw alive at e)), advance_project-runs now new _) moved
    ]

idle_may_end :
    (s : RunStatus) → (is_queued s || is_waiting s) ≡ true → may_leave s RunStatus.cancelled ≡ true
idle_may_end s h = ground arith

cancel_idle-Moves :
    (issued : List String) (now : ℕ) (id : String) (r : RunRecord) (db : Database)
    → find_run db.runs id ≡ some r
    → (is_queued r.status || is_waiting r.status) ≡ true
    → Moves issued db.runs (cancel_idle now r db).runs
unfolding cancel_idle
cancel_idle-Moves issued now id r db f h =
    rw
      (
        advance_project-runs now (withdrawn now r) _,
        withdraw_request-runs (pending_request db.requests r.id) db,
      )
      (change r (withdrawn now r) (find_run-In db.runs id r f).0 refl refl
        (RespectsCancel-withdrawn now r) (leaves (idle_may_end r.status h) refl refl)
        (done (put_run (withdrawn now r) db.runs)))

pub request_cancel-Moves :
    (issued : List String) (now : ℕ) (id : String) (db after : Database)
    → request_cancel now id db ≡ ok after
    → Moves issued db.runs after.runs
unfolding request_cancel cancel_of cancel_busy
request_cancel-Moves issued now id db after h =
    let (r, found, e) = >>=-eq-ok (locked_run db id) _ h in
    let f : find_run db.runs id ≡ some r = or_raise-eq-ok _ (find_run db.runs id) found in
    elim (Bool-cases (is_queued r.status || is_waiting r.status)) [
      | inl idle ↦ rw (sym (ok_inj (rw idle at e))) (cancel_idle-Moves issued now id r db f idle)
      | inr busy ↦ elim (Bool-cases (is_terminal r.status)) [
        | inl over ↦ rw (sym (ok_inj (rw (busy, over) at e))) (done db.runs)
        | inr alive ↦
            let new : RunRecord = record r { cancel_requested_at = some now; updated_at = now } in
            rw (sym (ok_inj (rw (busy, alive) at e))) (
              change r new (find_run-In db.runs id r f).0 refl refl
                (RespectsCancel-asked now r alive) (keeps refl refl refl)
                (done (put_run new db.runs)))
      ]
    ]
