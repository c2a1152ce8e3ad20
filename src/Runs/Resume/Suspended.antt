-- ===== src/Runs/Resume/Suspended.antt =====
-- `get_run_continuation` after `wait_for_user_input`.
use Prim.Native.String.{count}
use fomo_demo.Prelude.{
  ℕ, String, Bool, true, false, not, ◌||◌, leb, ltb, ◌≡◌, refl, sym, ap, ◌∙◌, Option, none, some,
  List, [], ◌∷◌, ok, contains, >>=-eq-ok, >>-eq-ok, ok_inj, Distinct, eq_iff, eq_refl, is_blank,
  is_some, arith,
}
use fomo_demo.Runs.{RunRecord, RequestStatus, InputRequestRecord, ProjectRecord, Database}
use fomo_demo.Runs.Store.{
  find_run, put_run, run_ids, run_for_write, pending_request, find_project, set_run, change_project,
}
use fomo_demo.Runs.Input.{
  RequestDraft, Continuation, wait_for_user_input, suspend, new_request, waiting, add_request,
  is_bounded_goal, same_text, same_or_unset,
}
use fomo_demo.Runs.Moves.Rows.{find_run-In, put_run-In, In-find_run, ids-put_run}
use fomo_demo.Runs.Moves.Fence.{Locked, unfenced, under, run_for_write-Locked}
use fomo_demo.Runs.Moves.Questions.{suspend-runs}
use fomo_demo.Runs.Resume.{RunContinuation, get_run_continuation, continuation_of, answer_of}

-- what a worker reads of a suspended run whose question has no answer yet
abbrev pub suspended_with : String → RequestDraft → Continuation → RunContinuation
suspended_with request_id draft c = record {
  request_id = request_id;
  request_status = RequestStatus.pending;
  continuation_key = c.key;
  stage = c.stage;
  goal_id = c.goal_id;
  context = c.context;
  question = draft.question;
  answer = none;
  pi_session_id = c.pi_session_id;
  sandbox_id = c.sandbox_id;
}

stage_named :
    (s : String)
    → contains ("planning" ∷ "building" ∷ "repairing" ∷ []) s ≡ true
    → is_blank s ≡ false
stage_named String.[] h = cc
stage_named (String.◌∷◌ c s) h = refl

not_or_left : (a b : Bool) → not (a || b) ≡ true → a ≡ false
not_or_left a b h = ground arith

same_text-some : (o : Option String) (s : String) → same_text o s ≡ true → o ≡ some s
same_text-some none s h = cc
same_text-some (some t) s h = ap some ((eq_iff t s).0 h)

-- A row that the fence gives is written and found again.
find_run-written :
    (now : ℕ) (id : String) (token : Option String) (db : Database) (locked : RunRecord × Database)
    (new : RunRecord)
    → Locked now id db token locked
    → Distinct (run_ids db.runs)
    → locked.0.id ≡ new.id
    → (find_run (put_run new locked.1.runs) id ≡ some new) × (new.id ≡ id)
find_run-written now id _ db _ new (unfenced r f) d i =
    let (m, named) = find_run-In db.runs id r f in
    let there = put_run-In r new db.runs d m i in
    let e : new.id ≡ id = sym i ∙ named in
    (In-find_run new id (put_run new db.runs) (rw (ids-put_run new db.runs) d) there e, e)
find_run-written now id _ db _ new (under token old f held) d i =
    let (m, named) = find_run-In db.runs id old f in
    let touched : RunRecord = record old { updated_at = now } in
    let d' : Distinct (run_ids (put_run touched db.runs)) = rw (ids-put_run touched db.runs) d in
    let there =
      put_run-In touched new (put_run touched db.runs) d' (put_run-In old touched db.runs d m refl)
        i in
    let e : new.id ≡ id = sym i ∙ named in
    (
      In-find_run new id (put_run new (put_run touched db.runs))
          (rw (ids-put_run new (put_run touched db.runs)) d') there e,
      e,
    )

change_project-requests :
    (p : Option ProjectRecord) (active : Option String) (status : String) (now : ℕ) (db : Database)
    → (change_project p active status now db).requests ≡ db.requests
change_project-requests none active status now db = refl
change_project-requests (some p) active status now db = refl

suspend-requests :
    (now : ℕ) (q : InputRequestRecord) (new : RunRecord) (db : Database)
    → (suspend now q new db).requests ≡ q ∷ db.requests
unfolding suspend
suspend-requests now q new db =
    change_project-requests (find_project db.projects new.project_id) (some new.id)
      "waiting_for_user" now (set_run new (add_request q db))

continuation_read :
    (db : Database) (id request_id : String) (now : ℕ) (draft : RequestDraft) (c : Continuation)
    (r : RunRecord) (rest : List InputRequestRecord)
    → r.id ≡ id
    → r.sandbox_id ≡ some c.sandbox_id
    → db.requests ≡ new_request now request_id id draft c ∷ rest
    → is_blank request_id ≡ false
    → is_blank c.key ≡ false
    → is_blank c.stage ≡ false
    → is_blank c.pi_session_id ≡ false
    → is_blank c.sandbox_id ≡ false
    → continuation_of db (waiting now request_id c r) (some request_id)
      ≡ ok (some (suspended_with request_id draft c))
unfolding continuation_of answer_of
continuation_read db id request_id now draft c r rest i s q b1 b2 b3 b4 b5 =
    rw (q, s, b1, b2, b3, b4, b5, i, eq_refl request_id, eq_refl id) refl

-- In tables of distinct runs, where a run was suspended and its request, its agent session and its
-- sandbox have names, its continuation is read back as it was written, without an answer.
pub wait_for_user_input-get_run_continuation :
    (byte_count : String → ℕ) (now : ℕ) (request_id id : String) (draft : RequestDraft)
    (c : Continuation) (token : String) (db : Database) (result : InputRequestRecord × Database)
    → Distinct (run_ids db.runs)
    → is_blank request_id ≡ false
    → is_blank c.pi_session_id ≡ false
    → is_blank c.sandbox_id ≡ false
    → wait_for_user_input byte_count now request_id id draft c token db ≡ ok result
    → get_run_continuation result.1 id ≡ ok (some (suspended_with request_id draft c))
unfolding wait_for_user_input get_run_continuation
wait_for_user_input-get_run_continuation byte_count now request_id id draft c token db result d b1
      b4 b5 h =
    let (a1, h1) = >>-eq-ok (contains ("planning" ∷ "building" ∷ "repairing" ∷ []) c.stage) _ _ h in
    let (a2, h2) = >>-eq-ok (not (is_blank c.key || ltb 96 (count c.key))) _ _ h1 in
    let (a3, h3) = >>-eq-ok (is_bounded_goal c.goal_id) _ _ h2 in
    let (a4, h4) = >>-eq-ok (leb (byte_count c.context) 2097152) _ _ h3 in
    let (locked, w, h5) = >>=-eq-ok (run_for_write now id (some token) db) _ h4 in
    let (a6, h6) = >>-eq-ok (same_text locked.0.sandbox_id c.sandbox_id) _ _ h5 in
    let (a7, h7) = >>-eq-ok (same_or_unset locked.0.pi_session_id c.pi_session_id) _ _ h6 in
    let (a8, e) = >>-eq-ok (not (is_some (pending_request db.requests id))) _ _ h7 in
    let q : InputRequestRecord = new_request now request_id id draft c in
    let new : RunRecord = waiting now request_id c locked.0 in
    let after : Database = suspend now q new locked.1 in
    let (there, named) =
      find_run-written now id (some token) db locked new
        (run_for_write-Locked now id (some token) db locked w) d refl in
    let found : find_run after.runs id ≡ some new = rw (suspend-runs now q new locked.1) there in
    let read =
      continuation_read after id request_id now draft c locked.0 locked.1.requests named
        (same_text-some locked.0.sandbox_id c.sandbox_id a6) (suspend-requests now q new locked.1)
        b1 (not_or_left (is_blank c.key) (ltb 96 (count c.key)) a2) (stage_named c.stage a1) b4
        b5 in
    rw (sym (ok_inj e)) (rw found read)
