-- ===== src/Runs/Answer.antt =====
-- The answer of the user, and the resumption: `answer_user_input` and `complete_run_continuation`.
-- `strip` is Python's `str.strip`.
use fomo_demo.Prelude.{
  ℕ, String, Bool, true, false, not, ◌&&◌, Option, none, some, List, [], ◌∷◌, ◌==◌, Result, ok, err,
  guard, ◌>>=◌, ◌>>◌, first, contains, if◌then◌else◌, is_blank,
}
use fomo_demo.Runs.{
  RunRecord, RunStatus, RequestStatus, InputRequestRecord, MessageRecord, text, Database,
  RepositoryError, not_found, conflict, invalid, is_waiting,
}
use fomo_demo.Runs.Access.{require_project}
use fomo_demo.Runs.Store.{
  set_run, find_project, change_project, find_request, put_request, is_open_request, append_event,
  status_changed, optional_text, or_raise, locked_run, run_for_write,
}
use fomo_demo.Runs.Input.{same_text}

-- the message with the client's id
abbrev pub find_message : List MessageRecord → String → String → Option MessageRecord
find_message messages project_id client_id =
    first (λ (m : MessageRecord). m.project_id == project_id && m.client_message_id == client_id)
      messages

abbrev pub requeued : ℕ → RunRecord → RunRecord
requeued now r = record r {
  status = RunStatus.queued;
  lease_owner = none;
  lease_expires_at = none;
  updated_at = now;
}

abbrev pub answered : ℕ → String → InputRequestRecord → InputRequestRecord
answered now message_id q = record q {
  status = RequestStatus.answered;
  answer_message_id = some message_id;
  answered_at = some now;
}

abbrev pub answer_message : ℕ → String → String → String → RunRecord → MessageRecord
answer_message now id client_id content r = record {
  id = id;
  project_id = r.project_id;
  role = "user";
  content = content;
  client_message_id = client_id;
  run_id = some r.id;
  created_at = now;
}

-- the writes of `answer_user_input`
unfoldable pub resume : ℕ → MessageRecord → InputRequestRecord → RunRecord → Database → Database
resume now m q r db = status_changed (requeued now r) (
    append_event r.id "run.input_answered" (some "user")
      (("requestId", text q.id) ∷ ("messageId", text m.id) ∷ [])
      (change_project (find_project db.projects r.project_id) (some r.id) "queued" now (
        set_run (requeued now r) (record db {
          messages = m ∷ db.messages;
          requests = put_request (answered now m.id q) db.requests;
        }))))

module _ (strip : String → String) where
  -- The canonical choice, or the text as it is.
  unfoldable pub answer_content : InputRequestRecord → String → Result RepositoryError String
  answer_content q answer =
      if q.allow_freeform
      then ok answer
      else if contains q.choices (strip answer)
      then ok (strip answer)
      else err (conflict "answer must exactly match one of the input request choices")

  -- A repeated call with the client's id; the flag of the result says that the answer is new.
  unfoldable pub repeated :
      String
      → InputRequestRecord
      → MessageRecord
      → Database
      → Result RepositoryError (MessageRecord × Bool × Database)
  repeated run_id q m db = do
    guard (same_text m.run_id run_id && same_text q.answer_message_id m.id)
        (conflict "client message id belongs to another operation")
    ok (m, false, db)

  unfoldable pub first_answer :
      ℕ
      → String
      → String
      → String
      → RunRecord
      → InputRequestRecord
      → Database
      → Result RepositoryError (MessageRecord × Bool × Database)
  unfolding answer_content resume
  first_answer now message_id client_id answer r q db = do
    guard (is_open_request q.status) (conflict "input request is no longer pending")
    guard (is_waiting r.status) (conflict "run is not waiting for user input")
    guard (same_text r.continuation_request_id q.id)
        (conflict "input request is not the active continuation")
    content ← answer_content q answer
    let m = answer_message now message_id client_id content r
    ok (m, true, resume now m q r db)

  unfoldable pub answer_once :
      ℕ
      → String
      → String
      → String
      → RunRecord
      → InputRequestRecord
      → Option MessageRecord
      → Database
      → Result RepositoryError (MessageRecord × Bool × Database)
  unfolding repeated first_answer
  answer_once now message_id client_id answer r q none db =
      first_answer now message_id client_id answer r q db
  answer_once now message_id client_id answer r q (some m) db = repeated r.id q m db

  -- `message_id` is the id that `uuid7()` gives.
  unfoldable pub answer_user_input :
      ℕ
      → String
      → String
      → String
      → String
      → String
      → String
      → Database
      → Result RepositoryError (MessageRecord × Bool × Database)
  unfolding answer_once
  answer_user_input now message_id run_id request_id session_id client_id answer db = do
    guard (not (is_blank (strip answer))) (invalid "answer must be non-blank")
    r ← locked_run db run_id
    project ← require_project now db r.project_id session_id
    q ← or_raise (find_request db.requests request_id) (not_found "input request not found")
    guard (q.run_id == run_id) (not_found "input request not found")
    answer_once now message_id client_id answer r q
        (find_message db.messages r.project_id client_id) db

abbrev pub is_answered : RequestStatus → Bool
is_answered RequestStatus.answered = true
is_answered _ = false

abbrev pub resumed : ℕ → RunRecord → RunRecord
resumed now r = record r {
  continuation_request_id = none;
  continuation_key = none;
  continuation_stage = none;
  continuation_goal_id = none;
  continuation_context = none;
  updated_at = now;
}

unfoldable pub complete_run_continuation :
    ℕ → String → String → String → Database → Result RepositoryError Database
complete_run_continuation now run_id request_id token db = do
  locked ← run_for_write now run_id (some token) db
  guard (same_text locked.0.continuation_request_id request_id)
      (conflict "run continuation changed before completion")
  q ←
      or_raise (find_request db.requests request_id)
        (conflict "run continuation has not been answered")
  guard (is_answered q.status) (conflict "run continuation has not been answered")
  ok (
      append_event run_id "run.resumed" none
        (("requestId", text request_id)
          ∷ ("stage", optional_text locked.0.continuation_stage)
          ∷ ("goalId", optional_text locked.0.continuation_goal_id)
          ∷ [])
        (set_run (resumed now locked.0) locked.1))
