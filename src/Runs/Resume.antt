-- ===== src/Runs/Resume.antt =====
-- With what a suspended run goes on: `get_run_continuation`.
pub mod Suspended
use fomo_demo.Prelude.{
  String, Bool, not, ◌&&◌, ◌||◌, Option, none, some, ◌==◌, Result, ok, err, guard, ◌>>=◌, ◌>>◌,
  is_some, is_blank, first,
}
use fomo_demo.Runs.{
  RunRecord, RequestStatus, MessageRecord, Database, RepositoryError, not_found, conflict,
}
use fomo_demo.Runs.Store.{find_run, find_request, or_raise}
use fomo_demo.Runs.Input.{same_text}

pub record RunContinuation : Type 0 where
  pub request_id : String
  pub request_status : RequestStatus
  pub continuation_key : String
  pub stage : String
  pub goal_id : Option String
  pub context : String
  pub question : String
  pub answer : Option String
  pub pi_session_id : String
  pub sandbox_id : String

-- a value of `required_identity`: a text that is not empty
abbrev pub required : Option String → Result RepositoryError String
required none = err (conflict "run continuation identity is incomplete")
required (some s) = do
  guard (not (is_blank s)) (conflict "run continuation identity is incomplete")
  ok s

-- `continuation_context or {}`, as JSON
abbrev pub context_or : Option String → String
context_or none = "{}"
context_or (some c) = c

abbrev pub has_cursor : RunRecord → Bool
has_cursor r =
    is_some r.continuation_key
    || is_some r.continuation_stage
    || is_some r.continuation_goal_id
    || is_some r.continuation_context

-- the answer of a request, where it has one
unfoldable pub answer_of :
    Database → String → Option String → Result RepositoryError (Option String)
answer_of db run_id none = ok none
answer_of db run_id (some message_id) = do
  m ←
      or_raise (first (λ (m : MessageRecord). m.id == message_id) db.messages)
        (conflict "run continuation answer is missing")
  guard (same_text m.run_id run_id && m.role == "user")
      (conflict "run continuation answer is missing")
  ok (some m.content)

unfoldable pub continuation_of :
    Database → RunRecord → Option String → Result RepositoryError (Option RunContinuation)
unfolding answer_of
continuation_of db r none = do
  guard (not (has_cursor r)) (conflict "run continuation cursor is incomplete")
  ok none
continuation_of db r (some request) = do
  request_id ← required (some request)
  key ← required r.continuation_key
  stage ← required r.continuation_stage
  session ← required r.pi_session_id
  sandbox ← required r.sandbox_id
  q ←
      or_raise (find_request db.requests request_id)
        (conflict "run continuation request is missing")
  guard (q.run_id == r.id) (conflict "run continuation request is missing")
  answer ← answer_of db r.id q.answer_message_id
  ok (
      some (record {
        request_id = q.id;
        request_status = q.status;
        continuation_key = key;
        stage = stage;
        goal_id = r.continuation_goal_id;
        context = context_or r.continuation_context;
        question = q.question;
        answer = answer;
        pi_session_id = session;
        sandbox_id = sandbox;
      }))

unfoldable pub get_run_continuation :
    Database → String → Result RepositoryError (Option RunContinuation)
unfolding continuation_of
get_run_continuation db run_id = do
  r ← or_raise (find_run db.runs run_id) (not_found "run not found")
  continuation_of db r r.continuation_request_id
