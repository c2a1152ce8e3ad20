-- ===== src/Runs/Ending.antt =====
-- How a run ends: `request_cancel`, `mark_terminal` and the payload of the terminal event.
pub mod Oldest
pub mod Advance
use fomo_demo.Prelude.{
  ℕ, String, Bool, true, false, not, ◌&&◌, ◌||◌, Option, none, some, List, [], ◌∷◌, Result, ok,
  guard, ◌>>=◌, ◌>>◌, if◌then◌else◌, is_some,
}
use fomo_demo.Failures.Classify.{public_failure_for_code}
use fomo_demo.Runs.{
  RunRecord, RunStatus, RequestStatus, InputRequestRecord, Value, text, Database, RepositoryError,
  invalid, is_queued, is_waiting, is_terminal, status_value,
}
use fomo_demo.Runs.Store.{
  set_run, find_run, pending_request, put_request, append_event, advance_project, locked_run,
  run_for_write,
}

abbrev pub is_failure : RunStatus → Bool
is_failure RunStatus.failed = true
is_failure RunStatus.needs_attention = true
is_failure _ = false

-- `_terminal_event_payload`
unfoldable pub terminal_event_payload : RunStatus → Option String → String → List (String × Value)
terminal_event_payload status error_code summary =
    if is_failure status
    then (let failure = public_failure_for_code error_code in
        ("status", text (status_value status))
        ∷ ("code", text failure.code)
        ∷ ("message", text failure.message)
        ∷ ("summary", text failure.message)
        ∷ [])
    else ("status", text (status_value status)) ∷ ("summary", text summary) ∷ []

abbrev pub withdraw_request : Option InputRequestRecord → Database → Database
withdraw_request none db = db
withdraw_request (some q) db = record db {
  requests = put_request (record q { status = RequestStatus.cancelled }) db.requests;
}

-- the run that is cancelled while no worker has it; an UPDATE also sets its `updated_at`
abbrev pub withdrawn : ℕ → RunRecord → RunRecord
withdrawn now r = record r {
  status = RunStatus.cancelled;
  cancel_requested_at = some now;
  lease_owner = none;
  lease_expires_at = none;
  continuation_request_id = none;
  continuation_key = none;
  continuation_stage = none;
  continuation_goal_id = none;
  continuation_context = none;
  updated_at = now;
}

-- the two branches of `request_cancel`
unfoldable pub cancel_idle : ℕ → RunRecord → Database → Database
cancel_idle now r db = advance_project now (withdrawn now r) (
    append_event r.id "run.cancelled" none [] (
      append_event r.id "run.cancel_requested" none []
        (set_run (withdrawn now r) (withdraw_request (pending_request db.requests r.id) db))))

unfoldable pub cancel_busy : ℕ → RunRecord → Database → Database
cancel_busy now r db =
    append_event r.id "run.cancel_requested" none []
      (set_run (record r { cancel_requested_at = some now; updated_at = now }) db)

unfoldable pub cancel_of : ℕ → RunRecord → Database → Database
unfolding cancel_idle cancel_busy
cancel_of now r db =
    if is_queued r.status || is_waiting r.status
    then cancel_idle now r db
    else if is_terminal r.status
    then db
    else cancel_busy now r db

unfoldable pub request_cancel : ℕ → String → Database → Result RepositoryError Database
unfolding cancel_of
request_cancel now run_id db = do r ← locked_run db run_id; ok (cancel_of now r db)

abbrev pub cancel_requested : Option RunRecord → Bool
cancel_requested none = true
cancel_requested (some r) = is_some r.cancel_requested_at

unfoldable pub is_cancel_requested : Database → String → Bool
is_cancel_requested db run_id = cancel_requested (find_run db.runs run_id)

abbrev pub suspended : Option RunRecord → Bool
suspended none = false
suspended (some r) =
    is_some r.continuation_request_id && (is_waiting r.status || is_queued r.status)

unfoldable pub is_user_input_suspended : Database → String → Bool
is_user_input_suspended db run_id = suspended (find_run db.runs run_id)

abbrev pub is_cancelled : RunStatus → Bool
is_cancelled RunStatus.cancelled = true
is_cancelled _ = false

-- A requested cancellation wins over any other outcome.
abbrev pub overridden : RunRecord → RunStatus → Bool
overridden r status = is_some r.cancel_requested_at && not (is_cancelled status)

abbrev pub final_status : RunRecord → RunStatus → RunStatus
final_status r status = if overridden r status then RunStatus.cancelled else status

abbrev pub final_code : RunRecord → RunStatus → Option String → Option String
final_code r status code = if overridden r status then none else code

-- `summary or ""`
abbrev pub final_summary : RunRecord → RunStatus → Option String → String
final_summary r status none = if overridden r status then "Cancelled safely by request." else ""
final_summary r status (some s) = if overridden r status then "Cancelled safely by request." else s

abbrev pub event_kind : RunStatus → String
event_kind RunStatus.succeeded = "run.completed"
event_kind RunStatus.cancelled = "run.cancelled"
event_kind _ = "run.failed"

abbrev pub ended : ℕ → RunStatus → Option String → RunRecord → RunRecord
ended now status code r = record r {
  status = status;
  error_code = code;
  lease_owner = none;
  lease_expires_at = none;
  updated_at = now;
}

-- The UPDATE and what follows it; where the run is terminal already, nothing is committed.
unfoldable pub end_of :
    ℕ → RunStatus → Option String → Option String → RunRecord → Database → Database → Database
unfolding terminal_event_payload
end_of now status code summary r before db =
    if is_terminal r.status
    then before
    else advance_project now (ended now (final_status r status) (final_code r status code) r) (
        append_event r.id (event_kind (final_status r status)) none
          (terminal_event_payload (final_status r status) (final_code r status code)
            (final_summary r status summary))
          (set_run (ended now (final_status r status) (final_code r status code) r) db))

unfoldable pub mark_terminal :
    ℕ
    → String
    → RunStatus
    → Option String
    → Option String
    → Option String
    → Database
    → Result RepositoryError Database
unfolding end_of
mark_terminal now run_id status code summary token db = do
  guard (is_terminal status) (invalid "mark_terminal requires a terminal status")
  locked ← run_for_write now run_id token db
  ok (end_of now status code summary locked.0 db locked.1)
