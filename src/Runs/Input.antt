-- ===== src/Runs/Input.antt =====
-- A question to the user: `wait_for_user_input`. The context of a continuation is its canonical JSON
-- text, and `byte_count` the length of the UTF-8 encoding.
use Prim.Native.String.{count}
use fomo_demo.Prelude.{
  ℕ, String, Bool, true, false, not, ◌||◌, Option, none, some, List, [], ◌∷◌, ◌==◌, Result, ok,
  guard, ◌>>=◌, ◌>>◌, contains, leb, ltb, is_some, is_blank,
}
use fomo_demo.Runs.{
  RunRecord, RunStatus, RequestStatus, InputRequestRecord, Value, text, texts, flag, Database,
  RepositoryError, conflict, invalid,
}
use fomo_demo.Runs.Store.{
  set_run, find_project, change_project, pending_request, append_event, status_changed,
  optional_text, run_for_write,
}

-- `UserInputRequestDraft`
pub record RequestDraft : Type 0 where
  pub question : String
  pub choices : List String
  pub allow_freeform : Bool

-- where and with what the run goes on
pub record Continuation : Type 0 where
  pub key : String
  pub context : String
  pub stage : String
  pub goal_id : Option String
  pub pi_session_id : String
  pub sandbox_id : String

abbrev pub is_bounded_goal : Option String → Bool
is_bounded_goal none = true
is_bounded_goal (some g) = not (is_blank g || ltb 64 (count g))

abbrev pub same_text : Option String → String → Bool
same_text none s = false
same_text (some t) s = t == s

abbrev pub same_or_unset : Option String → String → Bool
same_or_unset none s = true
same_or_unset (some t) s = t == s

abbrev pub new_request : ℕ → String → String → RequestDraft → Continuation → InputRequestRecord
new_request now id run_id draft c = record {
  id = id;
  run_id = run_id;
  question = draft.question;
  choices = draft.choices;
  allow_freeform = draft.allow_freeform;
  status = RequestStatus.pending;
  stage = c.stage;
  goal_id = c.goal_id;
  answer_message_id = none;
  created_at = now;
  answered_at = none;
}

abbrev pub waiting : ℕ → String → Continuation → RunRecord → RunRecord
waiting now request_id c r = record r {
  pi_session_id = some c.pi_session_id;
  continuation_request_id = some request_id;
  continuation_key = some c.key;
  continuation_stage = some c.stage;
  continuation_goal_id = c.goal_id;
  continuation_context = some c.context;
  status = RunStatus.waiting_for_user;
  lease_owner = none;
  lease_expires_at = none;
  updated_at = now;
}

abbrev pub requested_payload : InputRequestRecord → List (String × Value)
requested_payload q =
    ("requestId", text q.id)
    ∷ ("question", text q.question)
    ∷ ("choices", texts q.choices)
    ∷ ("allowFreeform", flag q.allow_freeform)
    ∷ ("stage", text q.stage)
    ∷ ("goalId", optional_text q.goal_id)
    ∷ []

abbrev pub add_request : InputRequestRecord → Database → Database
add_request q db = record db { requests = q ∷ db.requests }

-- the writes of `wait_for_user_input`
unfoldable pub suspend : ℕ → InputRequestRecord → RunRecord → Database → Database
suspend now q new db = status_changed new (
    append_event new.id "run.input_requested" (some "pi") (requested_payload q) (
      change_project (find_project db.projects new.project_id) (some new.id) "waiting_for_user" now
        (set_run new (add_request q db))))

module _ (byte_count : String → ℕ) where
  -- `request_id` is the id that `uuid7()` gives.
  unfoldable pub wait_for_user_input :
      ℕ
      → String
      → String
      → RequestDraft
      → Continuation
      → String
      → Database
      → Result RepositoryError (InputRequestRecord × Database)
  unfolding suspend
  wait_for_user_input now request_id run_id draft c token db = do
    guard (contains ("planning" ∷ "building" ∷ "repairing" ∷ []) c.stage)
        (invalid "input request stage is unsupported")
    guard (not (is_blank c.key || ltb 96 (count c.key)))
        (invalid "continuation key must be nonempty and bounded")
    guard (is_bounded_goal c.goal_id) (invalid "continuation goal id must be bounded")
    guard (leb (byte_count c.context) 2097152)
        (invalid "continuation context exceeds its durable limit")
    locked ← run_for_write now run_id (some token) db
    guard (same_text locked.0.sandbox_id c.sandbox_id)
        (conflict "continuation sandbox no longer matches the active run")
    guard (same_or_unset locked.0.pi_session_id c.pi_session_id)
        (conflict "continuation Pi session does not match the active run")
    guard (not (is_some (pending_request db.requests run_id)))
        (conflict "run already has a pending input request")
    ok (
      new_request now request_id run_id draft c,
      suspend now (new_request now request_id run_id draft c) (waiting now request_id c locked.0)
          locked.1,
    )
