-- ===== src/Runs/Accounts.antt =====
-- Sessions and projects of an account: `get_current_user`, `revoke_session`, `create_project`,
-- `patch_project`, `require_project` and `get_message_run_by_client_id`. `strip` is Python's
-- `str.strip`.
pub mod Revoked
use fomo_demo.Prelude.{
  ℕ, String, Bool, true, false, not, Option, none, some, List, [], ◌∷◌, ◌==◌, Result, ok, err,
  guard, ◌>>=◌, ◌>>◌, contains, map, if◌then◌else◌,
}
use fomo_demo.Runs.{
  UserRecord, SessionRecord, SessionKind, ProjectRecord, MessageRecord, RunRecord, Database,
  RepositoryError, not_found, authentication, ownership, inconsistent, duplicate_key,
}
use fomo_demo.Runs.Store.{find_run, find_project, put_project, or_raise}
use fomo_demo.Runs.Access.{
  find_user, active_session, authenticated_session, session_can_access_project, require_project,
}
use fomo_demo.Runs.Answer.{find_message}

current_user : Database → SessionKind → Option String → Result RepositoryError UserRecord
current_user db kind none = err (authentication "an authenticated account is required")
current_user db SessionKind.other_kind (some u) =
    err (authentication "an authenticated account is required")
current_user db SessionKind.user (some u) =
    or_raise (find_user db.users u) (authentication "the session account no longer exists")

unfoldable pub get_current_user : ℕ → String → Database → Result RepositoryError UserRecord
unfolding current_user
get_current_user now session_id db = do
  s ← active_session now db session_id
  current_user db s.kind s.user_id

unfoldable pub put_session : SessionRecord → List SessionRecord → List SessionRecord
put_session new [] = []
put_session new (s ∷ ss) = if s.id == new.id then new ∷ ss else s ∷ put_session new ss

unfoldable pub revoke_session : ℕ → String → Database → Result RepositoryError Database
revoke_session now session_id db = do
  s ← active_session now db session_id
  ok (record db { sessions = put_session (record s { revoked_at = some now }) db.sessions })

abbrev pub project_ids : List ProjectRecord → List String
project_ids = map (λ (p : ProjectRecord). p.id)

-- A row that `create_project` makes has the defaults of the table.
abbrev pub new_project : ℕ → String → String → String → ProjectRecord
new_project now id session_id title = record {
  id = id;
  owner_session_id = session_id;
  title = title;
  head_version_id = none;
  active_run_id = none;
  status = "idle";
  updated_at = now;
}

abbrev pub add_project : ProjectRecord → Database → Database
add_project p db = record db { projects = p ∷ db.projects }

abbrev pub set_project : ProjectRecord → Database → Database
set_project p db = record db { projects = put_project p db.projects }

module _ (strip : String → String) where
  -- `id` is the id that `uuid7()` gives; the table refuses one that it has.
  unfoldable pub create_project :
      ℕ → String → String → String → Database → Result RepositoryError (ProjectRecord × Database)
  create_project now id session_id title db = do
    account ← authenticated_session now db session_id
    guard (not (contains (project_ids db.projects) id)) duplicate_key
    let p = new_project now id session_id (strip title)
    ok (p, add_project p db)

  unfoldable pub patch_project :
      ℕ → String → String → String → Database → Result RepositoryError (ProjectRecord × Database)
  patch_project now project_id session_id title db = do
    found ← require_project now db project_id session_id
    let p : ProjectRecord = record found { title = strip title; updated_at = now }
    ok (p, set_project p db)

may_read : ℕ → Database → ProjectRecord → Option String → Result RepositoryError Bool
may_read now db p none = ok true
may_read now db p (some session_id) = session_can_access_project now db p session_id

-- `require_project`, where the session is optional
unfoldable pub read_project :
    ℕ → Database → String → Option String → Result RepositoryError ProjectRecord
unfolding may_read
read_project now db project_id session_id = do
  p ← or_raise (find_project db.projects project_id) (not_found "project not found")
  allowed ← may_read now db p session_id
  guard allowed (ownership "project does not belong to this session")
  ok p

run_of_message :
    Database → Option MessageRecord → Result RepositoryError (Option (MessageRecord × RunRecord))
run_of_message db none = ok none
run_of_message db (some m) = do
  run_id ← or_raise m.run_id (inconsistent "idempotent message is missing its run")
  r ← or_raise (find_run db.runs run_id) (inconsistent "idempotent message points to a missing run")
  ok (some (m, r))

unfoldable pub get_message_run_by_client_id :
    ℕ
    → String
    → String
    → String
    → Database
    → Result RepositoryError (Option (MessageRecord × RunRecord))
unfolding run_of_message
get_message_run_by_client_id now project_id session_id client_id db = do
  p ← require_project now db project_id session_id
  run_of_message db (find_message db.messages project_id client_id)
