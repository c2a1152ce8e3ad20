-- ===== src/Runs/Access.antt =====
-- Who may act on a project: `_active_session_in_session`, `_authenticated_session_in_session`,
-- `_session_can_access_project` and `_require_project_in_session`.
pub mod Isolation
use fomo_demo.Prelude.{
  ℕ, String, Bool, true, false, not, ◌&&◌, ◌||◌, Option, none, some, List, ◌==◌, Result, ok, err,
  guard, ◌>>=◌, ◌>>◌, first, any, is_some, leb,
}
use fomo_demo.Runs.{
  UserRecord, SessionRecord, SessionKind, ProjectRecord, Database, RepositoryError, not_found,
  authentication, ownership,
}
use fomo_demo.Runs.Store.{find_project, or_raise}

abbrev pub find_session : List SessionRecord → String → Option SessionRecord
find_session sessions id = first (λ (s : SessionRecord). s.id == id) sessions

abbrev pub find_user : List UserRecord → String → Option UserRecord
find_user users id = first (λ (u : UserRecord). u.id == id) users

-- not revoked, and `_is_expired` is false: `expires_at > now`
abbrev pub is_usable : ℕ → SessionRecord → Bool
is_usable now s = not (is_some s.revoked_at || leb s.expires_at now)

abbrev pub is_user : SessionKind → Bool
is_user SessionKind.user = true
is_user _ = false

unfoldable pub active_session : ℕ → Database → String → Result RepositoryError SessionRecord
active_session now db session_id = do
  s ← or_raise (find_session db.sessions session_id) (not_found "session not found or expired")
  guard (is_usable now s) (not_found "session not found or expired")
  ok s

-- the account of a session of kind user
unfoldable pub account_of : Database → SessionKind → Option String → Result RepositoryError String
account_of db SessionKind.other_kind user_id =
    err (authentication "an authenticated account is required")
account_of db SessionKind.user none = err (authentication "an authenticated account is required")
account_of db SessionKind.user (some u) = do
  account ← or_raise (find_user db.users u) (authentication "the session account no longer exists")
  ok u

-- the user of the session, which the session has
unfoldable pub authenticated_session : ℕ → Database → String → Result RepositoryError String
unfolding active_session account_of
authenticated_session now db session_id = do
  s ← active_session now db session_id
  account_of db s.kind s.user_id

abbrev pub same_user : Option String → String → Bool
same_user none u = false
same_user (some v) u = v == u

abbrev pub owned_by_user : Option SessionRecord → String → Bool
owned_by_user none u = false
owned_by_user (some owner) u = is_user owner.kind && same_user owner.user_id u

unfoldable pub session_can_access_project :
    ℕ → Database → ProjectRecord → String → Result RepositoryError Bool
unfolding authenticated_session
session_can_access_project now db project session_id = do
  u ← authenticated_session now db session_id
  ok (
      owned_by_user (find_session db.sessions project.owner_session_id) u
      && is_some (find_user db.users u))

unfoldable pub require_project :
    ℕ → Database → String → String → Result RepositoryError ProjectRecord
unfolding session_can_access_project
require_project now db project_id session_id = do
  project ← or_raise (find_project db.projects project_id) (not_found "project not found")
  access ← session_can_access_project now db project session_id
  guard access (ownership "project does not belong to this session")
  ok project
