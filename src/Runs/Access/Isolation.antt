-- ===== src/Runs/Access/Isolation.antt =====
-- Who reaches a project.
use fomo_demo.Prelude.{
  ℕ, String, true, ◌≡◌, refl, sym, ◌∙◌, Option, none, some, ok, >>=-eq-ok, >>-eq-ok, ok_inj, eq_iff,
  and_left, and_right, is_some,
}
use fomo_demo.Runs.{
  SessionRecord, SessionKind, ProjectRecord, Database, RepositoryError, not_found, authentication,
}
use fomo_demo.Runs.Store.{find_project, or_raise}
use fomo_demo.Runs.Access.{
  find_session, find_user, is_usable, active_session, account_of, authenticated_session,
  session_can_access_project, require_project, owned_by_user, is_user, same_user,
}

-- A session of an account that is open now.
pub record IsOpenFor (now : ℕ) (db : Database) (session_id user : String) : Type 0 where
  pub session : SessionRecord
  pub found : find_session db.sessions session_id ≡ some session
  pub usable : is_usable now session ≡ true
  pub user_id : session.user_id ≡ some user
  pub known : is_some (find_user db.users user) ≡ true

-- The session that made a project is of the account.
pub record IsOwner (db : Database) (project : ProjectRecord) (user : String) : Type 0 where
  pub session : SessionRecord
  pub found : find_session db.sessions project.owner_session_id ≡ some session
  pub user_id : session.user_id ≡ some user

or_raise-some :
    {A : Type 0} (e : RepositoryError) {a : A} (o : Option A) → or_raise o e ≡ ok a → o ≡ some a
or_raise-some e none h = cc
or_raise-some e (some a) h = cc

same_user-some : (o : Option String) (u : String) → same_user o u ≡ true → o ≡ some u
same_user-some none u h = cc
same_user-some (some v) u h = cc ((eq_iff v u).0 h)

account_of-user :
    (db : Database) (kind : SessionKind) (o : Option String) (u : String)
    → account_of db kind o ≡ ok u
    → (o ≡ some u) × (is_some (find_user db.users u) ≡ true)
unfolding account_of
account_of-user db SessionKind.other_kind o u h = cc
account_of-user db SessionKind.user none u h = cc
account_of-user db SessionKind.user (some v) u h =
    let (account, found, e) =
      >>=-eq-ok
        (or_raise (find_user db.users v) (authentication "the session account no longer exists")) _
        h in
    let same : v ≡ u = ok_inj e in
    let known = or_raise-some _ (find_user db.users v) found in rw (sym same) (refl, rw known refl)

authenticated-IsOpenFor :
    (now : ℕ) (db : Database) (session_id u : String)
    → authenticated_session now db session_id ≡ ok u
    → IsOpenFor now db session_id u
unfolding authenticated_session active_session
authenticated-IsOpenFor now db session_id u h =
    let (s, active, h1) = >>=-eq-ok (active_session now db session_id) _ h in
    let (t, found, k1) =
      >>=-eq-ok
        (or_raise (find_session db.sessions session_id) (not_found "session not found or expired"))
        _ active in
    let (usable, e) = >>-eq-ok (is_usable now t) _ _ k1 in
    let same : t ≡ s = ok_inj e in
    let (user, known) = account_of-user db s.kind s.user_id u h1 in
    record {
      session = s;
      found = or_raise-some _ (find_session db.sessions session_id) found ∙ rw same refl;
      usable = rw (sym same) usable;
      user_id = user;
      known = known;
    }

owned_by_user-IsOwner :
    (db : Database) (project : ProjectRecord) (u : String) (o : Option SessionRecord)
    → find_session db.sessions project.owner_session_id ≡ o
    → owned_by_user o u ≡ true
    → IsOwner db project u
owned_by_user-IsOwner db project u none f h = cc
owned_by_user-IsOwner db project u (some s) f h = record {
  session = s;
  found = f;
  user_id = same_user-some s.user_id u (and_right (is_user s.kind) _ h);
}

-- A project is reached only in a session that is neither revoked nor expired and is of an existing
-- account, and only where the session that made the project is of the same account.
pub require_project-isolated :
    (now : ℕ) (db : Database) (project_id session_id : String) (project : ProjectRecord)
    → require_project now db project_id session_id ≡ ok project
    → (user : String) × IsOpenFor now db session_id user × IsOwner db project user
unfolding require_project session_can_access_project
require_project-isolated now db project_id session_id project h =
    let (found, f, h1) =
      >>=-eq-ok (or_raise (find_project db.projects project_id) (not_found "project not found")) _
        h in
    let (access, a, h2) = >>=-eq-ok (session_can_access_project now db found session_id) _ h1 in
    let (granted, e) = >>-eq-ok access _ _ h2 in
    let (u, authenticated, k) = >>=-eq-ok (authenticated_session now db session_id) _ a in
    let owned =
      and_left (owned_by_user (find_session db.sessions found.owner_session_id) u) _
        (ok_inj k ∙ granted) in
    rw (sym (ok_inj e)) (
      u,
      authenticated-IsOpenFor now db session_id u authenticated,
      owned_by_user-IsOwner db found u _ refl owned,
    )
