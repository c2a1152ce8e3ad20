-- ===== src/Runs/Accounts/Revoked.antt =====
-- The access to projects after `revoke_session`.
use fomo_demo.Prelude.{
  ℕ, String, true, ◌≡◌, refl, sym, ap, ◌∙◌, inl, inr, some, List, [], ◌∷◌, ◌==◌, ok, err, >>=-eq-ok,
  >>-eq-ok, ok_inj, Bool-cases, eq_iff, first-In,
}
use fomo_demo.Runs.{SessionRecord, ProjectRecord, Database, not_found}
use fomo_demo.Runs.Store.{find_project, or_raise}
use fomo_demo.Runs.Access.{
  find_session, is_usable, active_session, authenticated_session, session_can_access_project,
  require_project,
}
use fomo_demo.Runs.Moves.Fence.{or_raise-eq-ok}
use fomo_demo.Runs.Accounts.{put_session, revoke_session}

find_session-put_session :
    (sessions : List SessionRecord) (id : String) (old new : SessionRecord)
    → find_session sessions id ≡ some old
    → new.id ≡ id
    → find_session (put_session new sessions) id ≡ some new
unfolding put_session
find_session-put_session [] id old new f i = cc
find_session-put_session (x ∷ xs) id old new f i =
    let own : (new.id == id) ≡ true = (eq_iff new.id id).1 i in
    let same : (x.id == new.id) ≡ (x.id == id) = rw i refl in
    elim (Bool-cases (x.id == id)) [
      | inl h ↦ rw (same ∙ h, own) refl
      | inr h ↦ rw (same ∙ h, h) (find_session-put_session xs id old new (rw h at f) i)
    ]

-- Once a session was revoked, whatever the time, no project is reached in it.
pub revoke_session-ends :
    (now later : ℕ) (session_id project_id : String) (p : ProjectRecord) (db after : Database)
    → revoke_session now session_id db ≡ ok after
    → find_project after.projects project_id ≡ some p
    → require_project later after project_id session_id
      ≡ err (not_found "session not found or expired")
unfolding revoke_session active_session authenticated_session session_can_access_project
    require_project
revoke_session-ends now later session_id project_id p db after h f =
    let (s, active, e) = >>=-eq-ok (active_session now db session_id) _ h in
    let (t, found, k) =
      >>=-eq-ok
        (or_raise (find_session db.sessions session_id) (not_found "session not found or expired"))
        _ active in
    let (usable, same) = >>-eq-ok (is_usable now t) _ _ k in
    let g : find_session db.sessions session_id ≡ some s =
      or_raise-eq-ok _ (find_session db.sessions session_id) found ∙ ap some (ok_inj same) in
    let named : s.id ≡ session_id =
      (eq_iff s.id session_id).0
        (first-In (λ (x : SessionRecord). x.id == session_id) s db.sessions g).1 in
    let revoked : SessionRecord = record s { revoked_at = some now } in
    let there : find_session (put_session revoked db.sessions) session_id ≡ some revoked =
      find_session-put_session db.sessions session_id s revoked g named in
    let kept : find_session after.sessions session_id ≡ some revoked = rw (sym (ok_inj e)) there in
    rw (f, kept) refl
