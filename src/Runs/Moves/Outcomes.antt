-- ===== src/Runs/Moves/Outcomes.antt =====
-- The publication and the two recoveries as allowed changes of the table of runs.
use fomo_demo.Prelude.{
  keep, ℕ, String, true, false, not, ◌&&◌, ◌≡◌, refl, sym, inl, inr, Option, none, some, List, [],
  ◌∷◌, ok, >>=-eq-ok, >>-eq-ok, ok_inj, Distinct, Bool-cases, not→false, is_some, is_empty,
  contains, unique, map, arith, and_left,
}
use fomo_demo.Runs.{
  RunRecord, RunStatus, ProjectRecord, VersionRecord, VersionFileRecord, Value, Database,
  is_running, is_terminal, not_found, conflict,
}
use fomo_demo.Runs.Store.{
  set_run, find_run, find_project, run_ids, put_run, run_for_write, locked_run, or_raise,
}
use fomo_demo.Runs.Sandbox.{is_succeeded}
use fomo_demo.Runs.Ending.{ended}
use fomo_demo.Runs.Publish.{
  Publication, PublishedCriterion, add_traces, preview_verified, publication_events, published,
  published_before, is_published, publish_first, publish_of, finalize_verified_publish,
  succeeded_run, find_version, version_named, newest_event,
}
use fomo_demo.Runs.Expired.{
  GoalView, Resumption, is_abandoned, reschedule, rescheduled, give_up, graph_ended, lost_status,
  lost_code, recover_by, recover_row, recover_each, recover_expired_running_runs, resumption_of,
  by_change,
}
use fomo_demo.Runs.Moves.{
  RespectsCancel, RespectsCancel-alive, Moves, Moves-trans, done, change, leaves, may_leave,
}
use fomo_demo.Runs.Moves.Rows.{find_run-In}
use fomo_demo.Runs.Moves.Fence.{write-Moves, run_for_write-Locked}
use fomo_demo.Runs.Moves.Operations.{advance_project-runs, change_project-runs}
use fomo_demo.Runs.Moves.Questions.{Locked-running}

add_traces-runs :
    (run_id version_id : String) (cs : List PublishedCriterion) (db : Database)
    → (add_traces run_id version_id cs db).runs ≡ db.runs
unfolding add_traces
add_traces-runs run_id version_id [] db = refl
add_traces-runs run_id version_id (c ∷ cs) db = add_traces-runs run_id version_id cs _

preview_verified-runs :
    (run_id : String) (url : Option String) (elapsed : Value) (db : Database)
    → (preview_verified run_id url elapsed db).runs ≡ db.runs
unfolding preview_verified
preview_verified-runs run_id none elapsed db = refl
preview_verified-runs run_id (some url) elapsed db = refl

running_may_end :
    (s t : RunStatus) → is_running s ≡ true → is_terminal t ≡ true → may_leave s t ≡ true
running_may_end s t h k = ground arith

running_may_queue : (s : RunStatus) → is_running s ≡ true → may_leave s RunStatus.queued ≡ true
running_may_queue s h = ground arith

RespectsCancel-unasked :
    (old new : RunRecord) → is_some old.cancel_requested_at ≡ false → RespectsCancel old new
RespectsCancel-unasked old new h = record { law = rw h refl }

module _ (str : ℕ → String) where
  pub published-runs :
      (now : ℕ) (p : Publication) (r : RunRecord) (project : ProjectRecord) (db : Database)
      → (published str now p r project db).1.runs ≡ put_run (succeeded_run now p r) db.runs
  unfolding published publication_events
  published-runs now p r project db =
      rw
        (
          advance_project-runs now (succeeded_run now p r) _,
          preview_verified-runs r.id p.preview_url p.preview_elapsed_seconds _,
          add_traces-runs r.id p.version_id p.acceptance_items _,
        )
        refl

  publish_first-Moves :
      (issued : List String) (now : ℕ) (id token : String) (p : Publication) (db : Database)
      (result : VersionRecord × Database)
      → publish_first str now id token p db ≡ ok result
      → Distinct (run_ids db.runs)
      → Moves issued db.runs result.1.runs
  unfolding publish_first
  publish_first-Moves issued now id token p db result h d =
      let (locked, w, h1) = >>=-eq-ok (run_for_write now id (some token) db) _ h in
      let (unasked, h2) = >>-eq-ok (not (is_some locked.0.cancel_requested_at)) _ _ h1 in
      let (project, a3, h3) =
        >>=-eq-ok
          (or_raise (find_project locked.1.projects locked.0.project_id)
            (not_found "project not found"))
          _ h2 in
      let (a4, e) =
        >>-eq-ok
          (not (contains (map (λ (v : VersionRecord). v.id) db.versions) p.version_id)
            && unique (map (λ (f : VersionFileRecord). f.path) p.files))
          _ _ h3 in
      let running : is_running locked.0.status ≡ true =
        Locked-running now id token db locked
          (run_for_write-Locked now id (some token) db locked w) in
      rw (sym (ok_inj e), published-runs now p locked.0 project locked.1)
        (write-Moves issued now id (some token) db locked (succeeded_run now p locked.0) w d refl
          refl (RespectsCancel-unasked _ _ (not→false _ unasked))
          (leaves (running_may_end locked.0.status RunStatus.succeeded running refl) refl refl))

  publish_of-Moves :
      (issued : List String) (now : ℕ) (token : String) (p : Publication) (r : RunRecord)
      (db : Database) (result : VersionRecord × Database)
      → publish_of str now token p r db ≡ ok result
      → Distinct (run_ids db.runs)
      → Moves issued db.runs result.1.runs
  unfolding publish_of published_before
  publish_of-Moves issued now token p r db result h d = elim (Bool-cases (is_succeeded r.status)) [
    | inl over ↦
        let found =
          find_version db.versions
            (version_named (newest_event r.id "version.created" db.events)) in
        let (a1, h1) = >>-eq-ok (is_published r p.commit_sha found) _ _ (rw over at h) in
        let (v, a2, e) =
          >>=-eq-ok (or_raise found (conflict "run already succeeded with a different publication"))
            _ h1 in
        rw (sym (ok_inj e)) (done db.runs)
    | inr more ↦ elim (Bool-cases (is_terminal r.status)) [
      | inl ended_already ↦ absurd cc (rw (more, ended_already) at h)
      | inr alive ↦ publish_first-Moves issued now r.id token p db result (rw (more, alive) at h) d
    ]
  ]

  pub finalize_verified_publish-Moves :
      (issued : List String) (now : ℕ) (id token : String) (p : Publication) (db : Database)
      (result : VersionRecord × Database)
      → finalize_verified_publish str now id token p db ≡ ok result
      → Distinct (run_ids db.runs)
      → Moves issued db.runs result.1.runs
  unfolding finalize_verified_publish
  finalize_verified_publish-Moves issued now id token p db result h d =
      let (a1, h1) = >>-eq-ok (not (is_empty p.files)) _ _ h in
      let (a2, h2) =
        >>-eq-ok (unique (map (λ (c : PublishedCriterion). c.acceptance_key) p.acceptance_items)) _
          _ h1 in
      let (r, found, h3) = >>=-eq-ok (locked_run db id) _ h2 in
      publish_of-Moves issued now token p r db result h3 d

graph_ended-runs :
    (r : RunRecord) (v : GoalView) (g : Option String) (db : Database)
    → (graph_ended r v g db).runs ≡ db.runs
unfolding graph_ended
graph_ended-runs r v none db = refl
graph_ended-runs r v (some id) db = refl

is_abandoned-running :
    (cutoff : ℕ) (r : RunRecord) → is_abandoned cutoff r ≡ true → is_running r.status ≡ true
unfolding is_abandoned
is_abandoned-running cutoff r h = and_left _ _ h

lost_may_end :
    (r : RunRecord) → is_running r.status ≡ true → may_leave r.status (lost_status r) ≡ true
lost_may_end r h = ground arith

RespectsCancel-lost :
    (now : ℕ) (r : RunRecord) → RespectsCancel r (ended now (lost_status r) (lost_code r) r)
RespectsCancel-lost now r = record { law = ground arith }

-- the row that the recovery writes
abbrev pub recovered : ℕ → Option Resumption → RunRecord → RunRecord
recovered now none r = ended now (lost_status r) (lost_code r) r
recovered now (some s) r = rescheduled now r

pub recover_by-runs :
    (now : ℕ) (v : GoalView) (s : Option Resumption) (r : RunRecord) (db : Database)
    → (recover_by now v s r db).1.runs ≡ put_run (recovered now s r) db.runs
unfolding recover_by reschedule give_up
recover_by-runs now v none r db =
    rw (advance_project-runs now (recovered now none r) _, graph_ended-runs r v v.active_graph _)
      refl
recover_by-runs now v (some s) r db =
    change_project-runs (find_project db.projects r.project_id) (some r.id) "queued" now
      (set_run (rescheduled now r) db)

recover_by-Moves :
    (issued : List String) (now : ℕ) (v : GoalView) (s : Option Resumption) (r : RunRecord)
    (id : String) (db : Database)
    → find_run db.runs id ≡ some r
    → is_running r.status ≡ true
    → Moves issued db.runs (recover_by now v s r db).1.runs
recover_by-Moves issued now v none r id db f running = rw (recover_by-runs now v none r db) (
    change r (recovered now none r) (find_run-In db.runs id r f).0 refl refl
      (RespectsCancel-lost now r) (leaves (lost_may_end r running) refl refl)
      (done (put_run (recovered now none r) db.runs)))
recover_by-Moves issued now v (some s) r id db f running =
    rw (recover_by-runs now v (some s) r db) (
      change r (rescheduled now r) (find_run-In db.runs id r f).0 refl refl
        (RespectsCancel-alive _ _ refl refl) (leaves (running_may_queue r.status running) refl refl)
        (done (put_run (rescheduled now r) db.runs)))

recover_row-Moves :
    (issued : List String) (now cutoff : ℕ) (goals : String → GoalView) (o : Option RunRecord)
    (id : String) (db : Database)
    → find_run db.runs id ≡ o
    → Moves issued db.runs (recover_row now cutoff goals o db).1.runs
unfolding recover_row
recover_row-Moves issued now cutoff goals none id db f = done db.runs
recover_row-Moves issued now cutoff goals (some r) id db f =
    elim (Bool-cases (is_abandoned cutoff r)) [
      | inr e ↦ rw e (done db.runs)
      | inl e ↦ rw e (
          recover_by-Moves issued now (goals r.id) (resumption_of (goals r.id) r) r id db f
            (is_abandoned-running cutoff r e))
    ]

recover_each-Moves :
    (issued : List String) (now cutoff : ℕ) (goals : String → GoalView) (rs : List RunRecord)
    (db : Database)
    → Moves issued db.runs (recover_each now cutoff goals rs db).1.runs
unfolding recover_each
recover_each-Moves issued now cutoff goals [] db = done db.runs
recover_each-Moves issued now cutoff goals (r ∷ rs) db =
    Moves-trans (recover_row-Moves issued now cutoff goals (find_run db.runs r.id) r.id db refl)
      (recover_each-Moves issued now cutoff goals rs _)

pub recover_expired_running_runs-Moves :
    (issued : List String) (now cutoff : ℕ) (goals : String → GoalView) (db : Database)
    → Moves issued db.runs (recover_expired_running_runs now cutoff goals db).1.runs
unfolding recover_expired_running_runs
recover_expired_running_runs-Moves issued now cutoff goals db =
    recover_each-Moves issued now cutoff goals (by_change (keep (is_abandoned cutoff) db.runs)) db
