-- ===== src/Runs/Ending/Advance.antt =====
-- What the cancellation of a run that no worker has does to its project.
use fomo_demo.Prelude.{
  ℕ, String, true, false, ◌||◌, ◌≡◌, refl, sym, ap, ◌∙◌, inl, inr, Option, none, some, List, [],
  ◌∷◌, ◌==◌, ok, ok_inj, Bool-cases, is_some, if◌then◌else◌, eq_iff, first-In, arith,
}
use fomo_demo.Runs.{RunRecord, ProjectRecord, InputRequestRecord, Database, is_queued, is_waiting}
use fomo_demo.Runs.Ending.Oldest.{IsOldestQueued, next_queued-IsOldestQueued}
use fomo_demo.Runs.Store.{
  append_event, set_run, find_run, put_run, find_project, put_project, advance_project, next_queued,
  run_id_of, pending_request,
}
use fomo_demo.Runs.Ending.{request_cancel, cancel_of, cancel_idle, withdrawn, withdraw_request}

find_project-put_project :
    (projects : List ProjectRecord) (id : String) (old new : ProjectRecord)
    → find_project projects id ≡ some old
    → old.id ≡ new.id
    → find_project (put_project new projects) id ≡ some new
unfolding put_project
find_project-put_project [] id old new f i = cc
find_project-put_project (x ∷ xs) id old new f i = elim (Bool-cases (x.id == id)) [
  | inl e ↦
      let same : x ≡ old = cc (rw e at f) in
      let named : new.id ≡ id =
        sym (ap (λ (p : ProjectRecord). p.id) same ∙ i) ∙ (eq_iff x.id id).0 e in
      let here : (x.id == new.id) ≡ true = rw (named, e) refl in
      let there : (new.id == id) ≡ true = (eq_iff new.id id).1 named in rw (here, there) refl
  | inr e ↦
      let rest : find_project xs id ≡ some old = rw e at f in
      let named : old.id ≡ id =
        (eq_iff old.id id).0 (first-In (λ (p : ProjectRecord). p.id == id) old xs rest).1 in
      let other : (x.id == new.id) ≡ false = ground (arith, sym i ∙ named, e) in
      rw (other, e) (find_project-put_project xs id old new rest i)
]

withdraw_request-tables :
    (q : Option InputRequestRecord) (db : Database)
    → ((withdraw_request q db).runs ≡ db.runs) × ((withdraw_request q db).projects ≡ db.projects)
withdraw_request-tables none db = (refl, refl)
withdraw_request-tables (some q) db = (refl, refl)

is_some-run_id_of : (o : Option RunRecord) → is_some (run_id_of o) ≡ is_some o
is_some-run_id_of none = refl
is_some-run_id_of (some r) = refl

-- The project as `_advance_project_after_terminal` leaves it.
abbrev pub IsAdvanced : String → List RunRecord → List ProjectRecord → Type 0
IsAdvanced project_id runs projects =
    (q : ProjectRecord) × (find_project projects project_id ≡ some q)
    × IsOldestQueued project_id runs q.active_run_id
    × (q.status ≡ (if is_some q.active_run_id then "queued" else "idle"))

advance_project-IsAdvanced :
    (now : ℕ) (r : RunRecord) (db : Database) (p : ProjectRecord)
    → find_project db.projects r.project_id ≡ some p
    → IsAdvanced r.project_id db.runs (advance_project now r db).projects
unfolding advance_project
advance_project-IsAdvanced now r db p g =
    let next = next_queued r.project_id db.runs in
    let q : ProjectRecord = record p {
      active_run_id = run_id_of next;
      status = if is_some next then "queued" else "idle";
      updated_at = now;
    } in
    let there : find_project (put_project q db.projects) r.project_id ≡ some q =
      find_project-put_project db.projects r.project_id p q g refl in
    rw g
      (q, there, next_queued-IsOldestQueued r.project_id db.runs, rw (is_some-run_id_of next) refl)

IsAdvanced-runs :
    (project_id : String) (a b : List RunRecord) (projects : List ProjectRecord)
    → a ≡ b
    → IsAdvanced project_id a projects
    → IsAdvanced project_id b projects
IsAdvanced-runs project_id a b projects e h = rw (sym e) h

cancel_idle-IsAdvanced :
    (now : ℕ) (r : RunRecord) (p : ProjectRecord) (db : Database)
    → find_project db.projects r.project_id ≡ some p
    → IsAdvanced r.project_id (put_run (withdrawn now r) db.runs) (cancel_idle now r db).projects
unfolding cancel_idle
cancel_idle-IsAdvanced now r p db g =
    let (runs, projects) = withdraw_request-tables (pending_request db.requests r.id) db in
    let written : Database = append_event r.id "run.cancelled" none [] (
      append_event r.id "run.cancel_requested" none []
        (set_run (withdrawn now r) (withdraw_request (pending_request db.requests r.id) db))) in
    let known : find_project written.projects r.project_id ≡ some p = rw projects g in
    let same : written.runs ≡ put_run (withdrawn now r) db.runs =
      ap (put_run (withdrawn now r)) runs in
    IsAdvanced-runs r.project_id written.runs _ (cancel_idle now r db).projects same
      (advance_project-IsAdvanced now (withdrawn now r) written p known)

-- Where a queued or waiting run is cancelled, its project's active run becomes a queued run of the
-- project that is at least as old as every other one left, or none exactly where none is left, and its
-- status is queued or idle, whatever run is running.
pub request_cancel-advance :
    (now : ℕ) (id : String) (r : RunRecord) (p : ProjectRecord) (db after : Database)
    → find_run db.runs id ≡ some r
    → (is_queued r.status || is_waiting r.status) ≡ true
    → find_project db.projects r.project_id ≡ some p
    → request_cancel now id db ≡ ok after
    → IsAdvanced r.project_id (put_run (withdrawn now r) db.runs) after.projects
unfolding request_cancel cancel_of
request_cancel-advance now id r p db after f idle g h =
    let done : cancel_of now r db ≡ after = ok_inj (rw f at h) in
    rw (sym (rw idle at done)) (cancel_idle-IsAdvanced now r p db g)
