-- ===== src/Runs/Store.antt =====
-- Rows by their ids, the event log and the write fence of persistence/repository.py. `now` is what
-- `utcnow()` gives during the call; a transaction that raises leaves the tables as they were.
use fomo_demo.Prelude.{
  ℕ, suc, String, Bool, true, false, ◌&&◌, Option, none, some, List, [], ◌∷◌, map, ◌==◌, Result, ok,
  err, ◌>>=◌, keep, first, if◌then◌else◌, leb, ltb, is_some,
}
use fomo_demo.Runs.{
  RunRecord, ProjectRecord, InputRequestRecord, RequestStatus, EventRecord, Value, text, null,
  Database, RepositoryError, not_found, lease_lost, is_running, is_queued, status_value,
  phase_value,
}

abbrev pub run_ids : List RunRecord → List String
run_ids = map (λ (r : RunRecord). r.id)

-- `session.get(RunRecord, run_id)`
abbrev pub find_run : List RunRecord → String → Option RunRecord
find_run runs id = first (λ (r : RunRecord). r.id == id) runs

-- the write of a row with the id of the given one
unfoldable pub put_run : RunRecord → List RunRecord → List RunRecord
put_run new [] = []
put_run new (r ∷ rs) = if r.id == new.id then new ∷ rs else r ∷ put_run new rs

abbrev pub set_run : RunRecord → Database → Database
set_run new db = record db { runs = put_run new db.runs }

abbrev pub find_project : List ProjectRecord → String → Option ProjectRecord
find_project projects id = first (λ (p : ProjectRecord). p.id == id) projects

unfoldable pub put_project : ProjectRecord → List ProjectRecord → List ProjectRecord
put_project new [] = []
put_project new (p ∷ ps) = if p.id == new.id then new ∷ ps else p ∷ put_project new ps

-- `project.active_run_id = …; project.status = …`, where there is the project
abbrev pub change_project : Option ProjectRecord → Option String → String → ℕ → Database → Database
change_project none active status now db = db
change_project (some p) active status now db = record db {
  projects =
      put_project (record p { active_run_id = active; status = status; updated_at = now })
        db.projects;
}

abbrev pub is_open_request : RequestStatus → Bool
is_open_request RequestStatus.pending = true
is_open_request _ = false

abbrev pub find_request : List InputRequestRecord → String → Option InputRequestRecord
find_request requests id = first (λ (r : InputRequestRecord). r.id == id) requests

unfoldable pub put_request : InputRequestRecord → List InputRequestRecord → List InputRequestRecord
put_request new [] = []
put_request new (r ∷ rs) = if r.id == new.id then new ∷ rs else r ∷ put_request new rs

-- `_pending_input_request_in_session`; a unique index lets a run have one pending request at most
abbrev pub pending_request : List InputRequestRecord → String → Option InputRequestRecord
pending_request requests run_id =
    first (λ (r : InputRequestRecord). r.run_id == run_id && is_open_request r.status) requests

-- `func.coalesce(func.max(seq), 0)` over the events of the run
unfoldable pub last_seq : String → List EventRecord → ℕ
last_seq run_id [] = 0
last_seq run_id (e ∷ es) =
    let rest = last_seq run_id es in if e.run_id == run_id && ltb rest e.seq then e.seq else rest

-- `_append_event_in_session`
abbrev pub append_event :
    String → String → Option String → List (String × Value) → Database → Database
append_event run_id kind role payload db = record db {
  events =
      record {
        run_id = run_id;
        seq = suc (last_seq run_id db.events);
        kind = kind;
        role = role;
        payload = payload;
      }
      ∷ db.events;
}

-- the event `run.status_changed`
abbrev pub status_changed : RunRecord → Database → Database
status_changed r =
    append_event r.id "run.status_changed" none
      (("status", text (status_value r.status)) ∷ ("phase", text (phase_value r.phase)) ∷ [])

abbrev pub optional_text : Option String → Value
optional_text none = null
optional_text (some s) = text s

abbrev pub or_raise : {A : Type 0} → Option A → RepositoryError → Result RepositoryError A
or_raise none e = err e
or_raise (some a) e = ok a

-- `_locked_run`
abbrev pub locked_run : Database → String → Result RepositoryError RunRecord
locked_run db run_id = or_raise (find_run db.runs run_id) (not_found "run not found")

abbrev pub leased_under : Option String → String → Bool
leased_under none token = false
leased_under (some owner) token = owner == token

-- `lease_expires_at is not None and lease_expires_at > now`
abbrev pub expires_after : Option ℕ → ℕ → Bool
expires_after none now = false
expires_after (some at) now = ltb now at

-- The conditions of the fence's UPDATE.
unfoldable pub holds_lease : ℕ → String → RunRecord → Bool
holds_lease now token r =
    is_running r.status && leased_under r.lease_owner token && expires_after r.lease_expires_at now

fenced : ℕ → String → RunRecord → Database → Result RepositoryError (RunRecord × Database)
fenced now token r db =
    if holds_lease now token r
    then ok (record r { updated_at = now }, set_run (record r { updated_at = now }) db)
    else err lease_lost

-- `_run_for_write`
unfoldable pub run_for_write :
    ℕ → String → Option String → Database → Result RepositoryError (RunRecord × Database)
unfolding fenced
run_for_write now run_id none db = do r ← locked_run db run_id; ok (r, db)
run_for_write now run_id (some token) db = do
  r ← or_raise (find_run db.runs run_id) lease_lost
  fenced now token r db

-- ordered by `created_at`
unfoldable pub insert_by_age : RunRecord → List RunRecord → List RunRecord
insert_by_age r [] = r ∷ []
insert_by_age r (x ∷ xs) =
    if leb r.created_at x.created_at then r ∷ x ∷ xs else x ∷ insert_by_age r xs

unfoldable pub by_age : List RunRecord → List RunRecord
unfolding insert_by_age
by_age [] = []
by_age (r ∷ rs) = insert_by_age r (by_age rs)

abbrev pub next_queued : String → List RunRecord → Option RunRecord
next_queued project_id runs =
    first (λ (r : RunRecord). true)
      (by_age (keep (λ (r : RunRecord). r.project_id == project_id && is_queued r.status) runs))

abbrev pub run_id_of : Option RunRecord → Option String
run_id_of none = none
run_id_of (some r) = some r.id

-- `_advance_project_after_terminal`
unfoldable pub advance_project : ℕ → RunRecord → Database → Database
advance_project now run db =
    let next = next_queued run.project_id db.runs in
    change_project (find_project db.projects run.project_id) (run_id_of next)
      (if is_some next then "queued" else "idle") now db
