-- ===== src/Runs/Publish/Log.antt =====
-- What a publication writes to the events and the versions.
use fomo_demo.Prelude.{
  ℕ, suc, ◌+◌, String, true, false, not, ◌||◌, ◌≡◌, ◌∙◌, refl, inl, inr, Option, none, some, List,
  [], ◌∷◌, ◌==◌, All, All-map, arith, Bool-cases, Option-cases, eq_refl, leb, ltb, is_some,
  if◌then◌else◌,
}
use fomo_demo.Runs.{RunRecord, ProjectRecord, EventRecord, VersionRecord, Value, text, Database}
use fomo_demo.Runs.Store.{
  find_project, change_project, append_event, advance_project, last_seq, next_queued, run_id_of,
}
use fomo_demo.Runs.Publish.{
  PublishedCriterion, last_number, newest_event, later_event, add_traces, preview_verified,
  trace_of,
}

change_project-log :
    (p : Option ProjectRecord) (active : Option String) (status : String) (now : ℕ) (db : Database)
    → ((change_project p active status now db).events ≡ db.events)
      × ((change_project p active status now db).versions ≡ db.versions)
change_project-log none active status now db = (refl, refl)
change_project-log (some p) active status now db = (refl, refl)

pub advance_project-log :
    (now : ℕ) (r : RunRecord) (db : Database)
    → ((advance_project now r db).events ≡ db.events)
      × ((advance_project now r db).versions ≡ db.versions)
unfolding advance_project
advance_project-log now r db =
    let next = next_queued r.project_id db.runs in
    change_project-log (find_project db.projects r.project_id) (run_id_of next)
      (if is_some next then "queued" else "idle") now db

-- An event of another kind.
pub newest_event-other :
    (id wanted : String) (e : EventRecord) (es : List EventRecord)
    → (e.kind == wanted) ≡ false
    → newest_event id wanted (e ∷ es) ≡ newest_event id wanted es
unfolding newest_event
newest_event-other id wanted e es h = elim (Bool-cases (e.run_id == id)) [
  | inl k ↦ rw (k, h) refl
  | inr k ↦ rw k refl
]

pub add_traces-log :
    (id version_id : String) (cs : List PublishedCriterion) (db : Database)
    → (newest_event id "version.created" (add_traces id version_id cs db).events
        ≡ newest_event id "version.created" db.events)
      × ((add_traces id version_id cs db).versions ≡ db.versions)
unfolding add_traces
add_traces-log id version_id [] db = (refl, refl)
add_traces-log id version_id (c ∷ cs) db =
    let link = trace_of id version_id c in
    let next : Database =
      append_event id "trace.updated" none (("traceLinkId", text c.trace_id) ∷ [])
        (record db { traces = link ∷ db.traces }) in
    let (e, v) = add_traces-log id version_id cs next in
    (e ∙ newest_event-other id "version.created" _ db.events refl, v)

pub preview_verified-log :
    (id : String) (url : Option String) (elapsed : Value) (db : Database)
    → (newest_event id "version.created" (preview_verified id url elapsed db).events
        ≡ newest_event id "version.created" db.events)
      × ((preview_verified id url elapsed db).versions ≡ db.versions)
unfolding preview_verified
preview_verified-log id none elapsed db = (refl, refl)
preview_verified-log id (some url) elapsed db =
    (newest_event-other id "version.created" _ db.events refl, refl)

newest_event-seq :
    (id kind : String) (es : List EventRecord) (f : EventRecord)
    → newest_event id kind es ≡ some f
    → leb f.seq (last_seq id es) ≡ true
unfolding newest_event later_event last_seq
newest_event-seq id kind [] f h = cc
newest_event-seq id kind (e ∷ es) f h = elim (Option-cases (newest_event id kind es)) [
  | inl n ↦ ground (arith, rw n at h)
  | inr (g, n) ↦ ground (arith, newest_event-seq id kind es g n, rw n at h)
]

pub newest_event-appended :
    (id kind : String) (payload : List (String × Value)) (db : Database)
    → newest_event id kind (append_event id kind none payload db).events
      ≡ some (record {
        run_id = id;
        seq = suc (last_seq id db.events);
        kind = kind;
        role = none;
        payload = payload;
      })
unfolding newest_event later_event
newest_event-appended id kind payload db = elim (Option-cases (newest_event id kind db.events)) [
  | inl n ↦ rw (eq_refl id, eq_refl kind, n) refl
  | inr (f, n) ↦
      let older : ltb (suc (last_seq id db.events)) f.seq ≡ false =
        ground (arith, newest_event-seq id kind db.events f n) in
      rw (eq_refl id, eq_refl kind, n, older) refl
]

pub last_number-bound :
    (project_id : String) (vs : List VersionRecord)
    → All
        (λ (v : VersionRecord).
          (not (v.project_id == project_id) || ltb v.number (last_number project_id vs + 1)) ≡ true)
        vs
unfolding last_number
last_number-bound project_id [] = tt
last_number-bound project_id (v ∷ vs) = (
  ground arith,
  All-map vs
      (λ (w : VersionRecord)
          (h : (not (w.project_id == project_id) || ltb w.number (last_number project_id vs + 1))
            ≡ true).
        ground (arith, h))
      (last_number-bound project_id vs),
)
