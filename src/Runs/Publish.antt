-- ===== src/Runs/Publish.antt =====
-- The publication of a verified version, with which a run succeeds: `finalize_verified_publish`. The
-- ids that `uuid7()` gives are arguments; `str` prints a number.
pub mod Log
pub mod Once
use Prim.Native.String.{◌++◌}
use fomo_demo.Prelude.{
  ℕ, ◌+◌, String, Bool, false, not, ◌&&◌, Option, none, some, List, [], ◌∷◌, map, ◌==◌, Result, ok,
  err, guard, ◌>>=◌, ◌>>◌, first, contains, if◌then◌else◌, ltb, is_some, is_empty, unique, append,
}
use fomo_demo.Runs.{
  RunRecord, RunStatus, RunPhase, ProjectRecord, VersionRecord, VersionFileRecord, TraceLinkRecord,
  EventRecord, Value, text, number, Database, RepositoryError, not_found, conflict, invalid,
  lease_lost, duplicate_key, is_terminal,
}
use fomo_demo.Runs.Store.{
  set_run, find_project, put_project, append_event, status_changed, advance_project, or_raise,
  locked_run, run_for_write,
}
use fomo_demo.Runs.Sandbox.{is_succeeded}

-- An accepted criterion: its key, its goal and the id of its link.
pub record PublishedCriterion : Type 0 where
  pub acceptance_key : String
  pub goal_id : Option String
  pub trace_id : String

-- What is published; `version_id` is the id of the new version, and the rows of the files are those of
-- that version.
pub record Publication : Type 0 where
  pub version_id : String
  pub commit_sha : String
  pub files : List VersionFileRecord
  pub product_title : String
  pub acceptance_items : List PublishedCriterion
  pub preview_url : Option String
  pub preview_elapsed_seconds : Value
  pub snapshot_id : Option String

-- `func.coalesce(func.max(number), 0)` over the versions of the project
unfoldable pub last_number : String → List VersionRecord → ℕ
last_number project_id [] = 0
last_number project_id (v ∷ vs) =
    let rest = last_number project_id vs in
    if v.project_id == project_id && ltb rest v.number then v.number else rest

-- the event with the highest `seq` among those of the run with the kind
later_event : EventRecord → Option EventRecord → EventRecord
later_event e none = e
later_event e (some f) = if ltb e.seq f.seq then f else e

unfoldable pub newest_event : String → String → List EventRecord → Option EventRecord
unfolding later_event
newest_event run_id kind [] = none
newest_event run_id kind (e ∷ es) =
    let rest = newest_event run_id kind es in
    if e.run_id == run_id && e.kind == kind then some (later_event e rest) else rest

-- `payload.get(…)`, where it is a text
abbrev pub text_of : Value → Option String
text_of (text s) = some s
text_of _ = none

unfoldable pub payload_text : String → List (String × Value) → Option String
payload_text key [] = none
payload_text key ((k, v) ∷ rest) =
    let others = payload_text key rest in if k == key then text_of v else others

abbrev pub find_version : List VersionRecord → Option String → Option VersionRecord
find_version versions none = none
find_version versions (some id) = first (λ (v : VersionRecord). v.id == id) versions

abbrev pub version_named : Option EventRecord → Option String
version_named none = none
version_named (some e) = payload_text "versionId" e.payload

abbrev pub is_published : RunRecord → String → Option VersionRecord → Bool
is_published r commit_sha none = false
is_published r commit_sha (some v) = v.project_id == r.project_id && v.commit_sha == commit_sha

-- The version that a run has published.
unfoldable pub published_before :
    RunRecord → String → Database → Result RepositoryError (VersionRecord × Database)
published_before r commit_sha db = do
  let found =
      find_version db.versions (version_named (newest_event r.id "version.created" db.events))
  guard (is_published r commit_sha found)
      (conflict "run already succeeded with a different publication")
  v ← or_raise found (conflict "run already succeeded with a different publication")
  ok (v, db)

abbrev pub new_version : Publication → RunRecord → ℕ → VersionRecord
new_version p r n = record {
  id = p.version_id;
  project_id = r.project_id;
  number = n;
  commit_sha = p.commit_sha;
  parent_version_id = r.base_version_id;
  snapshot_id = p.snapshot_id;
  qa_status = "passed";
}

abbrev pub succeeded_run : ℕ → Publication → RunRecord → RunRecord
succeeded_run now p r = record r {
  preview_url = p.preview_url;
  phase = RunPhase.ready;
  status = RunStatus.succeeded;
  error_code = none;
  lease_owner = none;
  lease_expires_at = none;
  updated_at = now;
}

-- the rows of the version and the head of the project
abbrev pub add_version : ℕ → Publication → VersionRecord → ProjectRecord → Database → Database
add_version now p v project db = record db {
  versions = v ∷ db.versions;
  version_files = append p.files db.version_files;
  projects =
      put_project (record project { head_version_id = some v.id; updated_at = now }) db.projects;
}

abbrev pub version_created :
    ℕ → Publication → RunRecord → VersionRecord → ProjectRecord → Database → Database
version_created now p r v project db =
    append_event r.id "version.created" none
      (("versionId", text v.id)
        ∷ ("number", number v.number)
        ∷ ("commitSha", text p.commit_sha)
        ∷ [])
      (add_version now p v project db)

abbrev pub trace_of : String → String → PublishedCriterion → TraceLinkRecord
trace_of run_id version_id c = record {
  id = c.trace_id;
  run_id = run_id;
  source_kind = "acceptance_criterion";
  source_ref = c.acceptance_key;
  relation = "verified_in";
  target_kind = "version";
  target_ref = version_id;
  goal_id = c.goal_id;
}

-- the links of the criteria, an event for each
unfoldable pub add_traces : String → String → List PublishedCriterion → Database → Database
add_traces run_id version_id [] db = db
add_traces run_id version_id (c ∷ cs) db = add_traces run_id version_id cs (
    append_event run_id "trace.updated" none (("traceLinkId", text c.trace_id) ∷ [])
      (record db { traces = trace_of run_id version_id c ∷ db.traces }))

unfoldable pub preview_verified : String → Option String → Value → Database → Database
preview_verified run_id none elapsed db = db
preview_verified run_id (some url) elapsed db =
    append_event run_id "preview.verified" none
      (("url", text url)
        ∷ ("verificationStatus", text "verified")
        ∷ ("elapsedSeconds", elapsed)
        ∷ [])
      db

module _ (str : ℕ → String) where
  -- the events after the links
  unfoldable pub publication_events : Publication → RunRecord → ℕ → Database → Database
  unfolding preview_verified
  publication_events p r n db =
      append_event r.id "run.completed" none
        (("status", text "succeeded")
          ∷ ("summary", text ("Version " ++ str n ++ " passed deterministic verification."))
          ∷ [])
        (append_event r.id "assistant.summary" none
          ((
            "summary",
            text (
                p.product_title
                ++ " is ready as version "
                ++ str n
                ++ "; the clean sandbox gates and frozen acceptance workflows passed."),
          )
            ∷ [])
          (status_changed (record r { phase = RunPhase.ready })
            (preview_verified r.id p.preview_url p.preview_elapsed_seconds db)))

  -- The writes of the publication.
  unfoldable pub published :
      ℕ → Publication → RunRecord → ProjectRecord → Database → VersionRecord × Database
  unfolding publication_events add_traces
  published now p r project db =
      let n = last_number r.project_id db.versions + 1 in
      let v = new_version p r n in
      (
        v,
        advance_project now (succeeded_run now p r) (
            set_run (succeeded_run now p r) (
              publication_events p r n
                (add_traces r.id v.id p.acceptance_items (version_created now p r v project db)))),
      )

  unfoldable pub publish_first :
      ℕ
      → String
      → String
      → Publication
      → Database
      → Result RepositoryError (VersionRecord × Database)
  unfolding published
  publish_first now run_id token p db = do
    locked ← run_for_write now run_id (some token) db
    guard (not (is_some locked.0.cancel_requested_at)) lease_lost
    project ←
        or_raise (find_project locked.1.projects locked.0.project_id)
          (not_found "project not found")
    guard
        (not (contains (map (λ (v : VersionRecord). v.id) db.versions) p.version_id)
          && unique (map (λ (f : VersionFileRecord). f.path) p.files))
        duplicate_key
    ok (published now p locked.0 project locked.1)

  unfoldable pub publish_of :
      ℕ
      → String
      → Publication
      → RunRecord
      → Database
      → Result RepositoryError (VersionRecord × Database)
  unfolding publish_first published_before
  publish_of now token p r db =
      if is_succeeded r.status
      then published_before r p.commit_sha db
      else if is_terminal r.status
      then err (conflict "terminal run cannot publish a version")
      else publish_first now r.id token p db

  unfoldable pub finalize_verified_publish :
      ℕ
      → String
      → String
      → Publication
      → Database
      → Result RepositoryError (VersionRecord × Database)
  unfolding publish_of
  finalize_verified_publish now run_id token p db = do
    guard (not (is_empty p.files)) (invalid "published version requires at least one file")
    guard (unique (map (λ (c : PublishedCriterion). c.acceptance_key) p.acceptance_items))
        (invalid "published acceptance keys must be unique")
    r ← locked_run db run_id
    publish_of now token p r db
