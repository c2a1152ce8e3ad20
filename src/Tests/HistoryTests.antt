-- ===== src/Tests/HistoryTests.antt =====
-- Sequences of calls of the repository, a publication and a recovery at concrete inputs.
use fomo_demo.Runs.Store.{last_seq, put_run, find_run, run_for_write}
use fomo_demo.Runs.Ending.{request_cancel}
use Prim.Native.String.{count}
use fomo_demo.Prelude.{String, ◌≡◌, refl, none, some, err, ◌⊎◌, List, [], ◌∷◌, false, arith}
use fomo_demo.Runs.Publish.{Publication, published}
use fomo_demo.Runs.Expired.{GoalView}
use fomo_demo.Runs.Fork.{RecoveryRequest, CheckpointView}
use fomo_demo.Runs.{Value, VersionRecord, RunRecord, RunStatus, Database, lease_lost, is_terminal}
use fomo_demo.Runs.Moves.Invariant.{IsSound}
use fomo_demo.Runs.History.{RepositoryCall, perform_all}
use fomo_demo.Runs.History.Guarantees.{
  perform_all-IsSound, perform_all-final, perform_all-fenced, request_cancel-final,
}
use fomo_demo.Tests.Office.{queued_run, running_run, ended_run, garden, office}
use fomo_demo.Tests.Data.{keep_text}
use fomo_demo.Tests.RuntimeTests.{no_text}

office-IsSound : IsSound office.runs
office-IsSound = record {
  distinct = (refl, (refl, (refl, tt)));
  single = λ (project : String). ground arith;
  leased = (refl, (refl, (refl, tt)));
}

-- what is published of the running run
abbrev publication : Publication
publication = record {
  version_id = "v1";
  commit_sha = "c1";
  files =
      record {
        version_id = "v1";
        path = "app/page.tsx";
        sha256 = "00";
        size = 1;
        mime = "text/plain";
        content_text = some "";
        object_key = none;
      }
      ∷ [];
  product_title = "Site";
  acceptance_items =
      record { acceptance_key = "home:home-1"; goal_id = some "home"; trace_id = "l1" } ∷ [];
  preview_url = some "https://example.org";
  preview_elapsed_seconds = Value.number 2;
  snapshot_id = none;
}

-- no run has a checkpoint or a graph
abbrev no_goals : String → GoalView
no_goals id = record { resumption = none; active_graph = none; projection = λ status. Value.null }

-- The failed run is tried again.
abbrev retry : RecoveryRequest
retry = record {
  source_run_id = "r0";
  session_id = "s1";
  client_id = "m9";
  content = "Again, please.";
  agent_framework = none;
  runtime_contract = none;
  enforce_runtime = false;
  enforce_framework = false;
}

-- The worker publishes, another one claims the next run and loses its lease, and a run is tried again.
abbrev handover : List RepositoryCall
handover =
    RepositoryCall.claim 50 10 "t2"
    ∷ RepositoryCall.publish 60 "r1" "t1" publication
    ∷ RepositoryCall.claim 70 10 "t3"
    ∷ RepositoryCall.recover_expired 90000000 90000000 no_goals
    ∷ RepositoryCall.fork 90000001 "r9" "m9" retry (CheckpointView.valid none)
    ∷ RepositoryCall.finish 90000002 "r2" RunStatus.succeeded none (some "done") (some "t3")
    ∷ []

-- the tables after the fence at 50
abbrev fenced_office : Database
fenced_office = record office {
  runs = queued_run ∷ record running_run { updated_at = 50 } ∷ ended_run ∷ [];
}

abbrev published_office : VersionRecord × Database
published_office =
    published no_text 50 publication (record running_run { updated_at = 50 }) garden fenced_office

IsSound-example : IsSound (perform_all count keep_text keep_text no_text handover office).runs
IsSound-example =
    perform_all-IsSound count keep_text keep_text no_text handover office office-IsSound

final_run_example :
    (later : RunRecord) × (find_run
        (perform_all count keep_text keep_text no_text handover office).runs
        "r0"
      ≡ some later)
    × (later.status ≡ RunStatus.failed)
final_run_example =
    perform_all-final count keep_text keep_text no_text handover office "r0" ended_run
      office-IsSound refl refl

fenced_example :
    run_for_write 80 "r1"
      (some "t0")
      (perform_all count keep_text keep_text no_text handover office)
    ≡ err lease_lost
fenced_example =
    perform_all-fenced count keep_text keep_text no_text handover office "t0" "r1" 80 office-IsSound
      (refl, (refl, (refl, tt))) refl

-- the tables after the cancellation of the running run
abbrev asked : Database
asked = record office {
  runs =
      queued_run
      ∷ record running_run { cancel_requested_at = some 40; updated_at = 40 }
      ∷ ended_run
      ∷ [];
  events =
      record { run_id = "r1"; seq = 1; kind = "run.cancel_requested"; role = none; payload = [] }
      ∷ [];
}

cancel_example :
    (later : RunRecord) × (find_run
        (perform_all count keep_text keep_text no_text handover asked).runs
        "r1"
      ≡ some later)
    × ((is_terminal later.status ≡ false) ⊎ (later.status ≡ RunStatus.cancelled))
unfolding request_cancel put_run last_seq
cancel_example =
    request_cancel-final count keep_text keep_text no_text handover 40 "r1" running_run office asked
      office-IsSound refl refl refl
