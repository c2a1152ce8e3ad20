-- ===== src/Tests/RunsTests.antt =====
-- The repository at concrete inputs: a project with a running and a queued run.
use fomo_demo.Runs.Input.{
  wait_for_user_input, RequestDraft, Continuation, new_request, suspend, waiting,
}
use fomo_demo.Runs.Store.{holds_lease, put_run, advance_project, put_project, by_age, run_for_write}
use fomo_demo.Runs.Accounts.{revoke_session, put_session}
use fomo_demo.Runs.Access.{active_session, require_project}
use fomo_demo.Runs.Ending.{request_cancel, withdrawn}
use fomo_demo.Runs.Lease.{is_candidate, claim_next_run, claimed}
use Prim.Native.String.{count}
use fomo_demo.Prelude.{String, ◌≡◌, ◌≤◌, refl, none, some, err, inl, [], ◌∷◌, false, ok}
use fomo_demo.Runs.{RunRecord, Database, SessionKind, not_found, InputRequestRecord}
use fomo_demo.Runs.Access.Isolation.{IsOpenFor, IsOwner, require_project-isolated}
use fomo_demo.Runs.Lease.Fairness.{claim_next_run-oldest}
use fomo_demo.Runs.Ending.Advance.{IsAdvanced, request_cancel-advance}
use fomo_demo.Runs.Accounts.Revoked.{revoke_session-ends}
use fomo_demo.Runs.Resume.{get_run_continuation}
use fomo_demo.Runs.Resume.Suspended.{suspended_with, wait_for_user_input-get_run_continuation}
use fomo_demo.Tests.Office.{queued_run, running_run, ended_run, garden, office, quiet_office}

oldest_example :
    (taken : RunRecord) × ((claim_next_run 50 10 "t2" quiet_office).0
      ≡ some (claimed 50 10 "t2" taken))
    × (taken.created_at ≤ 5)
unfolding is_candidate
oldest_example = claim_next_run-oldest 50 10 "t2" quiet_office queued_run (inl refl) refl refl

isolated_example : (user : String) × IsOpenFor 10 office "s1" user × IsOwner office garden user
unfolding require_project
isolated_example = require_project-isolated 10 office "p1" "s1" garden refl

-- The queued run is cancelled: the project has no active run, although one is running.
advance_example :
    IsAdvanced "p1"
      (put_run (withdrawn 40 queued_run) office.runs)
      (record garden { active_run_id = none; status = "idle"; updated_at = 40 } ∷ [])
unfolding request_cancel advance_project put_project by_age put_run
advance_example = request_cancel-advance 40 "r2" queued_run garden office _ refl refl refl refl

-- the tables after the session was revoked at 20
abbrev closed_office : Database
closed_office = record office {
  sessions =
      record {
        id = "s1";
        kind = SessionKind.user;
        user_id = some "u1";
        expires_at = 1000;
        revoked_at = some 20;
      }
      ∷ [];
}

revoked_example :
    require_project 30 closed_office "p1" "s1" ≡ err (not_found "session not found or expired")
unfolding revoke_session active_session put_session
revoked_example = revoke_session-ends 20 30 "s1" "p1" garden office closed_office refl refl

-- the running run with a sandbox, after the fence at 50
abbrev sandboxed_run : RunRecord
sandboxed_run = record running_run { sandbox_id = some "b1" }

abbrev studio : Database
studio = record office { runs = queued_run ∷ sandboxed_run ∷ ended_run ∷ [] }

abbrev fenced_studio : Database
fenced_studio = record office {
  runs = queued_run ∷ record sandboxed_run { updated_at = 50 } ∷ ended_run ∷ [];
}

abbrev colour : RequestDraft
colour = record {
  question = "Which colour?";
  choices = "red" ∷ "blue" ∷ [];
  allow_freeform = false;
}

abbrev place : Continuation
place = record {
  key = "plan";
  context = "{}";
  stage = "planning";
  goal_id = none;
  pi_session_id = "fomo-r1";
  sandbox_id = "b1";
}

abbrev suspended_studio : InputRequestRecord × Database
suspended_studio =
    let q = new_request 50 "q1" "r1" colour place in
    (q, suspend 50 q (waiting 50 "q1" place sandboxed_run) fenced_studio)

suspended_example :
    get_run_continuation suspended_studio.1 "r1" ≡ ok (some (suspended_with "q1" colour place))
unfolding wait_for_user_input run_for_write holds_lease put_run
suspended_example =
    wait_for_user_input-get_run_continuation count 50 "q1" "r1" colour place "t1" studio
      suspended_studio (refl, (refl, (refl, tt))) refl refl refl refl
