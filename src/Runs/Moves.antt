-- ===== src/Runs/Moves.antt =====
-- The life of runs as a transition system: which changes of the table of runs are allowed.
pub mod Rows
pub mod Fence
pub mod Operations
pub mod Writes
pub mod Questions
pub mod Submissions
pub mod Outcomes
pub mod Recoveries
pub mod Invariant
pub mod Traces
use fomo_demo.Prelude.{
  ℕ, ◌+◌, zero, String, Bool, true, false, ◌&&◌, ◌||◌, not, Option, none, some, List, [], ◌∷◌, ◌==◌,
  ◌≡◌, In, contains, ◌∈◌, is_some, if◌then◌else◌, arith,
}
use fomo_demo.Runs.Ending.{is_cancelled}
use fomo_demo.Runs.{RunRecord, RunStatus, is_running, is_waiting, is_queued, is_terminal}
use fomo_demo.Runs.Store.{put_run, run_ids}

-- A run that works for its project or holds it while it waits.
abbrev pub is_writer : RunStatus → Bool
is_writer s = is_running s || is_waiting s

abbrev pub weight : String → RunRecord → ℕ
weight project r = if r.project_id == project && is_writer r.status then 1 else 0

-- the number of writers of a project
abbrev pub writers : String → List RunRecord → ℕ
writers project [] = 0
writers project (r ∷ rs) = weight project r + writers project rs

-- A run has a lease exactly while it is running.
abbrev pub is_leased : RunRecord → Bool
is_leased r =
    if is_running r.status
    then is_some r.lease_owner && is_some r.lease_expires_at
    else not (is_some r.lease_owner || is_some r.lease_expires_at)

-- The statuses a run can leave for, without a lease.
abbrev pub may_leave : RunStatus → RunStatus → Bool
may_leave RunStatus.running RunStatus.waiting_for_user = true
may_leave RunStatus.running RunStatus.queued = true
may_leave RunStatus.waiting_for_user RunStatus.queued = true
may_leave s t = not (is_terminal s) && is_terminal t

-- The allowed changes of one run: it keeps its status and its lease's owner; a worker starts it under
-- a token that was issued, while its project has no writer; or it leaves for another status and has
-- no lease.
pub data Legal (issued : List String) (runs : List RunRecord) (old new : RunRecord) : Type 0 where
  keeps :
      new.status ≡ old.status
      → new.lease_owner ≡ old.lease_owner
      → is_some new.lease_expires_at ≡ is_some old.lease_expires_at
      → Legal issued runs old new
  starts :
      (token : String)
      → token ∈ issued
      → old.status ≡ RunStatus.queued
      → new.status ≡ RunStatus.running
      → new.lease_owner ≡ some token
      → is_some new.lease_expires_at ≡ true
      → writers old.project_id runs ≡ zero
      → Legal issued runs old new
  leaves :
      may_leave old.status new.status ≡ true
      → new.lease_owner ≡ none
      → new.lease_expires_at ≡ none
      → Legal issued runs old new

-- A requested cancellation stays requested, and a run for which it is requested ends cancelled.
pub record RespectsCancel (old new : RunRecord) : Type 0 where
  pub law :
      (not (is_some old.cancel_requested_at)
        || is_some new.cancel_requested_at
          && (is_terminal old.status || not (is_terminal new.status) || is_cancelled new.status))
      ≡ true

pub RespectsCancel-kept :
    (old new : RunRecord)
    → new.status ≡ old.status
    → new.cancel_requested_at ≡ old.cancel_requested_at
    → RespectsCancel old new
RespectsCancel-kept old new s c = record { law = rw (s, c) (ground arith) }

pub RespectsCancel-alive :
    (old new : RunRecord)
    → is_terminal new.status ≡ false
    → new.cancel_requested_at ≡ old.cancel_requested_at
    → RespectsCancel old new
RespectsCancel-alive old new s c = record { law = rw (s, c) (ground arith) }

-- A sequence of allowed changes of the table, the tokens of its starts being among the issued ones.
pub data Moves (issued : List String) : List RunRecord → List RunRecord → Type 0 where
  done : (runs : List RunRecord) → Moves issued runs runs
  change :
      {runs later : List RunRecord} (old new : RunRecord)
      → In old runs
      → old.id ≡ new.id
      → old.project_id ≡ new.project_id
      → RespectsCancel old new
      → Legal issued runs old new
      → Moves issued (put_run new runs) later
      → Moves issued runs later
  create :
      {runs later : List RunRecord} (new : RunRecord)
      → contains (run_ids runs) new.id ≡ false
      → new.status ≡ RunStatus.queued
      → new.lease_owner ≡ none
      → new.lease_expires_at ≡ none
      → Moves issued (new ∷ runs) later
      → Moves issued runs later

pub Moves-trans :
    {issued : List String} {a b c : List RunRecord}
    → Moves issued a b
    → Moves issued b c
    → Moves issued a c
Moves-trans (done runs) n = n
Moves-trans (change old new m i p k l rest) n = change old new m i p k l (Moves-trans rest n)
Moves-trans (create new f q o e rest) n = create new f q o e (Moves-trans rest n)
