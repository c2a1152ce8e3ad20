-- ===== src/Runs/Moves/Operations.antt =====
-- The operations of the other modules as allowed changes of the table of runs.
use fomo_demo.Prelude.{
  not→false, and_left, and_right, ltb, ◌+◌, ℕ, zero, String, Bool, true, false, ◌||◌, ◌≡◌, refl,
  inl, inr, Option, none, some, List, [], ◌∷◌, In, Distinct, Bool-cases, eq_iff, arith, any, ◌==◌,
  is_some, if◌then◌else◌, leb, ◌∈◌, ok, Option-cases, first-In, >>-eq-ok, sym, not, ok_inj, keep-In,
  ◌&&◌,
}
use fomo_demo.Runs.Store.{
  expires_after, holds_lease, find_run, set_run, find_project, put_run, run_ids, change_project,
  advance_project, by_age, insert_by_age, next_queued, run_id_of, leased_under,
}
use fomo_demo.Runs.{
  is_running, SandboxResource, RunRecord, ProjectRecord, InputRequestRecord, Database, is_queued,
  RunStatus,
}
use fomo_demo.Runs.Lease.{
  microseconds, renew_of, claim_next_run, renew_lease, claimed, next_claimable, is_candidate,
  is_other_writer,
}
use fomo_demo.Runs.Moves.{
  RespectsCancel-kept, RespectsCancel-alive, starts, keeps, done, change, Moves, writers,
}
use fomo_demo.Runs.Moves.Rows.{find_run-In, In-unique}
use fomo_demo.Runs.Ending.{withdraw_request}

pub change_project-runs :
    (p : Option ProjectRecord) (active : Option String) (status : String) (now : ℕ) (db : Database)
    → (change_project p active status now db).runs ≡ db.runs
change_project-runs none active status now db = refl
change_project-runs (some p) active status now db = refl

pub advance_project-runs :
    (now : ℕ) (r : RunRecord) (db : Database) → (advance_project now r db).runs ≡ db.runs
unfolding advance_project
advance_project-runs now r db =
    let next = next_queued r.project_id db.runs in
    change_project-runs (find_project db.projects r.project_id) (run_id_of next)
      (if is_some next then "queued" else "idle") now db

pub withdraw_request-runs :
    (q : Option InputRequestRecord) (db : Database) → (withdraw_request q db).runs ≡ db.runs
withdraw_request-runs none db = refl
withdraw_request-runs (some q) db = refl

insert_by_age-In :
    (r x : RunRecord) (xs : List RunRecord) → In r (insert_by_age x xs) → In r (x ∷ xs)
unfolding insert_by_age
insert_by_age-In r x [] m = m
insert_by_age-In r x (y ∷ ys) m = elim (Bool-cases (leb x.created_at y.created_at)) [
  | inl e ↦ rw e at m
  | inr e ↦ elim (rw e at m) [
    | inl same ↦ inr (inl same)
    | inr later ↦ elim (insert_by_age-In r x ys later) [
      | inl same ↦ inl same
      | inr rest ↦ inr (inr rest)
    ]
  ]
]

pub by_age-In : (r : RunRecord) (xs : List RunRecord) → In r (by_age xs) → In r xs
unfolding by_age
by_age-In r [] m = m
by_age-In r (x ∷ xs) m = elim (insert_by_age-In r x (by_age xs) m) [
  | inl same ↦ inl same
  | inr rest ↦ inr (by_age-In r xs rest)
]

none_later : (a b : Bool) → (a || b) ≡ false → b ≡ false
none_later a b h = ground arith

-- A run's project has no writer where no other run writes for it and the run itself is queued.
no_writer :
    (r : RunRecord) (runs rest : List RunRecord)
    → Distinct (run_ids runs)
    → In r runs
    → is_queued r.status ≡ true
    → ((w : RunRecord) → In w rest → In w runs)
    → any (is_other_writer r) rest ≡ false
    → writers r.project_id rest ≡ zero
no_writer r runs [] d m q f h = refl
no_writer r runs (w ∷ ws) d m q f h =
    let later =
      no_writer r runs ws d m q (λ (v : RunRecord) (n : In v ws). f v (inr n))
        (none_later (is_other_writer r w) (any (is_other_writer r) ws) h) in
    elim (Bool-cases (w.id == r.id)) [
      | inl e ↦
          let same : w ≡ r = In-unique w r runs d (f w (inl refl)) m ((eq_iff w.id r.id).0 e) in
          rw same (ground (arith, later))
      | inr e ↦ ground (arith, later, e)
    ]

is_candidate-queued :
    (resources : List SandboxResource) (r : RunRecord)
    → is_candidate resources r ≡ true
    → is_queued r.status ≡ true
unfolding is_candidate
is_candidate-queued resources r h = and_left _ _ h

is_queued-queued : (s : RunStatus) → is_queued s ≡ true → s ≡ RunStatus.queued
is_queued-queued RunStatus.queued h = refl
is_queued-queued RunStatus.running h = cc
is_queued-queued RunStatus.waiting_for_user h = cc
is_queued-queued RunStatus.needs_attention h = cc
is_queued-queued RunStatus.succeeded h = cc
is_queued-queued RunStatus.failed h = cc
is_queued-queued RunStatus.cancelled h = cc

-- The run that can be claimed is a queued row of the table, and its project has no writer.
pub next_claimable-IsQuiet :
    (db : Database) (r : RunRecord)
    → Distinct (run_ids db.runs)
    → next_claimable db ≡ some r
    → In r db.runs × (r.status ≡ RunStatus.queued) × (writers r.project_id db.runs ≡ zero)
unfolding next_claimable
next_claimable-IsQuiet db r d h =
    let (m, quiet) = first-In (λ (x : RunRecord). not (any (is_other_writer x) db.runs)) r _ h in
    let (n, c) = keep-In (is_candidate db.resources) r db.runs (by_age-In r _ m) in
    let q : is_queued r.status ≡ true = is_candidate-queued db.resources r c in
    (
      n,
      is_queued-queued r.status q,
      no_writer r db.runs db.runs d n q (λ (w : RunRecord) (i : In w db.runs). i)
          (not→false _ quiet),
    )

pub claim_next_run-Moves :
    (issued : List String) (now lease_seconds : ℕ) (token : String) (db : Database)
    → token ∈ issued
    → Distinct (run_ids db.runs)
    → Moves issued db.runs (claim_next_run now lease_seconds token db).1.runs
unfolding claim_next_run
claim_next_run-Moves issued now lease_seconds token db i d =
    elim (Option-cases (next_claimable db)) [
      | inl e ↦ rw e (done db.runs)
      | inr (r, e) ↦
          let (m, q, w) = next_claimable-IsQuiet db r d e in
          let new : RunRecord = claimed now lease_seconds token r in
          rw
            (
              e,
              change_project-runs (find_project db.projects r.project_id) (some r.id) "running" now
                  (set_run new db),
            )
            (change r new m refl refl (RespectsCancel-alive _ _ refl refl)
              (starts token i q refl refl refl w) (done (put_run new db.runs)))
    ]

expires_later : (at : Option ℕ) (now : ℕ) → expires_after at now ≡ true → true ≡ is_some at
expires_later none now h = cc
expires_later (some at) now h = refl

leased_has_expiry :
    (now : ℕ) (token : String) (r : RunRecord)
    → holds_lease now token r ≡ true
    → true ≡ is_some r.lease_expires_at
unfolding holds_lease
leased_has_expiry now token r h =
    expires_later r.lease_expires_at now
      (and_right (is_running r.status && leased_under r.lease_owner token) _ h)

renew_of-Moves :
    (issued : List String) (now : ℕ) (token : String) (lease_seconds : ℕ) (db : Database)
    (id : String) (o : Option RunRecord)
    → find_run db.runs id ≡ o
    → Moves issued db.runs (renew_of now lease_seconds token o db).1.runs
unfolding renew_of
renew_of-Moves issued now token lease_seconds db id none f = done db.runs
renew_of-Moves issued now token lease_seconds db id (some r) f =
    elim (Bool-cases (holds_lease now token r)) [
      | inr e ↦ rw e (done db.runs)
      | inl e ↦
          let new : RunRecord = record r {
            lease_expires_at = some (now + microseconds lease_seconds);
            updated_at = now;
          } in
          rw e (
            change r new (find_run-In db.runs id r f).0 refl refl
              (RespectsCancel-kept _ _ refl refl)
              (keeps refl refl (leased_has_expiry now token r e)) (done (put_run new db.runs)))
    ]

pub renew_lease-Moves :
    (issued : List String) (now : ℕ) (id token : String) (lease_seconds : ℕ) (db : Database)
    (result : Bool × Database)
    → renew_lease now id token lease_seconds db ≡ ok result
    → Moves issued db.runs result.1.runs
unfolding renew_lease
renew_lease-Moves issued now id token lease_seconds db result h =
    let (positive, e) = >>-eq-ok (ltb 0 lease_seconds) _ _ h in
    rw (sym (ok_inj e))
      (renew_of-Moves issued now token lease_seconds db id (find_run db.runs id) refl)
