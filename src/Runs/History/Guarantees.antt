-- ===== src/Runs/History/Guarantees.antt =====
-- The table of runs after any sequence of the calls of RepositoryCall.
use fomo_demo.Prelude.{
  ℕ, String, true, false, not, ◌||◌, ◌≡◌, refl, sym, ◌⊎◌, inl, inr, some, List, [], ◌∷◌, ok, err,
  All-In, All-of, In, contains, ◌∈◌, Distinct, arith, ok_inj, Bool-cases, Option-cases, eq_iff,
}
use fomo_demo.Runs.{RunRecord, RunStatus, Database, lease_lost, is_terminal, is_queued, is_waiting}
use fomo_demo.Runs.Store.{
  find_run, run_ids, run_for_write, holds_lease, leased_under, pending_request,
}
use fomo_demo.Runs.Ending.{
  request_cancel, is_cancelled, cancel_of, cancel_idle, cancel_busy, withdrawn,
}
use fomo_demo.Runs.Moves.{Moves}
use fomo_demo.Runs.Moves.Rows.{In-find_run, find_run-In, put_run-In}
use fomo_demo.Runs.Moves.Operations.{advance_project-runs, withdraw_request-runs}
use fomo_demo.Runs.Moves.Writes.{request_cancel-Moves}
use fomo_demo.Runs.Moves.Invariant.{IsSound, Moves-IsSound}
use fomo_demo.Runs.Moves.Traces.{
  IsUnowned, Moves-IsUnowned, Moves-HasStatus, IsCancelling, Moves-IsCancelling,
}
use fomo_demo.Runs.History.{RepositoryCall, perform_all, tokens_of}
use fomo_demo.Runs.History.Steps.{AreIssued, perform_all-Moves}

In-contains : (x : String) (xs : List String) → In x xs → x ∈ xs
In-contains x [] m = absurd m
In-contains x (y ∷ ys) (inl e) = ground (arith, eq_iff y x)
In-contains x (y ∷ ys) (inr m) = ground (arith, In-contains x ys m)

issued_self : (xs : List String) → AreIssued xs xs
issued_self xs =
    All-of (λ (x : String). x ∈ xs) xs (λ (x : String) (m : In x xs). In-contains x xs m)

unowned_refused :
    (now : ℕ) (token : String) (r : RunRecord)
    → leased_under r.lease_owner token ≡ false
    → holds_lease now token r ≡ false
unfolding holds_lease
unowned_refused now token r u = rw u (ground arith)

run_for_write-IsUnowned :
    (now : ℕ) (id token : String) (db : Database)
    → IsUnowned token db.runs
    → run_for_write now id (some token) db ≡ err lease_lost
unfolding run_for_write
run_for_write-IsUnowned now id token db u = elim (Option-cases (find_run db.runs id)) [
  | inl e ↦ rw e refl
  | inr (r, e) ↦
      let m : In r db.runs = (find_run-In db.runs id r e).0 in
      let refused =
        unowned_refused now token r
          (All-In (λ (x : RunRecord). leased_under x.lease_owner token ≡ false) r db.runs u m) in
      rw (e, refused) refl
]

alive_or_cancelled :
    (s : RunStatus)
    → (not (is_terminal s) || is_cancelled s) ≡ true
    → (is_terminal s ≡ false) ⊎ (s ≡ RunStatus.cancelled)
alive_or_cancelled RunStatus.queued h = inl refl
alive_or_cancelled RunStatus.running h = inl refl
alive_or_cancelled RunStatus.waiting_for_user h = inl refl
alive_or_cancelled RunStatus.needs_attention h = cc
alive_or_cancelled RunStatus.succeeded h = cc
alive_or_cancelled RunStatus.failed h = cc
alive_or_cancelled RunStatus.cancelled h = inr refl

cancel_idle-IsCancelling :
    (now : ℕ) (id : String) (r : RunRecord) (db : Database)
    → Distinct (run_ids db.runs)
    → In r db.runs
    → r.id ≡ id
    → IsCancelling id (cancel_idle now r db).runs
unfolding cancel_idle
cancel_idle-IsCancelling now id r db d m e =
    rw
      (
        advance_project-runs now (withdrawn now r) _,
        withdraw_request-runs (pending_request db.requests r.id) db,
      )
      (withdrawn now r, put_run-In r (withdrawn now r) db.runs d m refl, e, refl, refl)

request_cancel-IsCancelling :
    (now : ℕ) (id : String) (r : RunRecord) (db after : Database)
    → Distinct (run_ids db.runs)
    → find_run db.runs id ≡ some r
    → is_terminal r.status ≡ false
    → request_cancel now id db ≡ ok after
    → IsCancelling id after.runs
unfolding request_cancel cancel_of cancel_busy
request_cancel-IsCancelling now id r db after d f alive h =
    let (m, e) = find_run-In db.runs id r f in
    let done : cancel_of now r db ≡ after = ok_inj (rw f at h) in
    elim (Bool-cases (is_queued r.status || is_waiting r.status)) [
      | inl idle ↦ rw (sym (rw idle at done)) (cancel_idle-IsCancelling now id r db d m e)
      | inr busy ↦
          let new : RunRecord = record r { cancel_requested_at = some now; updated_at = now } in
          rw (sym (rw (busy, alive) at done))
            (new, put_run-In r new db.runs d m refl, e, refl, rw alive refl)
    ]

module _ (byte_count : String → ℕ) (strip normalized : String → String) (str : ℕ → String) where
  calls-Moves :
      (cs : List RepositoryCall) (db : Database)
      → IsSound db.runs
      → Moves (tokens_of cs) db.runs (perform_all byte_count strip normalized str cs db).runs
  calls-Moves cs db s =
      perform_all-Moves byte_count strip normalized str (tokens_of cs) cs db
        (issued_self (tokens_of cs)) s

  -- If the ids of the runs differ, every project has at most one run that is running or waiting for the
  -- user, and exactly the running runs have a lease, then all of this holds after any sequence of the
  -- calls of RepositoryCall, among them every method that creates a run or writes its status or its
  -- lease, with set_run_phase without a status.
  pub perform_all-IsSound :
      (cs : List RepositoryCall) (db : Database)
      → IsSound db.runs
      → IsSound (perform_all byte_count strip normalized str cs db).runs
  perform_all-IsSound cs db s = Moves-IsSound (tokens_of cs) db.runs _ (calls-Moves cs db s) s

  -- In sound tables, a run that has ended is still there after any sequence of the calls of
  -- RepositoryCall, with the same status.
  pub perform_all-final :
      (cs : List RepositoryCall) (db : Database) (id : String) (r : RunRecord)
      → IsSound db.runs
      → find_run db.runs id ≡ some r
      → is_terminal r.status ≡ true
      → (later : RunRecord) × (find_run (perform_all byte_count strip normalized str cs db).runs id
          ≡ some later)
        × (later.status ≡ r.status)
  perform_all-final cs db id r s f t =
      let (m, e) = find_run-In db.runs id r f in
      let (later, n, i, same) =
        Moves-HasStatus (tokens_of cs) db.runs _ id r.status t (calls-Moves cs db s) s
          (r, m, e, refl) in
      (later, In-find_run later id _ (perform_all-IsSound cs db s).distinct n i, same)

  -- In sound tables, where no run is leased under a token and no later call issues it again, the fence
  -- refuses every write under the token after any sequence of the calls of RepositoryCall.
  pub perform_all-fenced :
      (cs : List RepositoryCall) (db : Database) (token id : String) (now : ℕ)
      → IsSound db.runs
      → IsUnowned token db.runs
      → contains (tokens_of cs) token ≡ false
      → run_for_write now id (some token) (perform_all byte_count strip normalized str cs db)
        ≡ err lease_lost
  perform_all-fenced cs db token id now s u f =
      run_for_write-IsUnowned now id token (perform_all byte_count strip normalized str cs db)
        (Moves-IsUnowned (tokens_of cs) db.runs _ token f (calls-Moves cs db s) u)

  -- In sound tables, after the cancellation of a run that has not ended was requested, and then any
  -- sequence of the calls of RepositoryCall, the run has not ended or it is cancelled.
  pub request_cancel-final :
      (cs : List RepositoryCall) (now : ℕ) (id : String) (r : RunRecord) (db after : Database)
      → IsSound db.runs
      → find_run db.runs id ≡ some r
      → is_terminal r.status ≡ false
      → request_cancel now id db ≡ ok after
      → (later : RunRecord) × (find_run
            (perform_all byte_count strip normalized str cs after).runs
            id
          ≡ some later)
        × ((is_terminal later.status ≡ false) ⊎ (later.status ≡ RunStatus.cancelled))
  request_cancel-final cs now id r db after s f alive h =
      let sound : IsSound after.runs =
        Moves-IsSound [] db.runs _ (request_cancel-Moves [] now id db after h) s in
      let (later, m, e, c, t) =
        Moves-IsCancelling (tokens_of cs) after.runs _ id (calls-Moves cs after sound) sound
          (request_cancel-IsCancelling now id r db after s.distinct f alive h) in
      (
        later,
        In-find_run later id _ (perform_all-IsSound cs after sound).distinct m e,
        alive_or_cancelled later.status t,
      )
