-- ===== src/Runs/History/Steps.antt =====
-- Calls as allowed changes of the table of runs.
use fomo_demo.Prelude.{
  ℕ, String, ◌≡◌, refl, List, [], ◌∷◌, ◌++◌, Result, ok, err, All, ◌∈◌, Distinct,
}
use fomo_demo.Runs.{Database, RepositoryError}
use fomo_demo.Runs.Store.{run_ids}
use fomo_demo.Runs.Moves.{Moves, done, Moves-trans}
use fomo_demo.Runs.Moves.Invariant.{IsSound, Moves-IsSound}
use fomo_demo.Runs.Moves.Operations.{claim_next_run-Moves, renew_lease-Moves}
use fomo_demo.Runs.Moves.Writes.{
  set_run_phase-Moves, increment_repair_round-Moves, set_sandbox_id-Moves, set_preview_url-Moves,
  ensure_pi_session_id-Moves, mark_terminal-Moves, request_cancel-Moves,
}
use fomo_demo.Runs.Moves.Questions.{
  wait_for_user_input-Moves, answer_user_input-Moves, complete_run_continuation-Moves,
}
use fomo_demo.Runs.Moves.Submissions.{
  create_message_and_run-Moves, register_sandbox_resource-Moves, clear_sandbox_id-Moves,
  acknowledge_sandbox_cleanup-runs,
}
use fomo_demo.Runs.History.{
  RepositoryCall, committed, perform_call, perform_all, token_of, tokens_of,
}
use fomo_demo.Runs.Moves.Outcomes.{
  finalize_verified_publish-Moves, recover_expired_running_runs-Moves,
}
use fomo_demo.Runs.Moves.Recoveries.{create_recovery_message_and_run-Moves}

committed-Moves :
    {A : Type 0} (issued : List String) (tables : A → Database) (before : Database)
    (result : Result RepositoryError A)
    → ((a : A) → result ≡ ok a → Moves issued before.runs (tables a).runs)
    → Moves issued before.runs (committed tables before result).runs
committed-Moves issued tables before (ok a) f = f a refl
committed-Moves issued tables before (err e) f = done before.runs

-- The tokens are among the issued ones.
abbrev pub AreIssued : List String → List String → Type 0
AreIssued issued = All (λ (token : String). token ∈ issued)

All-parts : {A : Type 0} (P : A → Type 0) (xs ys : List A) → All P (xs ++ ys) → All P xs × All P ys
All-parts P [] ys a = (tt, a)
All-parts P (x ∷ xs) ys a = let (l, r) = All-parts P xs ys a.1 in ((a.0, l), r)

module _ (byte_count : String → ℕ) (strip normalized : String → String) (str : ℕ → String) where
  perform_call-Moves :
      (issued : List String) (c : RepositoryCall) (db : Database)
      → AreIssued issued (token_of c)
      → Distinct (run_ids db.runs)
      → Moves issued db.runs (perform_call byte_count strip normalized str c db).runs
  unfolding perform_call
  perform_call-Moves issued (RepositoryCall.submit now run_id message_id s) db i d =
      committed-Moves issued _ db _
        (create_message_and_run-Moves normalized issued now run_id message_id s db)
  perform_call-Moves issued (RepositoryCall.claim now lease_seconds token) db i d =
      claim_next_run-Moves issued now lease_seconds token db i.0 d
  perform_call-Moves issued (RepositoryCall.renew now id token lease_seconds) db i d =
      committed-Moves issued _ db _ (renew_lease-Moves issued now id token lease_seconds db)
  perform_call-Moves issued (RepositoryCall.cancel now id) db i d =
      committed-Moves issued _ db _ (request_cancel-Moves issued now id db)
  perform_call-Moves issued (RepositoryCall.finish now id status code summary token) db i d =
      committed-Moves issued _ db _
        (λ a h. mark_terminal-Moves issued now id status code summary token db a h d)
  perform_call-Moves issued (RepositoryCall.ask now request_id id draft c token) db i d =
      committed-Moves issued _ db _ (λ a h.
        wait_for_user_input-Moves byte_count issued now request_id id draft c token db a h d)
  perform_call-Moves issued
        (RepositoryCall.answer now message_id id request_id session_id client_id text) db i d =
      committed-Moves issued _ db _ (
        answer_user_input-Moves strip issued now message_id id request_id session_id client_id text
          db)
  perform_call-Moves issued (RepositoryCall.go_on now id request_id token) db i d =
      committed-Moves issued _ db _
        (λ a h. complete_run_continuation-Moves issued now id request_id token db a h d)
  perform_call-Moves issued (RepositoryCall.enter_phase now id phase token) db i d =
      committed-Moves issued _ db _ (λ a h. set_run_phase-Moves issued now id phase token db a h d)
  perform_call-Moves issued (RepositoryCall.repair_again now id phase token) db i d =
      committed-Moves issued _ db _
        (λ a h. increment_repair_round-Moves issued now id phase token db a h d)
  perform_call-Moves issued (RepositoryCall.use_sandbox now id sandbox_id token) db i d =
      committed-Moves issued _ db _
        (λ a h. set_sandbox_id-Moves issued now id sandbox_id token db a h d)
  perform_call-Moves issued (RepositoryCall.show_preview now id url token) db i d =
      committed-Moves issued _ db _ (λ a h. set_preview_url-Moves issued now id url token db a h d)
  perform_call-Moves issued (RepositoryCall.use_session now id proposed token) db i d =
      committed-Moves issued _ db _
        (λ a h. ensure_pi_session_id-Moves issued now id proposed token db a h d)
  perform_call-Moves issued (RepositoryCall.add_sandbox now resource_id id sandbox_id kind token) db
        i d =
      committed-Moves issued _ db _
        (register_sandbox_resource-Moves strip issued now resource_id id sandbox_id kind token db)
  perform_call-Moves issued (RepositoryCall.clean_sandbox now resource_id) db i d =
      rw (acknowledge_sandbox_cleanup-runs now resource_id db) (done db.runs)
  perform_call-Moves issued (RepositoryCall.drop_sandbox now id sandbox_id token) db i d =
      committed-Moves issued _ db _
        (λ a h. clear_sandbox_id-Moves issued now id sandbox_id token db a h d)
  perform_call-Moves issued (RepositoryCall.publish now id token p) db i d =
      committed-Moves issued _ db _
        (λ a h. finalize_verified_publish-Moves str issued now id token p db a h d)
  perform_call-Moves issued (RepositoryCall.recover_expired now cutoff goals) db i d =
      recover_expired_running_runs-Moves issued now cutoff goals db
  perform_call-Moves issued (RepositoryCall.fork now run_id message_id q checkpoints) db i d =
      committed-Moves issued _ db _ (
        create_recovery_message_and_run-Moves normalized str issued now run_id message_id q
          checkpoints db)

  pub perform_all-Moves :
      (issued : List String) (cs : List RepositoryCall) (db : Database)
      → AreIssued issued (tokens_of cs)
      → IsSound db.runs
      → Moves issued db.runs (perform_all byte_count strip normalized str cs db).runs
  unfolding perform_all
  perform_all-Moves issued [] db i s = done db.runs
  perform_all-Moves issued (c ∷ cs) db i s =
      let (now, later) =
        All-parts (λ (token : String). token ∈ issued) (token_of c) (tokens_of cs) i in
      let first : Moves issued db.runs (perform_call byte_count strip normalized str c db).runs =
        perform_call-Moves issued c db now s.distinct in
      Moves-trans first (
        perform_all-Moves issued cs (perform_call byte_count strip normalized str c db) later
          (Moves-IsSound issued db.runs _ first s))
