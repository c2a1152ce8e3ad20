-- ===== src/Runs/Phase.antt =====
-- The progress of a run under its lease: `set_run_phase`, `increment_repair_round`,
-- `set_sandbox_id`, `set_preview_url` and `ensure_pi_session_id`.
use Prim.Native.String.{count}
use fomo_demo.Prelude.{
  ℕ, suc, String, Option, none, some, [], ◌∷◌, Result, ok, ◌>>=◌, ◌>>◌, guard, not, is_blank, ◌||◌,
  ltb,
}
use fomo_demo.Runs.{
  RunRecord, RunStatus, RunPhase, text, number, Database, RepositoryError, invalid, status_value,
  phase_value,
}
use fomo_demo.Runs.Store.{set_run, append_event, status_changed, run_for_write}

abbrev pub new_status : Option RunStatus → RunStatus → RunStatus
new_status none s = s
new_status (some t) s = t

unfoldable pub set_run_phase :
    ℕ
    → String
    → RunPhase
    → Option RunStatus
    → Option String
    → Database
    → Result RepositoryError Database
set_run_phase now run_id phase status token db = do
  locked ← run_for_write now run_id token db
  let new : RunRecord = record locked.0 {
    status = new_status status locked.0.status;
    phase = phase;
    updated_at = now;
  }
  ok (status_changed new (set_run new locked.1))

unfoldable pub increment_repair_round :
    ℕ → String → RunPhase → Option String → Database → Result RepositoryError (ℕ × Database)
increment_repair_round now run_id phase token db = do
  locked ← run_for_write now run_id token db
  let new : RunRecord = record locked.0 {
    repair_round = suc locked.0.repair_round;
    phase = phase;
    updated_at = now;
  }
  ok (
    new.repair_round,
    append_event new.id "run.status_changed" none
        (("status", text (status_value new.status))
          ∷ ("phase", text (phase_value new.phase))
          ∷ ("repairRound", number new.repair_round)
          ∷ [])
        (set_run new locked.1),
  )

unfoldable pub set_sandbox_id :
    ℕ → String → String → Option String → Database → Result RepositoryError Database
set_sandbox_id now run_id sandbox_id token db = do
  locked ← run_for_write now run_id token db
  ok (set_run (record locked.0 { sandbox_id = some sandbox_id; updated_at = now }) locked.1)

unfoldable pub set_preview_url :
    ℕ → String → Option String → Option String → Database → Result RepositoryError Database
set_preview_url now run_id url token db = do
  locked ← run_for_write now run_id token db
  ok (set_run (record locked.0 { preview_url = url; updated_at = now }) locked.1)

-- The session of the run, which is set once; where it is set already, nothing is committed.
unfoldable pub keep_session :
    ℕ → String → Option String → RunRecord → Database → Database → String × Database
keep_session now proposed none r before db =
    (proposed, set_run (record r { pi_session_id = some proposed; updated_at = now }) db)
keep_session now proposed (some s) r before db = (s, before)

unfoldable pub ensure_pi_session_id :
    ℕ → String → String → String → Database → Result RepositoryError (String × Database)
unfolding keep_session
ensure_pi_session_id now run_id proposed token db = do
  guard (not (is_blank proposed || ltb 128 (count proposed)))
      (invalid "Pi session id must be nonempty and bounded")
  locked ← run_for_write now run_id (some token) db
  ok (keep_session now proposed locked.0.pi_session_id locked.0 db locked.1)
