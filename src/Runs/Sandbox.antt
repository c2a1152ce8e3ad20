-- ===== src/Runs/Sandbox.antt =====
-- The sandboxes of a run: their registration, their cleaning and which of them may be destroyed.
-- `strip` is Python's `str.strip`.
use Prim.Native.String.{count}
use fomo_demo.Prelude.{
  ℕ, String, Bool, true, false, not, ◌&&◌, ◌||◌, Option, none, some, List, [], ◌∷◌, ◌==◌, Result,
  ok, guard, ◌>>=◌, ◌>>◌, keep, first, gather, if◌then◌else◌, is_some, is_blank, ltb,
}
use fomo_demo.Runs.{
  RunRecord, RunStatus, SandboxResource, ResourceKind, Database, RepositoryError, conflict, invalid,
  is_running, is_queued, is_waiting,
}
use fomo_demo.Runs.Ending.{is_cancelled}
use fomo_demo.Runs.Store.{find_run, set_run, or_raise, run_for_write}
use fomo_demo.Runs.Lease.{is_generation, same_sandbox}

abbrev pub same_kind : ResourceKind → ResourceKind → Bool
same_kind ResourceKind.generation k = is_generation k
same_kind ResourceKind.verification k = not (is_generation k)

-- the resource of a run with the sandbox and the kind
abbrev pub is_resource : String → String → ResourceKind → SandboxResource → Bool
is_resource run_id sandbox_id kind s =
    s.run_id == run_id && s.sandbox_id == sandbox_id && same_kind kind s.kind

abbrev pub find_resource :
    List SandboxResource → String → String → ResourceKind → Option SandboxResource
find_resource resources run_id sandbox_id kind =
    first (is_resource run_id sandbox_id kind) resources

unfoldable pub put_resource : SandboxResource → List SandboxResource → List SandboxResource
put_resource new [] = []
put_resource new (r ∷ rs) = if r.id == new.id then new ∷ rs else r ∷ put_resource new rs

abbrev pub set_resources : List SandboxResource → Database → Database
set_resources resources db = record db { resources = resources }

-- A resource that is registered again is live again.
unfoldable pub registered :
    ℕ
    → String
    → String
    → String
    → ResourceKind
    → Option SandboxResource
    → Database
    → String × Database
registered now id run_id sandbox_id kind none db =
    let new : SandboxResource = record {
      id = id;
      run_id = run_id;
      sandbox_id = sandbox_id;
      kind = kind;
      created_at = now;
      cleaned_at = none;
    } in
    (id, set_resources (new ∷ db.resources) db)
registered now id run_id sandbox_id kind (some r) db =
    (r.id, set_resources (put_resource (record r { cleaned_at = none }) db.resources) db)

module _ (strip : String → String) where
  -- `id` is the id that `uuid7()` gives.
  unfoldable pub register_sandbox_resource :
      ℕ
      → String
      → String
      → String
      → ResourceKind
      → String
      → Database
      → Result RepositoryError (String × Database)
  unfolding registered
  register_sandbox_resource now id run_id sandbox_id kind token db = do
    guard (not (is_blank (strip sandbox_id) || ltb 128 (count sandbox_id)))
        (invalid "sandbox_id must be nonempty and bounded")
    locked ← run_for_write now run_id (some token) db
    ok (
        registered now id run_id sandbox_id kind (find_resource db.resources run_id sandbox_id kind)
          locked.1)

unfoldable pub require_live_sandbox_resource :
    ℕ → String → String → ResourceKind → String → Database → Result RepositoryError String
require_live_sandbox_resource now run_id sandbox_id kind token db = do
  locked ← run_for_write now run_id (some token) db
  guard (same_sandbox locked.0.sandbox_id sandbox_id)
      (conflict "continuation sandbox reference changed")
  r ←
      or_raise
        (first
          (λ (s : SandboxResource).
            is_resource run_id sandbox_id kind s && not (is_some s.cleaned_at))
          db.resources)
        (conflict "continuation sandbox resource is unavailable")
  ok r.id

unfoldable pub acknowledged : ℕ → Option SandboxResource → Database → Bool × Database
acknowledged now none db = (false, db)
acknowledged now (some s) db =
    (true, set_resources (put_resource (record s { cleaned_at = some now }) db.resources) db)

-- Whether a row was cleaned, and the tables then.
unfoldable pub acknowledge_sandbox_cleanup : ℕ → String → Database → Bool × Database
unfolding acknowledged
acknowledge_sandbox_cleanup now resource_id db =
    acknowledged now
      (first (λ (s : SandboxResource). s.id == resource_id && not (is_some s.cleaned_at))
        db.resources)
      db

-- The UPDATE of `clear_sandbox_id`.
unfoldable pub forget_sandbox : ℕ → String → Option RunRecord → Database → Bool × Database
forget_sandbox now sandbox_id none db = (false, db)
forget_sandbox now sandbox_id (some r) db =
    if same_sandbox r.sandbox_id sandbox_id
    then (true, set_run (record r { sandbox_id = none; updated_at = now }) db)
    else (false, db)

unfoldable pub clear_sandbox_id :
    ℕ → String → String → Option String → Database → Result RepositoryError (Bool × Database)
unfolding forget_sandbox
clear_sandbox_id now run_id sandbox_id none db =
    ok (forget_sandbox now sandbox_id (find_run db.runs run_id) db)
clear_sandbox_id now run_id sandbox_id (some token) db = do
  locked ← run_for_write now run_id (some token) db
  ok (forget_sandbox now sandbox_id (some locked.0) locked.1)

-- In SQL a comparison with NULL is not false: a row of a run without a sandbox is held back too.
abbrev pub may_be_sandbox : Option String → String → Bool
may_be_sandbox none id = true
may_be_sandbox (some s) id = s == id

-- The sandbox in which a suspended run goes on.
abbrev pub is_continuation_sandbox : RunRecord → SandboxResource → Bool
is_continuation_sandbox r s =
    (is_waiting r.status || is_queued r.status)
    && is_some r.continuation_request_id
    && may_be_sandbox r.sandbox_id s.sandbox_id
    && is_generation s.kind

abbrev pub is_succeeded : RunStatus → Bool
is_succeeded RunStatus.succeeded = true
is_succeeded _ = false

-- The verified preview of a run that succeeded.
abbrev pub is_live_preview : RunRecord → SandboxResource → Bool
is_live_preview r s =
    is_succeeded r.status
    && not (is_generation s.kind)
    && is_some r.preview_url
    && same_sandbox r.sandbox_id s.sandbox_id

-- The conditions of `list_sandbox_cleanup_targets`.
unfoldable pub is_cleanup_target : RunRecord → SandboxResource → Bool
is_cleanup_target r s =
    not (is_some s.cleaned_at)
    && not (is_running r.status)
    && not (is_continuation_sandbox r s)
    && not (is_live_preview r s)

unfoldable pub target_of : Option RunRecord → SandboxResource → List (RunRecord × SandboxResource)
target_of none s = []
target_of (some r) s = if is_cleanup_target r s then (r, s) ∷ [] else []

-- `list_sandbox_cleanup_targets` without its order
unfoldable pub list_sandbox_cleanup_targets :
    Database → Option String → List (RunRecord × SandboxResource)
unfolding target_of is_cleanup_target
list_sandbox_cleanup_targets db run_id =
    gather (λ (s : SandboxResource). target_of (find_run db.runs s.run_id) s)
      (keep (λ (s : SandboxResource). is_asked run_id s.run_id) db.resources)
  where
    is_asked : Option String → String → Bool
    is_asked none id = true
    is_asked (some wanted) id = wanted == id

abbrev pub is_unsuccessful : RunStatus → Bool
is_unsuccessful RunStatus.failed = true
is_unsuccessful RunStatus.cancelled = true
is_unsuccessful RunStatus.needs_attention = true
is_unsuccessful _ = false

-- The runs whose sandbox a crash left, without their order.
unfoldable pub list_terminal_sandbox_cleanup_targets : Database → List RunRecord
list_terminal_sandbox_cleanup_targets db =
    keep
      (λ (r : RunRecord).
        is_unsuccessful r.status
        && is_some r.sandbox_id
        && (is_cancelled r.status || not (is_some r.preview_url)))
      db.runs
