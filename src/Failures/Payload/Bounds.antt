-- ===== src/Failures/Payload/Bounds.antt =====
-- What the server writes about a rejected workspace can be published.
use fomo_demo.Prelude.{
  String, Bool, true, ◌≡◌, refl, Option, none, some, List, ok, leb, length, sym,
}
use fomo_demo.Failures.{SafeRunDiagnostic}
use fomo_demo.Failures.Classify.{
  ErrorClass, WorkspaceRepairCode, diagnose_workspace, workspace_frame, workspace_diagnostic,
  repair_code_value,
}
use fomo_demo.Failures.Payload.{event_payload, diagnostic_payload, is_safe_frame}

some_inj : {A : Type 0} {a b : A} → ◌≡◌ {A = Option A} (some a) (some b) → a ≡ b
some_inj h = cc

safe_workspace_frame : (c : WorkspaceRepairCode) → is_safe_frame (workspace_frame c) ≡ true
safe_workspace_frame WorkspaceRepairCode.protected_file_changed = refl
safe_workspace_frame WorkspaceRepairCode.protected_file_missing = refl
safe_workspace_frame WorkspaceRepairCode.rejected_secret_file = refl
safe_workspace_frame WorkspaceRepairCode.unsupported_source_type = refl
safe_workspace_frame WorkspaceRepairCode.invalid_source_encoding = refl

publishable :
    (reason frame : String) (retryable : Bool) (files : List String)
    → is_safe_frame frame ≡ true
    → leb (length files) 8 ≡ true
    → event_payload (workspace_diagnostic reason frame retryable files)
      ≡ ok (diagnostic_payload (workspace_diagnostic reason frame retryable files))
unfolding event_payload
publishable reason frame retryable files safe few = rw (safe, few) refl

-- The diagnostic that a rejected workspace gets is publishable whatever the reason of the rejection
-- was: its payload is built without an exception if eight files at most are named.
pub diagnose_workspace-publishable :
    (class : ErrorClass) (d : SafeRunDiagnostic)
    → diagnose_workspace class ≡ some d
    → leb (length d.affected_files) 8 ≡ true
    → event_payload d ≡ ok (diagnostic_payload d)
unfolding diagnose_workspace event_payload
diagnose_workspace-publishable (ErrorClass.workspace_contract none) d h n =
    let same = some_inj h in rw (sym same) refl
diagnose_workspace-publishable (ErrorClass.workspace_contract (some r)) d h n =
    let same = some_inj h in
    rw (sym same) (
      publishable (repair_code_value r.code) (workspace_frame r.code) true r.affected_files
        (safe_workspace_frame r.code) (rw (sym same) at n))
diagnose_workspace-publishable _ d h n = cc
