-- ===== src/Tests/RuntimeTests.antt =====
-- Failures and settlement at concrete inputs.
use fomo_demo.Prelude.{
  zero, suc, ok, err, ◌≡◌, refl, some, none, List, [], ◌∷◌, false, String, ◌↔◌, contains, is_empty,
  ℕ, ◌&&◌,
}
use fomo_demo.Failures.Table.{coding_agent_failed, run_token_budget_exceeded}
use fomo_demo.Failures.Classify.{
  ErrorClass, Argument, Store, classify_direct_pi_failure, classify_object, get_or,
  public_bridge_failure, diagnose_workspace, workspace_diagnostic,
}
use fomo_demo.Failures.Classify.Closed.{IsCanonical, classify-IsCanonical}
use fomo_demo.Failures.Classify.Chain.{first_of_chain, classify_direct_pi_failure-first}
use fomo_demo.Failures.{SafeRunDiagnostic}
use fomo_demo.Failures.Payload.{event_payload, diagnostic_payload}
use fomo_demo.Failures.Payload.Bounds.{diagnose_workspace-publishable}
use fomo_demo.Settlement.{
  RuntimeTurnReceipt, must_change, TurnSettlement, settle_workspace_turn, no_effect,
  no_effect_diagnostic, is_must_change,
}
use fomo_demo.Settlement.Turn.{settle_workspace_turn_refused, settle_workspace_turn_admitted}

-- A wrapper whose cause is a session that ran out of tokens, whose context is the wrapper.
abbrev wrapped : Store
wrapped zero = record {
  class = ErrorClass.other_error;
  args = [];
  diagnostic = none;
  cause = some 1;
  context = none;
}
wrapped (suc n) = record {
  class = ErrorClass.session;
  args = Argument.text "Direct Pi exceeded the run token budget" ∷ [];
  diagnostic = none;
  cause = none;
  context = some 0;
}

token_budget_is_found : classify_direct_pi_failure wrapped 0 ≡ run_token_budget_exceeded
unfolding classify_direct_pi_failure
token_budget_is_found = refl

IsCanonical-example :
    IsCanonical (classify_direct_pi_failure wrapped 0)
    × IsCanonical (public_bridge_failure (some "codex_model_failed"))
IsCanonical-example = classify-IsCanonical wrapped 0 (some "codex_model_failed")

chain_example :
    classify_direct_pi_failure wrapped 0
    ≡ get_or (first_of_chain classify_object wrapped 8 (some 0)) coding_agent_failed
chain_example = classify_direct_pi_failure-first wrapped 0

abbrev rejection : ErrorClass
rejection = ErrorClass.workspace_contract none

abbrev rejection_diagnostic : SafeRunDiagnostic
rejection_diagnostic =
    workspace_diagnostic "workspace_contract_rejected"
      "The candidate failed a server-owned workspace integrity check." false []

is_diagnosed : diagnose_workspace rejection ≡ some rejection_diagnostic
unfolding diagnose_workspace
is_diagnosed = refl

publishable_example :
    event_payload rejection_diagnostic ≡ ok (diagnostic_payload rejection_diagnostic)
publishable_example =
    diagnose_workspace-publishable rejection rejection_diagnostic is_diagnosed refl

abbrev pub no_text : ℕ → String
no_text n = "0"

abbrev receipt : RuntimeTurnReceipt
receipt = record {
  request_id = "r1";
  framework = "pi";
  stage = "building";
  session_id = "s1";
  tool_calls = 0;
  attestation = none;
}

refused_example :
    (settle_workspace_turn no_text receipt [] must_change
      ≡ err (no_effect (no_effect_diagnostic no_text receipt)))
    ↔ ((must_change ≡ must_change) × (◌≡◌ {A = List String} [] []))
refused_example = settle_workspace_turn_refused no_text receipt [] must_change

abbrev settled : TurnSettlement
settled = record {
  effect_policy = must_change;
  changed_paths = "a.ts" ∷ "b.ts" ∷ [];
  tool_calls = 0;
  no_op = false;
}

is_settled :
    settle_workspace_turn no_text receipt ("b.ts" ∷ "a.ts" ∷ "b.ts" ∷ []) must_change ≡ ok settled
unfolding settle_workspace_turn
is_settled = refl

admitted_example :
    ((p : String) → contains settled.changed_paths p ≡ contains ("b.ts" ∷ "a.ts" ∷ "b.ts" ∷ []) p)
    × (settled.no_op ≡ is_empty {A = String} ("b.ts" ∷ "a.ts" ∷ "b.ts" ∷ []))
    × ((is_must_change must_change && settled.no_op) ≡ false)
admitted_example =
    settle_workspace_turn_admitted no_text receipt ("b.ts" ∷ "a.ts" ∷ "b.ts" ∷ []) must_change
      settled is_settled
