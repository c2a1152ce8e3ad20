-- ===== src/Tests/ContractTests.antt =====
-- Runtime contracts at concrete inputs.
use fomo_demo.Runtime.{
  runtime_profile, RuntimeProfile, gpt_5_5, find_profile, default_max_spend_micros,
}
use fomo_demo.Runtime.Contract.{
  after_slash, RuntimeContract, contract_for, columns_of, resolve_runtime_contract,
  runtime_contract_from_storage, legacy_runtime_contract,
}
use fomo_demo.Runtime.Frameworks.{validate_agent_framework_runtime}
use fomo_demo.Prelude.{◌≡◌, refl, none, some, ok, ◌⊎◌}
use fomo_demo.Runtime.Stored.{resolve-from_storage}
use fomo_demo.Runtime.Accepted.{IsWithin, runtime_contract_from_storage-IsWithin}
use fomo_demo.Runtime.Admission.{validate_agent_framework_runtime-resolves}
use fomo_demo.Tests.Data.{keep_text}

abbrev thrifty : RuntimeContract
thrifty = contract_for gpt_5_5 "low" 300000 5000000

stored_example : runtime_contract_from_storage (columns_of thrifty) ≡ ok thrifty
unfolding resolve_runtime_contract runtime_profile
stored_example = resolve-from_storage "gpt-5.5" (some "low") (some 300000) none thrifty refl

IsWithin-example : (thrifty ≡ legacy_runtime_contract) ⊎ IsWithin thrifty
unfolding runtime_contract_from_storage resolve_runtime_contract runtime_profile after_slash
IsWithin-example = runtime_contract_from_storage-IsWithin (columns_of thrifty) thrifty refl

admitted_level_example :
    (p : RuntimeProfile) × (find_profile "gpt-5.5" ≡ some p)
    × (resolve_runtime_contract "gpt-5.5" (some "low") none none
        ≡ ok (contract_for p "low" p.inference_tpm_limit default_max_spend_micros))
unfolding validate_agent_framework_runtime runtime_profile
admitted_level_example =
    validate_agent_framework_runtime-resolves keep_text "codex" "gpt-5.5" "low" refl

legacy_is_read :
    runtime_contract_from_storage (columns_of legacy_runtime_contract) ≡ ok legacy_runtime_contract
unfolding runtime_contract_from_storage after_slash
legacy_is_read = refl

-- A row whose level is blank is read back with its blank level.
blank_level_is_read :
    runtime_contract_from_storage (columns_of (contract_for gpt_5_5 "" 300000 5000000))
    ≡ ok (contract_for gpt_5_5 "" 300000 5000000)
unfolding runtime_contract_from_storage resolve_runtime_contract runtime_profile after_slash
blank_level_is_read = refl
