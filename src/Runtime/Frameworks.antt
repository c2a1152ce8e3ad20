-- ===== src/Runtime/Frameworks.antt =====
-- agent_framework.py and the compatibility of frameworks with profiles. `normalized` is Python's
-- `value.strip().lower()`.
use Prim.Native.String.{◌++◌}
use fomo_demo.Prelude.{
  String, List, [], ◌∷◌, ◌==◌, ◌&&◌, map, Result, ok, err, guard, ◌>>=◌, contains, keep,
  if◌then◌else◌,
}
use fomo_demo.Runtime.{
  RuntimeError, contract_error, value_error, RuntimeProfile, runtime_profiles, runtime_profile,
}

-- `SUPPORTED_AGENT_FRAMEWORKS`
abbrev pub agent_frameworks : List String
agent_frameworks = "pi" ∷ "opencode" ∷ "codex" ∷ []

-- `CODEX_COMPATIBLE_PROFILE_IDS` and `CODEX_COMPATIBLE_THINKING_LEVELS`
abbrev pub codex_profile_ids : List String
codex_profile_ids = "gpt-5.5" ∷ "gpt-5.6" ∷ []

abbrev pub codex_thinking_levels : List String
codex_thinking_levels = "low" ∷ "medium" ∷ "high" ∷ "xhigh" ∷ []

-- The levels of a pair: those of the override, those that Codex has too, or the profile's.
abbrev pub levels_for : String → RuntimeProfile → List String
levels_for framework p =
    if framework == "opencode" && p.profile_id == "deepseek-flash"
    then "off" ∷ []
    else if framework == "codex"
    then keep (contains codex_thinking_levels) p.thinking_levels
    else p.thinking_levels

-- The profiles of a framework.
abbrev pub profile_ids_for : String → List String
profile_ids_for framework =
    if framework == "codex"
    then codex_profile_ids
    else map (λ (p : RuntimeProfile). p.profile_id) runtime_profiles

module _ (normalized : String → String) where
  unfoldable pub normalize_agent_framework : String → Result RuntimeError String
  normalize_agent_framework value =
      if contains agent_frameworks (normalized value)
      then ok (normalized value)
      else err (value_error "run agent framework must be pi, opencode, or codex")

  -- `normalize_agent_framework` within `try`, its error being raised again as a contract's
  as_contract_error : Result RuntimeError String → Result RuntimeError String
  as_contract_error (ok framework) = ok framework
  as_contract_error (err (contract_error m)) = err (contract_error m)
  as_contract_error (err (value_error m)) = err (contract_error m)

  unfoldable pub compatible_profile_ids_for_agent_framework :
      String → Result RuntimeError (List String)
  unfolding as_contract_error normalize_agent_framework
  compatible_profile_ids_for_agent_framework value = do
    framework ← as_contract_error (normalize_agent_framework value)
    ok (profile_ids_for framework)

  unfoldable pub validate_agent_framework_profile : String → String → Result RuntimeError (Unit {0})
  unfolding compatible_profile_ids_for_agent_framework
  validate_agent_framework_profile value profile_id = do
    p ← runtime_profile profile_id
    ids ← compatible_profile_ids_for_agent_framework value
    guard (contains ids profile_id)
        (contract_error "codex agent framework requires a GPT runtime profile")

  unfoldable pub compatible_thinking_levels_for_agent_framework_profile :
      String → String → Result RuntimeError (List String)
  unfolding validate_agent_framework_profile
  compatible_thinking_levels_for_agent_framework_profile value profile_id = do
    valid ← validate_agent_framework_profile value profile_id
    framework ← normalize_agent_framework value
    p ← runtime_profile profile_id
    ok (levels_for framework p)

  unfoldable pub validate_agent_framework_runtime :
      String → String → String → Result RuntimeError (Unit {0})
  unfolding compatible_thinking_levels_for_agent_framework_profile
  validate_agent_framework_runtime value profile_id thinking = do
    framework ← normalize_agent_framework value
    levels ← compatible_thinking_levels_for_agent_framework_profile framework profile_id
    guard (contains levels thinking) (
        contract_error
          (framework ++ " agent framework does not support this thinking level for " ++ profile_id))
