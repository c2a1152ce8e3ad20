-- ===== src/Runtime.antt =====
-- runtime_contract.py: the catalogue of models and its lookups.
pub mod Frameworks
pub mod Contract
pub mod Stored
pub mod Catalogue
pub mod Accepted
pub mod Admission
pub mod Enabled
use Prim.Native.String.{◌++◌}
use fomo_demo.Prelude.{
  map, guard, ◌>>◌, ◌>>=◌, ℕ, String, Bool, true, false, not, ◌&&◌, ◌||◌, List, [], ◌∷◌, Option,
  none, some, ◌==◌, Result, ok, err, leb, ltb, first, contains, unique, is_empty, is_blank,
  if◌then◌else◌,
}

-- `RuntimeContractError`, and the other `ValueError`s
pub data RuntimeError : Type 0 where
  contract_error value_error : String → RuntimeError

pub record RuntimeProfile : Type 0 where
  pub profile_id : String
  pub label : String
  pub model_ref : String
  pub litellm_alias : String
  pub context_window : ℕ
  pub thinking_levels : List String
  pub inference_tpm_limit : ℕ
  pub default_thinking : String

-- `DEFAULT_THINKING` and `DEFAULT_PROFILE_ID`
abbrev pub default_thinking_level : String
default_thinking_level = "high"

abbrev pub default_profile_id : String
default_profile_id = "deepseek-flash"

-- `MAX_CONTEXT_WINDOW` and `DEFAULT_MAX_SPEND_MICROS`
abbrev pub max_context_window : ℕ
max_context_window = 1000000

abbrev pub default_max_spend_micros : ℕ
default_max_spend_micros = 5000000

-- the checks of `RuntimeProfile.__post_init__`
unfoldable pub is_valid_profile : RuntimeProfile → Bool
is_valid_profile p =
    not (is_blank p.profile_id || is_blank p.label)
    && p.model_ref == ("fomo-litellm/" ++ p.litellm_alias)
    && (leb 1 p.context_window && leb p.context_window max_context_window)
    && not (leb p.inference_tpm_limit p.context_window)
    && not (is_empty p.thinking_levels || not (unique p.thinking_levels))
    && contains p.thinking_levels p.default_thinking

abbrev pub gpt_5_6 : RuntimeProfile
gpt_5_6 = record {
  profile_id = "gpt-5.6";
  label = "GPT-5.6";
  model_ref = "fomo-litellm/fomo-pi-gpt-5.6";
  litellm_alias = "fomo-pi-gpt-5.6";
  context_window = 250000;
  thinking_levels = "off" ∷ "low" ∷ "medium" ∷ "high" ∷ "xhigh" ∷ "max" ∷ [];
  inference_tpm_limit = 1000000;
  default_thinking = default_thinking_level;
}

abbrev pub gpt_5_5 : RuntimeProfile
gpt_5_5 = record {
  profile_id = "gpt-5.5";
  label = "GPT-5.5";
  model_ref = "fomo-litellm/fomo-pi-gpt-5.5";
  litellm_alias = "fomo-pi-gpt-5.5";
  context_window = 250000;
  thinking_levels = "off" ∷ "low" ∷ "medium" ∷ "high" ∷ "xhigh" ∷ [];
  inference_tpm_limit = 1000000;
  default_thinking = default_thinking_level;
}

abbrev pub deepseek_flash : RuntimeProfile
deepseek_flash = record {
  profile_id = "deepseek-flash";
  label = "DeepSeek Flash";
  model_ref = "fomo-litellm/fomo-pi-deepseek-flash";
  litellm_alias = "fomo-pi-deepseek-flash";
  context_window = 1000000;
  thinking_levels = "off" ∷ "high" ∷ [];
  inference_tpm_limit = 1250000;
  default_thinking = default_thinking_level;
}

abbrev pub grok_4_5 : RuntimeProfile
grok_4_5 = record {
  profile_id = "grok-4.5";
  label = "Grok 4.5";
  model_ref = "fomo-litellm/fomo-pi-grok-4.5";
  litellm_alias = "fomo-pi-grok-4.5";
  context_window = 500000;
  thinking_levels = "low" ∷ "medium" ∷ "high" ∷ [];
  inference_tpm_limit = 1000000;
  default_thinking = default_thinking_level;
}

abbrev pub kimi_k2_7_code : RuntimeProfile
kimi_k2_7_code = record {
  profile_id = "kimi-k2.7-code";
  label = "Kimi K2.7 Code";
  model_ref = "fomo-litellm/fomo-pi-kimi-k2.7-code";
  litellm_alias = "fomo-pi-kimi-k2.7-code";
  context_window = 262144;
  thinking_levels = "default" ∷ [];
  inference_tpm_limit = 1000000;
  default_thinking = "default";
}

abbrev pub gemini_3_6_flash : RuntimeProfile
gemini_3_6_flash = record {
  profile_id = "gemini-3.6-flash";
  label = "Gemini 3.6 Flash";
  model_ref = "fomo-litellm/fomo-pi-gemini-3.6-flash";
  litellm_alias = "fomo-pi-gemini-3.6-flash";
  context_window = 250000;
  thinking_levels = "minimal" ∷ "low" ∷ "medium" ∷ "high" ∷ [];
  inference_tpm_limit = 1000000;
  default_thinking = default_thinking_level;
}

abbrev pub gemini_3_1_pro : RuntimeProfile
gemini_3_1_pro = record {
  profile_id = "gemini-3.1-pro";
  label = "Gemini 3.1 Pro";
  model_ref = "fomo-litellm/fomo-pi-gemini-3.1-pro";
  litellm_alias = "fomo-pi-gemini-3.1-pro";
  context_window = 250000;
  thinking_levels = "low" ∷ "medium" ∷ "high" ∷ [];
  inference_tpm_limit = 1000000;
  default_thinking = default_thinking_level;
}

-- `RUNTIME_PROFILES`
abbrev pub runtime_profiles : List RuntimeProfile
runtime_profiles =
    gpt_5_6 ∷ gpt_5_5 ∷ deepseek_flash ∷ grok_4_5 ∷ kimi_k2_7_code ∷ gemini_3_6_flash
    ∷ gemini_3_1_pro ∷ []

-- `_PROFILE_BY_ID.get`
abbrev pub find_profile : String → Option RuntimeProfile
find_profile id = first (λ (p : RuntimeProfile). p.profile_id == id) runtime_profiles

-- `runtime_profile`
abbrev pub found_profile : Option RuntimeProfile → Result RuntimeError RuntimeProfile
found_profile none = err (contract_error "unknown runtime profile")
found_profile (some p) = ok p

unfoldable pub runtime_profile : String → Result RuntimeError RuntimeProfile
runtime_profile id = found_profile (find_profile id)

-- `runtime_profile_for_model_ref`
abbrev pub runtime_profile_for_model_ref : String → Option RuntimeProfile
runtime_profile_for_model_ref ref =
    first (λ (p : RuntimeProfile). p.model_ref == ref) runtime_profiles

-- `LEGACY_MODEL_REF`, `LEGACY_MODEL_THINKING_LEVELS` and `LEGACY_MODEL_CONTEXT_LIMITS`
abbrev pub legacy_model_ref : String
legacy_model_ref = "fomo-litellm/fomo-pi-flash"

abbrev pub legacy_thinking_levels : List String
legacy_thinking_levels = "off" ∷ "high" ∷ "max" ∷ []

abbrev pub legacy_context_limit : ℕ
legacy_context_limit = 1000000

-- `allowed_model_refs`
unfoldable pub allowed_model_refs : List String
allowed_model_refs = legacy_model_ref ∷ map (λ (p : RuntimeProfile). p.model_ref) runtime_profiles

levels_of : Option RuntimeProfile → String → Result RuntimeError (List String)
levels_of (some p) ref = ok p.thinking_levels
levels_of none ref =
    if ref == legacy_model_ref
    then ok legacy_thinking_levels
    else err (contract_error "unknown runtime model ref")

unfoldable pub thinking_levels_for_model_ref : String → Result RuntimeError (List String)
unfolding levels_of
thinking_levels_for_model_ref ref = levels_of (runtime_profile_for_model_ref ref) ref

limit_of : Option RuntimeProfile → String → Result RuntimeError ℕ
limit_of (some p) ref = ok p.context_window
limit_of none ref =
    if ref == legacy_model_ref
    then ok legacy_context_limit
    else err (contract_error "unknown runtime model ref")

unfoldable pub context_limit_for_model_ref : String → Result RuntimeError ℕ
unfolding limit_of
context_limit_for_model_ref ref = limit_of (runtime_profile_for_model_ref ref) ref

-- `validate_invocation_contract`
unfoldable pub validate_invocation_contract : String → String → ℕ → Result RuntimeError (Unit {0})
unfolding allowed_model_refs thinking_levels_for_model_ref context_limit_for_model_ref
validate_invocation_contract ref thinking context_window = do
  guard (contains allowed_model_refs ref) (contract_error "unknown runtime model ref")
  levels ← thinking_levels_for_model_ref ref
  guard (contains levels thinking) (contract_error "thinking level is unsupported by runtime model")
  limit ← context_limit_for_model_ref ref
  guard (leb 1 context_window && leb context_window limit)
      (contract_error "context window exceeds the runtime model limit")
