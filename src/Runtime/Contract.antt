-- ===== src/Runtime/Contract.antt =====
-- The immutable contract of a run: `resolve_runtime_contract`, `legacy_runtime_contract` and
-- `runtime_contract_from_storage`. The numbers of a contract are natural numbers.
use Prim.Native.Char.{code}
use fomo_demo.Prelude.{
  ℕ, String, Bool, true, false, not, ◌&&◌, Option, none, some, [], ◌∷◌, ◌==◌, Result, ok, guard,
  ◌>>=◌, ◌>>◌, leb, ltb, eqb, contains, is_blank, if◌then◌else◌,
}
use fomo_demo.Runtime.{
  RuntimeError, contract_error, RuntimeProfile, runtime_profile, default_max_spend_micros,
  legacy_model_ref,
}

pub record RuntimeContract : Type 0 where
  pub profile_id : String
  pub model_ref : String
  pub litellm_alias : String
  pub thinking : String
  pub context_window : ℕ
  pub policy_version : String
  pub run_max_tokens : Option ℕ
  pub inference_tpm_limit : ℕ
  pub max_spend_micros : ℕ

-- the columns of a run that hold its contract
pub record RuntimeColumns : Type 0 where
  pub profile_id : String
  pub model_ref : String
  pub thinking : String
  pub context_window : ℕ
  pub policy_version : String
  pub run_max_tokens : Option ℕ
  pub inference_tpm_limit : ℕ
  pub max_spend_micros : ℕ

-- as `create_message_and_run` stores a contract
abbrev pub columns_of : RuntimeContract → RuntimeColumns
columns_of c = record {
  profile_id = c.profile_id;
  model_ref = c.model_ref;
  thinking = c.thinking;
  context_window = c.context_window;
  policy_version = c.policy_version;
  run_max_tokens = c.run_max_tokens;
  inference_tpm_limit = c.inference_tpm_limit;
  max_spend_micros = c.max_spend_micros;
}

-- `RUNTIME_POLICY_VERSION`, `PREVIOUS_RUNTIME_POLICY_VERSION` and `LEGACY_RUNTIME_POLICY_VERSION`
abbrev pub current_policy : String
current_policy = "direct-pi-runtime-v2"

abbrev pub previous_policy : String
previous_policy = "direct-pi-runtime-v1"

abbrev pub legacy_policy : String
legacy_policy = "direct-pi-legacy-v0"

abbrev pub minimum : ℕ → ℕ → ℕ
minimum a b = if leb a b then a else b

-- `thinking or profile.default_thinking`
abbrev pub thinking_or : Option String → String → String
thinking_or none default = default
thinking_or (some t) default = if is_blank t then default else t

abbrev pub value_or : Option ℕ → ℕ → ℕ
value_or none default = default
value_or (some n) default = n

abbrev pub contract_for : RuntimeProfile → String → ℕ → ℕ → RuntimeContract
contract_for p thinking tpm spend = record {
  profile_id = p.profile_id;
  model_ref = p.model_ref;
  litellm_alias = p.litellm_alias;
  thinking = thinking;
  context_window = p.context_window;
  policy_version = current_policy;
  run_max_tokens = none;
  inference_tpm_limit = tpm;
  max_spend_micros = spend;
}

unfoldable pub resolve_runtime_contract :
    String → Option String → Option ℕ → Option ℕ → Result RuntimeError RuntimeContract
resolve_runtime_contract profile_id thinking tpm_limit max_spend = do
  p ← runtime_profile profile_id
  let level = thinking_or thinking p.default_thinking
  guard (contains p.thinking_levels level)
      (contract_error "thinking level is unsupported by runtime profile")
  let tpm = minimum p.inference_tpm_limit (value_or tpm_limit p.inference_tpm_limit)
  let spend = value_or max_spend default_max_spend_micros
  guard (not (leb tpm p.context_window)) (contract_error "runtime TPM limit lacks output headroom")
  guard (not (leb spend 0)) (contract_error "runtime spend budget must be positive")
  ok (contract_for p level tpm spend)

abbrev pub legacy_runtime_contract : RuntimeContract
legacy_runtime_contract = record {
  profile_id = "deepseek-flash";
  model_ref = legacy_model_ref;
  litellm_alias = "fomo-pi-flash";
  thinking = "high";
  context_window = 200000;
  policy_version = legacy_policy;
  run_max_tokens = some 400000;
  inference_tpm_limit = 1000000;
  max_spend_micros = 2000000;
}

-- `model_ref.partition("/")[2]`
unfoldable pub after_slash : String → String
after_slash String.[] = String.[]
after_slash (String.◌∷◌ c s) = let rest = after_slash s in if eqb (code c) b'/' then s else rest

abbrev pub candidate_of : RuntimeColumns → RuntimeContract
candidate_of r = record {
  profile_id = r.profile_id;
  model_ref = r.model_ref;
  litellm_alias = after_slash r.model_ref;
  thinking = r.thinking;
  context_window = r.context_window;
  policy_version = r.policy_version;
  run_max_tokens = r.run_max_tokens;
  inference_tpm_limit = r.inference_tpm_limit;
  max_spend_micros = r.max_spend_micros;
}

abbrev pub same_number : Option ℕ → Option ℕ → Bool
same_number none none = true
same_number none (some b) = false
same_number (some a) none = false
same_number (some a) (some b) = eqb a b

-- equality of the dataclass
unfoldable pub same_contract : RuntimeContract → RuntimeContract → Bool
same_contract a b =
    a.profile_id == b.profile_id
    && a.model_ref == b.model_ref
    && a.litellm_alias == b.litellm_alias
    && a.thinking == b.thinking
    && eqb a.context_window b.context_window
    && a.policy_version == b.policy_version
    && same_number a.run_max_tokens b.run_max_tokens
    && eqb a.inference_tpm_limit b.inference_tpm_limit
    && eqb a.max_spend_micros b.max_spend_micros

-- `_V1_RUN_MAX_TOKENS_BY_PROFILE_ID`, for an id of the catalogue
abbrev pub previous_max_tokens : String → ℕ
previous_max_tokens id = if id == "deepseek-flash" then 2000000 else 600000

-- `token_contract_is_valid`; the flag says that the policy is the current one
abbrev pub is_token_budget : RuntimeColumns → Bool → Option ℕ → Bool
is_token_budget r true none = true
is_token_budget r true (some n) = false
is_token_budget r false none = false
is_token_budget r false (some n) =
    leb r.context_window n && leb n (previous_max_tokens r.profile_id)

unfoldable pub is_valid_token_contract : RuntimeColumns → Bool
is_valid_token_contract r = is_token_budget r (r.policy_version == current_policy) r.run_max_tokens

-- A row that agrees with what its profile resolves to.
unfoldable pub agrees_with_profile : RuntimeColumns → RuntimeContract → Bool
unfolding is_valid_token_contract
agrees_with_profile r expected =
    expected.model_ref == r.model_ref
    && eqb expected.context_window r.context_window
    && is_valid_token_contract r
    && (ltb r.context_window r.inference_tpm_limit
        && leb r.inference_tpm_limit expected.inference_tpm_limit)
    && not (leb r.max_spend_micros 0)

unfoldable pub from_legacy : RuntimeColumns → Result RuntimeError RuntimeContract
unfolding same_contract
from_legacy r = do
  guard (same_contract (candidate_of r) legacy_runtime_contract)
      (contract_error "legacy runtime contract does not match its frozen tuple")
  ok (candidate_of r)

unfoldable pub from_catalogue : RuntimeColumns → Result RuntimeError RuntimeContract
unfolding agrees_with_profile
from_catalogue r = do
  guard (contains (previous_policy ∷ current_policy ∷ []) r.policy_version)
      (contract_error "unknown runtime policy version")
  expected ← resolve_runtime_contract r.profile_id (some r.thinking) none none
  guard (agrees_with_profile r expected)
      (contract_error "persisted runtime contract does not match its profile")
  ok (candidate_of r)

unfoldable pub runtime_contract_from_storage : RuntimeColumns → Result RuntimeError RuntimeContract
unfolding from_legacy from_catalogue
runtime_contract_from_storage r =
    if r.policy_version == legacy_policy then from_legacy r else from_catalogue r
