-- ===== src/Runtime/Enabled.antt =====
-- What a deployment enables: `parse_enabled_profile_ids`, `validated_default_profile_id`,
-- `parse_enabled_agent_frameworks` and `validated_default_agent_framework`, and the aliases of the
-- gateway. `strip` is Python's `str.strip`, and `normalized` is `strip().lower()`.
use Prim.Native.Char.{code}
use Prim.Native.String.{◌++◌}
use fomo_demo.Prelude.{
  String, not, ◌||◌, Option, none, some, List, [], ◌∷◌, map, Result, ok, err, guard, ◌>>=◌, ◌>>◌,
  contains, keep, any, subset, eqb, is_empty, is_blank, if◌then◌else◌,
}
use fomo_demo.Runtime.{
  RuntimeError, contract_error, value_error, RuntimeProfile, runtime_profiles, default_profile_id,
}
use fomo_demo.Runtime.Frameworks.{agent_frameworks, normalize_agent_framework}

-- `value.split(",")`
abbrev pub add_to_first : String → List String → List String
add_to_first c [] = c ∷ []
add_to_first c (s ∷ ss) = (c ++ s) ∷ ss

unfoldable pub split_commas : String → List String
split_commas String.[] = String.[] ∷ []
split_commas (String.◌∷◌ c s) =
    let rest = split_commas s in
    if eqb (code c) b',' then String.[] ∷ rest else add_to_first (String.◌∷◌ c String.[]) rest

abbrev pub profile_ids : List String
profile_ids = map (λ (p : RuntimeProfile). p.profile_id) runtime_profiles

abbrev pub default_enabled_profile_ids : List String
default_enabled_profile_ids = default_profile_id ∷ []

abbrev pub text_or_empty : Option String → String
text_or_empty none = String.[]
text_or_empty (some s) = s

-- `value or default`
abbrev pub text_or : Option String → String → String
text_or none default = default
text_or (some s) default = if is_blank s then default else s

-- `selectable_litellm_aliases` and `allowed_litellm_aliases`
abbrev pub selectable_litellm_aliases : List String
selectable_litellm_aliases = map (λ (p : RuntimeProfile). p.litellm_alias) runtime_profiles

abbrev pub allowed_litellm_aliases : List String
allowed_litellm_aliases = "fomo-pi-flash" ∷ selectable_litellm_aliases

module _ (strip : String → String) where
  abbrev pub requested_items : String → List String
  requested_items raw = keep (λ (s : String). not (is_blank s)) (map strip (split_commas raw))

  unfoldable pub parse_enabled_profile_ids : Option String → Result RuntimeError (List String)
  parse_enabled_profile_ids value =
      if is_blank (strip (text_or_empty value)) || is_empty (requested_items (text_or_empty value))
      then ok default_enabled_profile_ids
      else if subset (requested_items (text_or_empty value)) profile_ids
      then ok (requested_items (text_or_empty value))
      else err (contract_error "enabled runtime profiles contain an unknown profile")

  unfoldable pub validated_default_profile_id :
      Option String → List String → Result RuntimeError String
  validated_default_profile_id value enabled = do
    let candidate = strip (text_or value default_profile_id)
    guard (contains profile_ids candidate) (contract_error "default runtime profile is unknown")
    guard (contains enabled candidate) (contract_error "default runtime profile must be enabled")
    ok candidate

-- a setting that is absent, one text or several
pub data EnabledFrameworks : Type 0 where
  absent : EnabledFrameworks
  joined : String → EnabledFrameworks
  listed : List String → EnabledFrameworks

module _ (normalized : String → String) (joined_text : List String → String) where
  abbrev pub framework_candidates : EnabledFrameworks → List String
  framework_candidates absent = "pi" ∷ "opencode" ∷ []
  framework_candidates (joined s) = map normalized (split_commas s)
  framework_candidates (listed ss) = map normalized ss

  -- The selected frameworks, in the order of the enumeration. `joined_text` is the sorted list of the
  -- unknown ones, as the message shows it.
  unfoldable pub parse_enabled_agent_frameworks :
      EnabledFrameworks → Result RuntimeError (List String)
  parse_enabled_agent_frameworks values = do
    let candidates = framework_candidates values
    guard (not (is_empty candidates || any is_blank candidates))
        (value_error "enabled agent frameworks must be a non-empty comma-separated allowlist")
    guard (subset candidates agent_frameworks) (
        value_error (
          "unsupported agent framework: "
          ++ joined_text (keep (λ (s : String). not (contains agent_frameworks s)) candidates)))
    ok (keep (contains candidates) agent_frameworks)

  unfoldable pub validated_default_agent_framework :
      String → List String → Result RuntimeError String
  validated_default_agent_framework value enabled = do
    candidate ← normalize_agent_framework normalized value
    guard (contains enabled candidate)
        (value_error "default agent framework must be present in the enabled allowlist")
    ok candidate
