-- ===== src/Manager/Escalation.antt =====
-- `early_full_validation_reason` of direct_pi/goal_manager.py: when the files that a goal changed ask
-- for a full validation.
use fomo_demo.Prelude.{
  String, Bool, true, false, not, ◌&&◌, ◌||◌, Option, none, some, List, [], ◌∷◌, ◌==◌, any,
  contains, if◌then◌else◌,
}
use fomo_demo.Manager.Regression.{
  RuntimeValidationReason, project_config_changed, prior_goal_file_changed,
}

-- `_PROJECT_CONFIG_PATHS`
abbrev project_config_paths : List String
project_config_paths =
    "components.json" ∷ "eslint.config.js" ∷ "eslint.config.mjs" ∷ "eslint.config.ts"
    ∷ "next.config.js" ∷ "next.config.mjs" ∷ "next.config.ts" ∷ "package.json" ∷ "pnpm-lock.yaml"
    ∷ "pnpm-workspace.yaml" ∷ "postcss.config.js" ∷ "postcss.config.mjs" ∷ "postcss.config.ts"
    ∷ "tailwind.config.js" ∷ "tailwind.config.mjs" ∷ "tailwind.config.ts" ∷ "tsconfig.json" ∷ []

-- "/" in path
has_slash : String → Bool
has_slash String.[] = false
has_slash (String.◌∷◌ c s) = String.◌∷◌ c String.[] == "/" || has_slash s

starts_with : String → String → Bool
starts_with String.[] s = true
starts_with (String.◌∷◌ c p) String.[] = false
starts_with (String.◌∷◌ c p) (String.◌∷◌ d s) =
    String.◌∷◌ c String.[] == String.◌∷◌ d String.[] && starts_with p s

ends_with : String → String → Bool
ends_with p String.[] = p == String.[]
ends_with p (String.◌∷◌ c s) = p == String.◌∷◌ c s || ends_with p s

pub is_project_config : String → Bool
unfolding has_slash starts_with ends_with
is_project_config path =
    contains project_config_paths path
    || (not (has_slash path) && starts_with "tsconfig" path && ends_with ".json" path)

unfoldable pub early_full_validation_reason :
    List String → List String → Option RuntimeValidationReason
unfolding is_project_config
early_full_validation_reason changed prior =
    if any is_project_config changed
    then some project_config_changed
    else if any (contains prior) changed
    then some prior_goal_file_changed
    else none
