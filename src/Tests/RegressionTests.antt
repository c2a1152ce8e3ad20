-- ===== src/Tests/RegressionTests.antt =====
-- The regression suite of the last goal of the small site, and a change that stays focused.
use fomo_demo.Manager.{require_active_graph, assert_single_current_goal}
use fomo_demo.Graph.Keys.{
  scope_acceptance_contract, acceptance_persistence_key, acceptance_test_path,
  ScopedAcceptanceContract,
}
use fomo_demo.Contracts.Syntax.{is_identifier}
use fomo_demo.Prelude.{unique, ok, none, some, ◌≡◌, refl, [], ◌∷◌, true, false, String}
use fomo_demo.Graph.Navigation.{derive_navigation_verification_suite, SuiteMode}
use fomo_demo.Graph.{Goal, GoalDraft, GoalGraph, GoalStatus}
use fomo_demo.Graph.Model.{initial_graph}
use fomo_demo.Manager.Regression.{
  RegressionSuite, full, final_goal, selected_ids, ends_with_goal, build_regression_suite,
}
use fomo_demo.Manager.Regression.Complete.{build_regression_suite-final}
use fomo_demo.Manager.Escalation.{early_full_validation_reason}
use fomo_demo.Tests.Data.{keep_text, site, home, about, routes, shows}

abbrev goal : GoalStatus → GoalDraft → Goal
goal s g = record { draft = g; status = s; legacy = false }

abbrev about_is_claimed : GoalGraph
about_is_claimed = record (initial_graph site) {
  goals = goal GoalStatus.verified home ∷ goal GoalStatus.claimed about ∷ [];
}

abbrev scoped : String → String → String → String → String → ScopedAcceptanceContract
scoped id test path key file = record {
  goal_id = id;
  contract = shows test path;
  acceptance_key_by_id = (test, key) ∷ [];
  test_path_by_test_id = (test, file) ∷ [];
}

abbrev final_suite : RegressionSuite
final_suite = record {
  claimed_goal_id = "about";
  goal_ids = "home" ∷ "about" ∷ [];
  contracts =
      scoped "home" "home-1" "/" "home:home-1" "tests/fomo-acceptance/home/home-1.smoke.spec.ts"
      ∷ scoped "about" "about-1" "/about" "about:about-1"
          "tests/fomo-acceptance/about/about-1.smoke.spec.ts"
      ∷ [];
  mode = full;
  reason = final_goal;
  navigation_suite = some (record { version = 1; routes = routes; mode = SuiteMode.final_full });
}

final_suite_is_built : build_regression_suite keep_text about_is_claimed none ≡ ok final_suite
unfolding build_regression_suite require_active_graph initial_graph assert_single_current_goal
    scope_acceptance_contract acceptance_persistence_key is_identifier acceptance_test_path unique
    derive_navigation_verification_suite
final_suite_is_built = refl

final_suite_example :
    (final_suite.goal_ids ≡ selected_ids about_is_claimed.goals)
    × (final_suite.mode ≡ full)
    × (ends_with_goal final_suite.claimed_goal_id (selected_ids about_is_claimed.goals) ≡ true)
final_suite_example =
    build_regression_suite-final keep_text about_is_claimed none final_suite final_suite_is_built
      refl

stays_focused :
    early_full_validation_reason ("app/about/page.tsx" ∷ []) ("app/page.tsx" ∷ []) ≡ none
unfolding early_full_validation_reason
stays_focused = refl
